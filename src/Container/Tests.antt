-- ===== src/Container/Tests.antt =====
-- A container at concrete events: a result file that is cut off.
use mini_serverless_cloud_pl.Base.{
  if◌then◌else◌, pos, String, ◌≡◌, ◌↔◌, none, some, [], ◌∷◌, ◌++◌, str_eq,
}
use mini_serverless_cloud_pl.Execution.{success}
use mini_serverless_cloud_pl.Container.{started, Shim, react_all, fires, chunk, closes}
use mini_serverless_cloud_pl.Container.Outcomes.{hangs_iff}

-- Only the text "{}" parses.
abbrev shim : Shim String
shim file = if str_eq file "{}" then some (λ d. success file d) else none

hangs_iff_example :
    ((react_all shim
        ((fires ∷ chunk "Killed" ∷ []) ++ closes (some 137) (pos 4) (some "{") ∷ fires ∷ [])
        started).outcome
      ≡ none)
    ↔ ((text : String) × (some "{" ≡ some text) × (shim text ≡ none))
hangs_iff_example =
    hangs_iff shim (fires ∷ chunk "Killed" ∷ []) (some 137) (pos 4) (some "{") (fires ∷ [])
      (tt, (tt, tt))
