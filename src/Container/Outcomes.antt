-- ===== src/Container/Outcomes.antt =====
-- The outcome of a container is settled by its first close, and what a timeout says.
use mathlib.Core.List.{Memᴰ}
use mini_serverless_cloud_pl.Base.{
  ◌==◌, ==_iff, Bool-cases, ℤ, All, ℕ, String, ◌≡◌, refl, sym, ap, ◌∙◌, ◌≢◌, ◌↔◌, ◌⊎◌, inl, inr,
  true, false, Option, none, some, List, [], ◌∷◌, ◌++◌,
}
use mini_serverless_cloud_pl.Execution.{ExecutionOutcome, timeout}
use mini_serverless_cloud_pl.Container.{
  started, Shim, react, react_all, Running, Event, fires, chunk, closes, from_file, from_exit,
  conclude,
}

module _ {V : Type 0} (parse : Shim V) where
  react_settled :
      (e : Event) (r : Running V)
      → r.settled ≡ true
      → r.timer ≡ false
      → ((react parse e r).outcome ≡ r.outcome)
        × ((react parse e r).kills ≡ r.kills)
        × ((react parse e r).settled ≡ true)
        × ((react parse e r).timer ≡ false)
  unfolding react
  react_settled fires r s t = rw t (refl, refl, s, refl)
  react_settled (chunk text) r s t = (refl, refl, s, t)
  react_settled (closes exit_code duration file) r s t = rw s (refl, refl, refl, refl)

  react_all_settled :
      (es : List Event) (r : Running V)
      → r.settled ≡ true
      → r.timer ≡ false
      → ((react_all parse es r).outcome ≡ r.outcome) × ((react_all parse es r).kills ≡ r.kills)
  unfolding react_all
  react_all_settled [] r s t = (refl, refl)
  react_all_settled (e ∷ es) r s t =
      let (same, kills, s', t') = react_settled e r s t in
      let (later, no_kills) = react_all_settled es (react parse e r) s' t' in
      (later ∙ same, no_kills ∙ kills)

  closes-settled :
      (exit_code : Option ℕ) (duration : ℤ) (file : Option String) (r : Running V)
      → ((react parse (closes exit_code duration file) r).settled ≡ true)
        × ((react parse (closes exit_code duration file) r).timer ≡ false)
  unfolding react
  closes-settled exit_code duration file r = elim (Bool-cases r.settled) [
    | inl hit ↦ rw hit (refl, refl)
    | inr miss ↦ rw miss (refl, refl)
  ]

  -- Once the process has closed nothing changes any more: a timer that fires late kills no container,
  -- and no later event gives another outcome.
  pub closed_for_good :
      (exit_code : Option ℕ) (duration : ℤ) (file : Option String) (r : Running V) (es : List Event)
      → ((react_all parse es (react parse (closes exit_code duration file) r)).outcome
          ≡ (react parse (closes exit_code duration file) r).outcome)
        × ((react_all parse es (react parse (closes exit_code duration file) r)).kills
            ≡ (react parse (closes exit_code duration file) r).kills)
  closed_for_good exit_code duration file r es =
      let (s, t) = closes-settled exit_code duration file r in
      react_all_settled es (react parse (closes exit_code duration file) r) s t

  -- The shim in the container writes `success` or `error`.
  abbrev pub IsShim : Type 0
  IsShim =
      (file : String) (o : ℤ → ExecutionOutcome V) (duration d : ℤ)
      → parse file ≡ some o
      → o duration ≢ timeout d

  conclude-timeout :
      (exit_code : Option ℕ) (duration d : ℤ) (file : Option String) (stderr : String)
      → IsShim
      → conclude parse exit_code duration file stderr ≡ some (timeout d)
      → (exit_code ≡ some 137) × (file ≡ none)
  unfolding conclude from_file from_exit
  conclude-timeout none duration d none stderr law e = cc
  conclude-timeout (some code) duration d none stderr law e = elim (Bool-cases (code == 137)) [
    | inl hit ↦ (ap some ((==_iff code 137).0 hit), refl)
    | inr miss ↦ cc (rw miss at e)
  ]
  conclude-timeout exit_code duration d (some file) stderr law e = go (parse file) refl e
    where
      go :
          (o : Option (ℤ → ExecutionOutcome V))
          → parse file ≡ o
          → from_file parse duration o ≡ some (timeout d)
          → (exit_code ≡ some 137) × (some file ≡ none)
      go none p q = cc
      go (some o) p q =
          let same : o duration ≡ timeout d = cc in absurd (law file o duration d p same)

  react-timeout :
      (e : Event) (r : Running V) (d : ℤ)
      → IsShim
      → (react parse e r).outcome ≡ some (timeout d)
      → (r.outcome ≡ some (timeout d)) ⊎ ((duration : ℤ) × (closes (some 137) duration none ≡ e))
  unfolding react
  react-timeout fires r d law e = elim (Bool-cases r.timer) [
    | inl hit ↦ inl (rw hit at e)
    | inr miss ↦ inl (rw miss at e)
  ]
  react-timeout (chunk text) r d law e = inl e
  react-timeout (closes exit_code duration file) r d law e = elim (Bool-cases r.settled) [
    | inl hit ↦ inl (rw hit at e)
    | inr miss ↦
        let (code, absent) =
          conclude-timeout exit_code duration d file r.stderr law (rw miss at e) in
        inr (duration, rw (code, absent) refl)
  ]

  react_all-timeout :
      (es : List Event) (r : Running V) (d : ℤ)
      → IsShim
      → (react_all parse es r).outcome ≡ some (timeout d)
      → (r.outcome ≡ some (timeout d))
        ⊎ ((duration : ℤ) × Memᴰ (closes (some 137) duration none) es)
  unfolding react_all
  react_all-timeout [] r d law e = inl e
  react_all-timeout (x ∷ es) r d law e = elim (react_all-timeout es (react parse x r) d law e) [
    | inl before ↦ elim (react-timeout x r d law before) [
      | inl earlier ↦ inl earlier
      | inr (duration, same) ↦ inr (duration, Memᴰ.head same)
    ]
    | inr (duration, m) ↦ inr (duration, Memᴰ.tail m)
  ]

  -- A container is reported as timed out only if it closed with exit code 137 and left no result file.
  pub timeout-closes :
      (es : List Event) (d : ℤ)
      → IsShim
      → (react_all parse es started).outcome ≡ some (timeout d)
      → (duration : ℤ) × Memᴰ (closes (some 137) duration none) es
  timeout-closes es d law e = elim (react_all-timeout es started d law e) [
    | inl before ↦ cc
    | inr closed ↦ closed
  ]

  -- The process has not closed yet.
  abbrev pub IsEarly : Event → Type 0
  IsEarly fires = Unit
  IsEarly (chunk text) = Unit
  IsEarly (closes exit_code duration file) = ⊥

  react_all-append :
      (es fs : List Event) (r : Running V)
      → react_all parse (es ++ fs) r ≡ react_all parse fs (react_all parse es r)
  unfolding react_all
  react_all-append [] fs r = refl
  react_all-append (e ∷ es) fs r = react_all-append es fs (react parse e r)

  -- Before it closes neither the timer nor the error output settles anything.
  react-waits :
      (e : Event) (r : Running V)
      → IsEarly e
      → r.settled ≡ false
      → (react parse e r).settled ≡ false
  unfolding react
  react-waits fires r early s = elim (Bool-cases r.timer) [
    | inl hit ↦ rw hit s
    | inr miss ↦ rw miss s
  ]
  react-waits (chunk text) r early s = s
  react-waits (closes exit_code duration file) r early s = absurd early

  react_all-waits :
      (es : List Event) (r : Running V)
      → All IsEarly es
      → r.settled ≡ false
      → (react_all parse es r).settled ≡ false
  unfolding react_all
  react_all-waits [] r early s = s
  react_all-waits (e ∷ es) r (first, early) s =
      react_all-waits es (react parse e r) early (react-waits e r first s)

  conclude-eq-none :
      (exit_code : Option ℕ) (duration : ℤ) (file : Option String) (stderr : String)
      → (conclude parse exit_code duration file stderr ≡ none)
        ↔ ((text : String) × (file ≡ some text) × (parse text ≡ none))
  unfolding conclude from_file
  conclude-eq-none exit_code duration none stderr = ((λ e. cc), (λ (text, is, broken). cc))
  conclude-eq-none exit_code duration (some text) stderr = (
    (λ e. (text, refl, unread (parse text) e)),
    (λ (t, is, broken). let same : text ≡ t = cc in rw (same, broken) refl),
  )
    where
      unread : (o : Option (ℤ → ExecutionOutcome V)) → from_file parse duration o ≡ none → o ≡ none
      unread none q = refl
      unread (some o) q = cc

  -- Whatever the timer and the error output do before the process closes, and whatever comes after,
  -- the promise is left without an outcome exactly where the result file is there and does not parse.
  pub hangs_iff :
      (before : List Event) (exit_code : Option ℕ) (duration : ℤ) (file : Option String)
      (after : List Event)
      → All IsEarly before
      → ((react_all parse (before ++ closes exit_code duration file ∷ after) started).outcome
          ≡ none)
        ↔ ((text : String) × (file ≡ some text) × (parse text ≡ none))
  unfolding react react_all
  hangs_iff before exit_code duration file after early =
      let r = react_all parse before started in
      let (same, _) = closed_for_good exit_code duration file r after in
      let here = react_all-waits before started early refl in
      let (left, right) = conclude-eq-none exit_code duration file r.stderr in
      rw (react_all-append before (closes exit_code duration file ∷ after) started)
        (λ e. left (sym (closing r here) ∙ (sym same ∙ e)), λ u. same ∙ (closing r here ∙ right u))
    where
      closing :
          (r : Running V)
          → r.settled ≡ false
          → (react parse (closes exit_code duration file) r).outcome
            ≡ conclude parse exit_code duration file r.stderr
      closing r s = rw s refl
