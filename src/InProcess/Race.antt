-- ===== src/InProcess/Race.antt =====
-- The timer bounds every execution.
use mini_serverless_cloud_pl.Base.{
  ℤ, any, String, ◌≡◌, refl, ◌↔◌, Bool, true, false, some, List, [], ◌∷◌, ◌++◌,
}
use mini_serverless_cloud_pl.Execution.{ExecutionOutcome, timeout}
use mini_serverless_cloud_pl.InProcess.{
  execute_function, Loaded, load_failed, without_handler, with_handler, Settlement, returned, threw,
  timer_fired, outcome_for, race,
}

abbrev pub is_timer : {V : Type 0} → Settlement V → Bool
is_timer (returned v) = false
is_timer (threw m) = false
is_timer timer_fired = true

-- Once the timer has fired an execution has its outcome, whatever the module holds and whether or not
-- the handler ever settles; and it is a timeout only if there is a handler and nothing settled before
-- the timer.
pub execute_function-some :
    {V : Type 0} (duration : ℤ) (path : String) (loaded : Loaded)
    (before after : List (Settlement V))
    → any is_timer before ≡ false
    → (o : ExecutionOutcome V) × (execute_function duration path loaded
          (before ++ timer_fired ∷ after)
        ≡ some o)
      × ((o ≡ timeout duration) ↔ ((loaded ≡ with_handler) × (before ≡ [])))
unfolding execute_function race outcome_for
execute_function-some duration path (load_failed m) before after none_before =
    (_, refl, ((λ e. cc), (λ (l, b). cc)))
execute_function-some duration path without_handler before after none_before =
    (_, refl, ((λ e. cc), (λ (l, b). cc)))
execute_function-some duration path with_handler [] after none_before =
    (_, refl, ((λ e. (refl, refl)), (λ p. refl)))
execute_function-some duration path with_handler (returned v ∷ before) after none_before =
    (_, refl, ((λ e. cc), (λ (l, b). cc)))
execute_function-some duration path with_handler (threw m ∷ before) after none_before =
    (_, refl, ((λ e. cc), (λ (l, b). cc)))
execute_function-some duration path with_handler (timer_fired ∷ before) after none_before = cc
