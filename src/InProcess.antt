-- ===== src/InProcess.antt =====
-- executor.ts: a handler that runs in the process itself, raced against a timer. What `require` does,
-- and the order in which the promises of the race settle, are arguments.
pub mod Race
use mini_serverless_cloud_pl.Base.{template, ℤ, String, Option, none, some, List, [], ◌∷◌}
use mini_serverless_cloud_pl.Execution.{ExecutionOutcome, success, error, timeout}

-- The module: it does not load, it exports no function `handler`, or it does.
pub data Loaded : Type 0 where
  load_failed : String → Loaded
  without_handler : Loaded
  with_handler : Loaded

-- A promise of the race settles: the handler's with a value or an error, or the timer's.
pub data Settlement (V : Type 0) : Type 0 where
  returned : V → Settlement V
  threw : String → Settlement V
  timer_fired : Settlement V

module _ {V : Type 0} (duration : ℤ) where
  outcome_for : Settlement V → ExecutionOutcome V
  outcome_for (returned v) = success v duration
  outcome_for timer_fired = timeout duration
  outcome_for (threw m) = error m duration

  -- `Promise.race`: the first one that settles; `none` while none has.
  race : List (Settlement V) → Option (ExecutionOutcome V)
  unfolding outcome_for
  race [] = none
  race (s ∷ later) = some (outcome_for s)

  pub execute_function : String → Loaded → List (Settlement V) → Option (ExecutionOutcome V)
  unfolding race
  execute_function path (load_failed m) settlements =
      some (error (template ("Failed to load function module: " ∷ m ∷ [])) duration)
  execute_function path without_handler settlements = some (
      error (template ("Module at \"" ∷ path ∷ "\" does not export a \"handler\" function" ∷ []))
        duration)
  execute_function path with_handler settlements = race settlements
