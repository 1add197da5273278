-- ===== src/Execution.antt =====
-- containerExecutor.ts: the outcome of running a function. `V` is the type of the JSON values that
-- events and results are.
use mini_serverless_cloud_pl.Base.{ℤ, String}

pub data ExecutionOutcome (V : Type 0) : Type 0 where
  success : V → ℤ → ExecutionOutcome V
  error : String → ℤ → ExecutionOutcome V
  timeout : ℤ → ExecutionOutcome V

abbrev pub duration_of : {V : Type 0} → ExecutionOutcome V → ℤ
duration_of (success result d) = d
duration_of (timeout d) = d
duration_of (error e d) = d
