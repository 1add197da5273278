-- ===== src/Worker/Life/Rest.antt =====
-- A worker runs one job at a time, and after each of them it is idle again.
use mini_serverless_cloud_pl.Base.{Action, ◌≡◌}
use mini_serverless_cloud_pl.Worker.{WorkerState}

-- An action that leaves the number of jobs in flight as it was, also when it throws.
abbrev pub Keeps : {V : Type 0} → Action (WorkerState V) (Unit {0}) → Type 0
Keeps {V} m = (s : WorkerState V) → (m s).1.in_flight ≡ s.in_flight
