-- ===== src/Worker/RoundTrip.antt =====
-- An invocation's way through the platform: from a dispatcher's stream to a worker, and back.
use mini_serverless_cloud_pl.Base.{◌≡◌, some}
use mini_serverless_cloud_pl.Execution.{ExecutionOutcome}
use mini_serverless_cloud_pl.Dispatch.{Json}

-- Outcomes go through JSON unchanged.
abbrev pub IsOutcomeJson : {V : Type 0} → Json V → Type 0
IsOutcomeJson {V} J = (o : ExecutionOutcome V) → J.parse_outcome (J.stringify_outcome o) ≡ some o
