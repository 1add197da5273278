-- ===== src/Metrics/Tests.antt =====
-- A scrape of a fleet with one worker whose lease is over, and two jobs that wait.
use mini_serverless_cloud_pl.Base.{ℕ, String, ◌≡◌, refl, [], ◌∷◌}
use mini_serverless_cloud_pl.Redis.{Hash}
use mini_serverless_cloud_pl.Stream.{Group}
use mini_serverless_cloud_pl.Registry.{WorkerHeartbeat}
use mini_serverless_cloud_pl.Samples.Heartbeats.{write}
use mini_serverless_cloud_pl.Metrics.{count, null, Gauges}
use mini_serverless_cloud_pl.Metrics.Lag.{depth_at, get_metrics-lag}

abbrev text_of : Gauges → String
text_of g = "metrics"

abbrev zeros : Gauges
zeros = record { invocation_queue_depth = 0; healthy_workers = 0 }

abbrev group : Group
group = record { waiting = ("1-0", []) ∷ ("2-0", []) ∷ []; delivered = [] }

get_metrics-lag_example :
    (depth_at text_of [] [] 1 3 "1-0" 5 [] (count 2) zeros ≡ 2)
    × (depth_at text_of [] [] 1 3 "1-0" 5 [] null zeros ≡ 0)
get_metrics-lag_example = get_metrics-lag text_of [] [] 1 3 "1-0" 5 [] group zeros tt refl

abbrev crashed : WorkerHeartbeat
crashed = record { worker_id = "worker-1"; capacity = 1; in_flight = 0; last_heartbeat_at = 2 }

abbrev fleet : Hash
fleet = ("worker-1", write crashed) ∷ []

abbrev late : ℕ
late = 10003
