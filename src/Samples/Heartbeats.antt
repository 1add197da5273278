-- ===== src/Samples/Heartbeats.antt =====
-- A heartbeat as a text: its three numbers, then its id.
use mini_serverless_cloud_pl.Base.{ℕ, String, ap, ◌∙◌, Option, none, some}
use mini_serverless_cloud_pl.Redis.{IsCodec, Codec}
use mini_serverless_cloud_pl.Registry.{WorkerHeartbeat}
use mini_serverless_cloud_pl.Samples.{unary, count_unary, count_unary-unary}

unfoldable pub write : WorkerHeartbeat → String
unfolding unary
write info =
    unary info.capacity (unary info.in_flight (unary info.last_heartbeat_at info.worker_id))

unfoldable pub third : ℕ → ℕ → Option (ℕ × String) → Option WorkerHeartbeat
third c i none = none
third c i (some (t, w)) =
    some (record { worker_id = w; capacity = c; in_flight = i; last_heartbeat_at = t })

unfoldable pub second : ℕ → Option (ℕ × String) → Option WorkerHeartbeat
unfolding third count_unary
second c none = none
second c (some (i, s)) = third c i (count_unary s)

unfoldable pub first : Option (ℕ × String) → Option WorkerHeartbeat
unfolding second count_unary
first none = none
first (some (c, s)) = second c (count_unary s)

abbrev pub codec : Codec WorkerHeartbeat
codec = record { stringify = write; parse = λ s. first (count_unary s) }

pub codec-IsCodec : IsCodec codec
unfolding write first second third
codec-IsCodec info =
    ap first (count_unary-unary info.capacity _)
    ∙ ap (second info.capacity) (count_unary-unary info.in_flight _)
    ∙ ap (third info.capacity info.in_flight)
        (count_unary-unary info.last_heartbeat_at info.worker_id)
