-- ===== src/Worker/Tests.antt =====
-- The worker at a concrete job, and two stale messages.
use mathlib.Core.List.{Memᴰ}
use mini_serverless_cloud_pl.Base.{pos, ok, String, refl, ◌≢◌, none, some, List, [], ◌∷◌, arith}
use mini_serverless_cloud_pl.Execution.{success}
use mini_serverless_cloud_pl.Functions.{InvocationJob}
use mini_serverless_cloud_pl.Dispatch.{job_fields, no_waiters, Json, Event, expires}
use mini_serverless_cloud_pl.Worker.{Executor, status_text, PendingEntry, WorkerState}
use mini_serverless_cloud_pl.Samples.Heartbeats.{write, third, second, first, codec, codec-IsCodec}
use mini_serverless_cloud_pl.Samples.{unary, one_more, count_unary}
use mini_serverless_cloud_pl.Redis.{Hash}
use mini_serverless_cloud_pl.Redis.Memory.{memory, memory-IsRedis}
use mini_serverless_cloud_pl.Registry.{
  heartbeat, status_at, statuses, list_workers, WorkerHeartbeat,
}
use mini_serverless_cloud_pl.Worker.Life.{Round}
use mini_serverless_cloud_pl.Dispatch.Calls.{Session}
use mini_serverless_cloud_pl.Samples.Outcomes.{write_outcome, read_outcome}
use mini_serverless_cloud_pl.Worker.Reclaim.{heartbeat-to_reclaim}

abbrev texts : Json String
texts = record {
  or_empty = λ s. s;
  stringify = λ s. s;
  parse = λ s. some s;
  stringify_outcome = λ o. status_text o;
  parse_outcome = λ s. none;
}

abbrev job : InvocationJob String
job = record { image_tag = "hello:1"; event = "{}"; timeout_ms = 3000; memory_mb = 128 }

abbrev container : Executor String
container image event timeout_ms memory_mb = ok (success event (pos 12))

abbrev idle : WorkerState String
idle = record { in_flight = 0; counted = []; observed = []; replies = []; acked = [] }

abbrev slow : WorkerHeartbeat
slow = record { worker_id = "worker-1"; capacity = 1; in_flight = 1; last_heartbeat_at = 2 }

abbrev fleet : Hash
fleet = ("worker-1", write slow) ∷ []

abbrev stale : List PendingEntry
stale = ("1-0", "worker-1") ∷ ("2-0", "worker-9") ∷ []

heartbeat-to_reclaim_example : ◌≢◌ {A = String} "worker-9" "worker-1"
unfolding heartbeat list_workers statuses write first second third count_unary unary one_more
heartbeat-to_reclaim_example =
    heartbeat-to_reclaim memory codec memory-IsRedis slow 5 [] fleet (status_at 5 slow ∷ [])
      codec-IsCodec refl (omega arith) refl "worker-2" stale ("2-0", "worker-9") (Memᴰ.head refl)

-- A worker that is given one job, and its start and its shutdown.
abbrev round : Round
round = record {
  pending = ok [];
  listed = ok [];
  xclaim = λ message_id. ok [];
  response = ok (some (("1-0", job_fields texts "c1" job) ∷ []));
  published = ok tt;
  xack = ok tt;
}

-- JSON that keeps outcomes, and the reply to the job, before another call's timer.
abbrev outcomes : Json String
outcomes = record texts { stringify_outcome = write_outcome; parse_outcome = read_outcome }

abbrev reply : String
reply = write_outcome (success "{}" (pos 12))

abbrev replied : WorkerState String
replied = record {
  in_flight = 0;
  counted = "success" ∷ [];
  observed = pos 12 ∷ [];
  replies = ("invocation-result:c1", reply) ∷ [];
  acked = "1-0" ∷ [];
}

abbrev session : Session String
session = record { dispatcher = no_waiters; subscribed = []; added = [] }

abbrev others : List Event
others = expires "invocation-result:c2" ∷ []
