-- ===== src/Worker/Life/Tests.antt =====
-- A worker's start and shutdown at a concrete fleet.
use mini_serverless_cloud_pl.Base.{ok, String, ◌≡◌, refl, true, false, none, some, [], ◌∷◌, arith}
use mini_serverless_cloud_pl.Samples.Heartbeats.{write, third, second, first, codec, codec-IsCodec}
use mini_serverless_cloud_pl.Samples.{unary, one_more, count_unary}
use mini_serverless_cloud_pl.Redis.Memory.{memory, memory-IsRedis}
use mini_serverless_cloud_pl.Stream.{new_group}
use mini_serverless_cloud_pl.Stream.Memory.{memory as streams}
use mini_serverless_cloud_pl.Registry.{
  heartbeat, statuses, list_workers, has_spare_capacity, WorkerHeartbeat,
}
use mini_serverless_cloud_pl.Registry.Liveness.{IsRegistry}
use mini_serverless_cloud_pl.Worker.{WorkerState}
use mini_serverless_cloud_pl.Worker.EcrLogin.{ensure_ecr_login}
use mini_serverless_cloud_pl.Worker.Life.{
  heartbeat_of, send_heartbeat, on_module_init, WorkerProcess, log_in, ensure_group,
}
use mini_serverless_cloud_pl.Worker.Life.Fleet.{on_module_init-has_spare_capacity}
use mini_serverless_cloud_pl.BuildConsumer.Loop.{created_group, ensure_consumer_group}

abbrev idle : WorkerState String
idle = record { in_flight = 0; counted = []; observed = []; replies = []; acked = [] }

abbrev other : WorkerHeartbeat
other = record { worker_id = "worker-2"; capacity = 1; in_flight = 1; last_heartbeat_at = 2 }

abbrev down : WorkerProcess String
down = record {
  jobs = idle;
  group = none;
  registry = [];
  spawned = [];
  timer = false;
  running = false;
}

abbrev up : WorkerProcess String
up = record down {
  group = some new_group;
  registry = ("worker-1", write (heartbeat_of "worker-1" 2 idle)) ∷ [];
  timer = true;
  running = true;
}

on_module_init-has_spare_capacity_example : (up.timer ≡ true) × (up.running ≡ true) × (true ≡ true)
unfolding on_module_init log_in ensure_group send_heartbeat ensure_consumer_group created_group
    ensure_ecr_login heartbeat has_spare_capacity list_workers statuses write first second third
    count_unary unary one_more
on_module_init-has_spare_capacity_example =
    on_module_init-has_spare_capacity memory codec memory-IsRedis "worker-1" streams (λ s. s)
      (λ docker. (0, "")) down up none (ok none) 2 5 true codec-IsCodec refl refl (omega arith) refl

abbrev gone : WorkerProcess String
gone = record up { registry = []; timer = false; running = false }

up-IsRegistry : IsRegistry codec up.registry
up-IsRegistry = ((heartbeat_of "worker-1" 2 idle, codec-IsCodec _, refl), tt, tt)
