-- ===== src/Worker/Life.antt =====
-- worker/worker.service.ts: a worker from its start to its shutdown, with its heartbeats, its consumer
-- group and its loop. What Redis answers in a pass of the loop is given by a round.
pub mod Rest
pub mod Fleet
mod Tests
use mini_serverless_cloud_pl.Base.{
  Action, ◌>>=◌, ◌>>◌, return, try_catch, Result, ok, err, ℕ, String, Bool, true, false, Option,
  none, some, List, [], ◌∷◌,
}
use mini_serverless_cloud_pl.Redis.{Hash, Redis, Codec}
use mini_serverless_cloud_pl.Stream.{Group, Streams}
use mini_serverless_cloud_pl.Registry.{heartbeat, deregister, WorkerHeartbeat, WorkerStatus}
use mini_serverless_cloud_pl.BuildConsumer.Loop.{ensure_consumer_group}
use mini_serverless_cloud_pl.Dispatch.{Json}
use mini_serverless_cloud_pl.Worker.{
  Executor, PendingEntry, handle_all, reclaim_from_dead_workers, WorkerState,
}
use mini_serverless_cloud_pl.Worker.EcrLogin.{ensure_ecr_login, Spawned}

-- The consumer group, the registry, the logins to the registry of images, and what the process holds:
-- its jobs, the timer of the heartbeats, and whether the loop runs.
pub record WorkerProcess (V : Type 0) : Type 0 where
  pub jobs : WorkerState V
  pub group : Option Group
  pub registry : Hash
  pub spawned : List Spawned
  pub timer : Bool
  pub running : Bool

abbrev pub capacity : ℕ
capacity = 1

abbrev pub heartbeat_of : {V : Type 0} → String → ℕ → WorkerState V → WorkerHeartbeat
heartbeat_of worker_id now s = record {
  worker_id = worker_id;
  capacity = capacity;
  in_flight = s.in_flight;
  last_heartbeat_at = now;
}

-- What the heartbeat or the deregistration leaves in the registry.
abbrev pub registered : {V : Type 0} → Result Hash → Action (WorkerProcess V) (Unit {0})
registered (ok h) p = (ok tt, record p { registry = h })
registered (err x) p = (err x, p)

abbrev pub with_group :
    {V : Type 0}
    → WorkerProcess V
    → Result (Unit {0}) × Option Group
    → Result (Unit {0}) × WorkerProcess V
with_group p (r, o) = (r, record p { group = o })

abbrev pub with_spawned :
    {V : Type 0}
    → WorkerProcess V
    → Result (Unit {0}) × List Spawned
    → Result (Unit {0}) × WorkerProcess V
with_spawned p (r, s) = (r, record p { spawned = s })

module _ {V : Type 0} (R : Redis) (C : Codec WorkerHeartbeat) (worker_id : String) where
  pub send_heartbeat : ℕ → Action (WorkerProcess V) (Unit {0})
  unfolding heartbeat
  send_heartbeat now p = registered (heartbeat R C (heartbeat_of worker_id now p.jobs) p.registry) p

  pub leave : Action (WorkerProcess V) (Unit {0})
  leave p = registered (deregister R C worker_id p.registry) p

  -- `onModuleDestroy`, when the loop has ended.
  pub on_module_destroy : Action (WorkerProcess V) (Unit {0})
  unfolding leave
  on_module_destroy p = leave (record p { running = false; timer = false })

  module _ (S : Streams) (base64 : String → String) (close : Spawned → ℕ × String) where
    log_in : Option String → Result (Option String) → Action (WorkerProcess V) (Unit {0})
    log_in ecr_registry token p =
        with_spawned p (ensure_ecr_login base64 close ecr_registry token p.spawned)

    ensure_group : Action (WorkerProcess V) (Unit {0})
    ensure_group p = with_group p (ensure_consumer_group S p.group)

    -- `onModuleInit`: the loop starts last.
    pub on_module_init :
        Option String → Result (Option String) → ℕ → Action (WorkerProcess V) (Unit {0})
    unfolding log_in ensure_group
    on_module_init ecr_registry token now = do
      log_in ecr_registry token
      ensure_group
      send_heartbeat now
      λ p. (ok tt, record p { timer = true; running = true })

-- What Redis answers in one pass of the loop.
pub record Round : Type 0 where
  pub pending : Result (List PendingEntry)
  pub listed : Result (List WorkerStatus)
  pub xclaim : String → Result (List (String × List String))
  pub response : Result (Option (List (String × List String)))
  pub published : Result (Unit {0})
  pub xack : Result (Unit {0})

module _ {V : Type 0} (J : Json V) (execute : Executor V) (worker_id : String) where
  -- Without a response the block has timed out.
  handle_response : Round → Option (List (String × List String)) → Action (WorkerState V) (Unit {0})
  unfolding handle_all
  handle_response round none = return tt
  handle_response round (some messages) = handle_all J execute round.published round.xack messages

  pub read_and_process_once : Round → Action (WorkerState V) (Unit {0})
  unfolding handle_response
  read_and_process_once round = do
    response ← λ s. (round.response, s)
    handle_response round response

  -- One pass of the `while`; an error is logged.
  pub pass : Round → WorkerState V → WorkerState V
  unfolding read_and_process_once reclaim_from_dead_workers
  pass round s =
      (try_catch
        (do
          reclaim_from_dead_workers J execute worker_id round.pending round.listed round.published
              round.xack round.xclaim
          read_and_process_once round)
        (λ _. return tt) s).1

  -- The passes until `running` is cleared.
  pub passes : List Round → WorkerState V → WorkerState V
  unfolding pass
  passes [] s = s
  passes (round ∷ rounds) s = passes rounds (pass round s)
