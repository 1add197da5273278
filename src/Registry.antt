-- ===== src/Registry.antt =====
-- worker-registry/worker-registry.service.ts: who is in the worker fleet, and who has room.
-- Times are `Date.now()` readings; `now` is the reading that the call makes.
pub mod Liveness
pub mod Capacity
pub mod Refinement
mod Tests
use mini_serverless_cloud_pl.Base.{
  ltb, leb, any, failure, Result, ok, err, ℕ, ◌+◌, ◌*◌, String, Bool, ◌&&◌, none, some, List, [],
  ◌∷◌,
}
use mini_serverless_cloud_pl.Redis.{Hash, Redis, Codec}

pub record WorkerHeartbeat : Type 0 where
  pub worker_id : String
  pub capacity : ℕ
  pub in_flight : ℕ
  pub last_heartbeat_at : ℕ

pub record WorkerStatus : Type 0 where
  pub heartbeat : WorkerHeartbeat
  pub open heartbeat use *
  pub healthy : Bool

abbrev pub stale_after_ms : ℕ
stale_after_ms = 10000

-- `now - lastHeartbeatAt <= STALE_AFTER_MS`, also where a heartbeat lies in the future.
abbrev pub is_healthy : ℕ → WorkerHeartbeat → Bool
is_healthy now info = leb now (info.last_heartbeat_at + stale_after_ms)

abbrev pub status_at : ℕ → WorkerHeartbeat → WorkerStatus
status_at now info = record { heartbeat = info; healthy = is_healthy now info }

abbrev pub has_room : WorkerStatus → Bool
has_room w = w.healthy && ltb w.in_flight w.capacity

-- `await` of a result, and what follows it.
abbrev pub and_then : {A B : Type 0} → (A → Result B) → Result A → Result B
and_then next (err x) = err x
and_then next (ok found) = next found

module _ (R : Redis) (C : Codec WorkerHeartbeat) where
  unfoldable pub heartbeat : WorkerHeartbeat → Hash → Result Hash
  heartbeat info registry = R.hset info.worker_id (C.stringify info) registry

  unfoldable pub deregister : String → Hash → Result Hash
  deregister worker_id registry = R.hdel worker_id registry

  -- The `map` over `Object.values(raw)`; a value that is no JSON makes `JSON.parse` throw.
  unfoldable pub statuses : ℕ → Hash → Result (List WorkerStatus)
  statuses now [] = ok []
  statuses now ((worker_id, json) ∷ raw) = elim (C.parse json) [
    | none ↦ err (failure "Unexpected token in JSON")
    | some info ↦ and_then (λ rest. ok (status_at now info ∷ rest)) (statuses now raw)
  ]

  unfoldable pub list_workers : ℕ → Hash → Result (List WorkerStatus)
  list_workers now registry = and_then (statuses now) (R.hgetall registry)

  unfoldable pub has_spare_capacity : ℕ → Hash → Result Bool
  has_spare_capacity now registry =
      and_then (λ workers. ok (any has_room workers)) (list_workers now registry)
