-- ===== src/Worker/Reclaim.antt =====
-- A worker that is alive by its lease keeps its messages.
use mathlib.Core.List.{Memᴰ}
use mini_serverless_cloud_pl.Base.{
  ne_of_str_eq, str_eq_of_ne, keep_sound, keep_complete, ok, ℕ, ◌+◌, ◌≤◌, String, ◌≡◌, refl, ◌≢◌,
  ◌↔◌, true, false, ◌&&◌, not, List, arith, str_eq, eq_refl,
}
use mini_serverless_cloud_pl.Redis.{Hash, IsCodec, Redis, IsRedis, Codec}
use mini_serverless_cloud_pl.Registry.{
  heartbeat, stale_after_ms, status_at, list_workers, WorkerHeartbeat, WorkerStatus,
}
use mini_serverless_cloud_pl.Registry.Liveness.{Listed, put-Listed}
use mini_serverless_cloud_pl.Registry.Capacity.{eq_of_Answers, statuses-any, list_workers-statuses}
use mini_serverless_cloud_pl.Worker.{PendingEntry, is_alive, to_reclaim}

-- A worker takes over exactly the stale messages that belong neither to itself nor to a worker that
-- the registry gives as healthy.
pub to_reclaim_iff :
    (worker_id : String) (workers : List WorkerStatus) (entries : List PendingEntry)
    (e : PendingEntry)
    → Memᴰ e (to_reclaim worker_id workers entries)
      ↔ (Memᴰ e entries × (e.1 ≢ worker_id) × (is_alive workers e.1 ≡ false))
to_reclaim_iff worker_id workers entries e = (
  λ m.
      let (passed, there) =
        keep_sound (λ k. not (str_eq k.1 worker_id) && not (is_alive workers k.1)) entries m in
      (there, ne_of_str_eq (ground arith), ground arith),
  λ (there, foreign, dead).
      keep_complete (λ k. not (str_eq k.1 worker_id) && not (is_alive workers k.1)) there
        (rw (str_eq_of_ne foreign, dead) refl),
)

module _ (R : Redis) (C : Codec WorkerHeartbeat) (real : IsRedis R) where
  -- After a heartbeat of a worker no other worker takes over its messages, however long they have
  -- been pending, as long as the lease of the heartbeat runs.
  pub heartbeat-to_reclaim :
      (info : WorkerHeartbeat) (now : ℕ) (h h' : Hash) (workers : List WorkerStatus)
      → IsCodec C
      → heartbeat R C info h ≡ ok h'
      → now ≤ info.last_heartbeat_at + stale_after_ms
      → list_workers R C now h' ≡ ok workers
      → (worker_id : String) (entries : List PendingEntry) (e : PendingEntry)
      → Memᴰ e (to_reclaim worker_id workers entries)
      → e.1 ≢ info.worker_id
  unfolding heartbeat
  heartbeat-to_reclaim info now h h' workers law beat lease listed worker_id entries e m same =
      let stored = eq_of_Answers (R.hset _ _ h) (real.hsets _ _ h) beat in
      let there : Listed C info h' = rw stored (put-Listed C law info h) in
      let (_, _, dead) = (to_reclaim_iff worker_id workers entries e).0 m in
      let alive : is_alive workers info.worker_id ≡ true =
        statuses-any R C now (λ w. w.healthy && str_eq w.worker_id info.worker_id) info h' workers
          (list_workers-statuses R C real now h' listed) there
          (healthy_self (eq_refl info.worker_id) lease) in
      cc
    where
      healthy_self :
          str_eq info.worker_id info.worker_id ≡ true
          → now ≤ info.last_heartbeat_at + stale_after_ms
          → ((status_at now info).healthy && str_eq (status_at now info).worker_id info.worker_id)
            ≡ true
      healthy_self s l = ground arith
