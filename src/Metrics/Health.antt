-- ===== src/Metrics/Health.antt =====
-- The gauge of healthy workers, and the backpressure check, read the same registry.
use mini_serverless_cloud_pl.Base.{
  Bool-cases, length, any, keep, Result, ok, err, ℕ, ◌+◌, ◌≤◌, String, ◌≡◌, refl, sym, ap, ◌∙◌, ◌↔◌,
  inl, inr, Bool, false, List, [], ◌∷◌, arith,
}
use mini_serverless_cloud_pl.Redis.{Hash, Redis, IsRedis, Codec}
use mini_serverless_cloud_pl.Registry.{
  stale_after_ms, statuses, list_workers, has_spare_capacity, WorkerHeartbeat, WorkerStatus,
}
use mini_serverless_cloud_pl.Registry.Liveness.{Listed}
use mini_serverless_cloud_pl.Metrics.{
  get_consumer_group_lag, healthy_count, get_metrics, Reply, Gauges, scraped,
}
use mini_serverless_cloud_pl.Registry.Capacity.{
  statuses-any, any-statuses, list_workers-statuses, has_spare_capacity-IsFree,
}

count_of_any :
    {A : Type 0} (p : A → Bool) (xs : List A) → (any p xs ≡ false) ↔ (length (keep p xs) ≡ 0)
count_of_any p [] = ((λ _. refl), (λ _. refl))
count_of_any p (x ∷ xs) = elim (Bool-cases (p x)) [
  | inl hit ↦ rw hit ((λ e. cc), (λ e. absurd (omega arith)))
  | inr miss ↦ rw miss (count_of_any p xs)
]

module _ (R : Redis) (C : Codec WorkerHeartbeat) (real : IsRedis R)
    (metrics_text : Gauges → String) where
  gauge_lem :
      (now : ℕ) (h : Hash) (depth : Result ℕ) (l : Result (List WorkerStatus))
      (gauges after : Gauges) (body : String)
      → list_workers R C now h ≡ l
      → scraped metrics_text depth l gauges ≡ (ok body, after)
      → (ws : List WorkerStatus) × (statuses R C now h ≡ ok ws)
        × (after.healthy_workers ≡ healthy_count ws)
  unfolding scraped
  gauge_lem now h (err x) l gauges after body listed e = absurd (cc)
  gauge_lem now h (ok depth) (err x) gauges after body listed e = absurd (cc)
  gauge_lem now h (ok depth) (ok ws) gauges after body listed e =
      (ws, list_workers-statuses R C real now h listed, sym (ap (λ r. r.1.healthy_workers) e))

  -- A scrape sets the gauge of healthy workers to 0 exactly when the lease of every worker in the
  -- registry is over; and then the backpressure check, if it answers, refuses every invocation.
  pub get_metrics-healthy_workers :
      (now : ℕ) (h : Hash) (groups : Result (List (List Reply))) (gauges after : Gauges)
      (body : String)
      → get_metrics metrics_text groups (list_workers R C now h) gauges ≡ (ok body, after)
      → ((after.healthy_workers ≡ 0) ↔ (
          (info : WorkerHeartbeat)
          → Listed C info h
          → ¬ (now ≤ info.last_heartbeat_at + stale_after_ms)))
        × (after.healthy_workers ≡ 0 → (b : Bool) → has_spare_capacity R C now h ≡ ok b → b ≡ false)
  unfolding get_metrics
  get_metrics-healthy_workers now h groups gauges after body e =
      let (ws, got, gauge) =
        gauge_lem now h (get_consumer_group_lag groups) (list_workers R C now h) gauges after body
          refl e in
      let (to_count, of_count) = count_of_any (λ w. w.healthy) ws in
      let over : after.healthy_workers ≡ 0
          → (info : WorkerHeartbeat) → Listed C info h
          → ¬ (now ≤ info.last_heartbeat_at + stale_after_ms) =
        λ z info l lease.
          let hit = statuses-any R C now (λ w. w.healthy) info h ws got l (ground arith) in
          let miss = of_count (sym gauge ∙ z) in cc in
      (
        (
          over,
          (λ none_alive. gauge ∙ elim (Bool-cases (any (λ w. w.healthy) ws)) [
            | inl hit ↦
                let (info, l, alive) = any-statuses R C now (λ w. w.healthy) h ws got hit in
                absurd (none_alive info l (ground arith))
            | inr miss ↦ to_count miss
          ]),
        ),
        (λ z b answered. elim (Bool-cases b) [
          | inl t ↦
              let (info, l, (lease, room)) =
                (has_spare_capacity-IsFree R C real now h b answered).0 t in
              absurd (over z info l lease)
          | inr f ↦ f
        ]),
      )
