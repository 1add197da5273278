-- ===== src/Registry/Capacity.antt =====
-- The service's answers: heartbeats, deregistrations and the backpressure check.
use mini_serverless_cloud_pl.Base.{
  Bool-cases, Option-cases, any, Result, ok, err, ℕ, String, ◌≡◌, refl, ◌∙◌, ◌≢◌, ◌↔◌, ◌⊎◌, inl,
  inr, Bool, true, false, some, List, [], ◌∷◌, arith,
}
use mini_serverless_cloud_pl.Redis.{Hash, Answers, IsCodec, Redis, IsRedis, Codec}
use mini_serverless_cloud_pl.Registry.{
  heartbeat, heartbeat, status_at, has_room, and_then, deregister, statuses, list_workers,
  has_spare_capacity, WorkerHeartbeat, WorkerStatus,
}
use mini_serverless_cloud_pl.Registry.Liveness.{
  Listed, IsRegistry, IsFree, IsFree-of_has_room, has_room_of_IsFree, put-IsRegistry, put-Listed,
  put-Listed_cases, put-Listed_of_ne, drop-IsRegistry, drop-Listed, Listed-of_drop,
  drop-Listed_of_ne,
}

-- What follows a result gives a value only where the result is one.
after_ok :
    {A B : Type 0} {next : A → Result B} {b : B} (m : Result A)
    → and_then next m ≡ ok b
    → (a : A) × (m ≡ ok a) × (next a ≡ ok b)
after_ok (err x) e = cc
after_ok (ok found) e = (found, refl, e)

pub eq_of_Answers : {A : Type 0} {a b : A} (r : Result A) → Answers a r → r ≡ ok b → b ≡ a
eq_of_Answers (ok c) e h = cc
eq_of_Answers (err x) e h = cc

module _ (R : Redis) (C : Codec WorkerHeartbeat) (now : ℕ) where
  statuses-cons :
      (k j : String) (h : Hash) {ws : List WorkerStatus}
      → statuses R C now ((k, j) ∷ h) ≡ ok ws
      → (x : WorkerHeartbeat) × (rest : List WorkerStatus) × (C.parse j ≡ some x)
        × (statuses R C now h ≡ ok rest)
        × (ws ≡ status_at now x ∷ rest)
  unfolding statuses
  statuses-cons k j h e = elim (Option-cases (C.parse j)) [
    | inl p ↦ cc (rw (p, statuses) at e)
    | inr (x, p) ↦
        let (rest, e', same) = after_ok (statuses R C now h) (rw (p, statuses) at e) in
        (x, rest, p, e', cc)
  ]

  statuses-nil : {ws : List WorkerStatus} → statuses R C now [] ≡ ok ws → ws ≡ []
  unfolding statuses
  statuses-nil e = cc

  -- A test that the status of a heartbeat in the registry passes.
  pub statuses-any :
      (p : WorkerStatus → Bool) (info : WorkerHeartbeat) (h : Hash) (ws : List WorkerStatus)
      → statuses R C now h ≡ ok ws
      → Listed C info h
      → p (status_at now info) ≡ true
      → any p ws ≡ true
  statuses-any p info [] ws e l r = elim l [ ]
  statuses-any p info ((k, j) ∷ h) ws e l r =
      let (x, rest, q, e', same) = statuses-cons k j h e in
      rw same (elim l [
        | inl q' ↦ let here : info ≡ x = cc in rw (← here) (rw r)
        | inr l' ↦ let there = statuses-any p info h rest e' l' r in ground arith
      ])

  -- The heartbeat behind a status that passes a test.
  pub any-statuses :
      (p : WorkerStatus → Bool) (h : Hash) (ws : List WorkerStatus)
      → statuses R C now h ≡ ok ws
      → any p ws ≡ true
      → (info : WorkerHeartbeat) × Listed C info h × (p (status_at now info) ≡ true)
  any-statuses p [] ws e a = cc (rw (statuses-nil e) at a)
  any-statuses p ((k, j) ∷ h) ws e a =
      let (x, rest, q, e', same) = statuses-cons k j h e in
      elim (Bool-cases (p (status_at now x))) [
        | inl here ↦ (x, inl q, here)
        | inr miss ↦
            let (info, l, r) = any-statuses p h rest e' (rw miss at (rw same at a)) in
            (info, inr l, r)
      ]

module _ (R : Redis) (C : Codec WorkerHeartbeat) (real : IsRedis R) where
  pub list_workers-statuses :
      (now : ℕ) (h : Hash) {ws : List WorkerStatus}
      → list_workers R C now h ≡ ok ws
      → statuses R C now h ≡ ok ws
  unfolding list_workers
  list_workers-statuses now h e =
      let (raw, got, e') = after_ok (R.hgetall h) e in
      rw (← eq_of_Answers (R.hgetall h) (real.hgets h) got) e'

  -- The backpressure check answers true exactly when some worker in the registry has a lease that
  -- is not over and fewer jobs in flight than its capacity; when it answers false, no worker does.
  pub has_spare_capacity-IsFree :
      (now : ℕ) (h : Hash) (b : Bool)
      → has_spare_capacity R C now h ≡ ok b
      → ((b ≡ true) → (info : WorkerHeartbeat) × Listed C info h × IsFree C now info)
        × ((b ≡ false) → (info : WorkerHeartbeat) → Listed C info h → ¬ IsFree C now info)
  unfolding has_spare_capacity
  has_spare_capacity-IsFree now h b e =
      let (ws, listed, e') = after_ok (list_workers R C now h) e in
      let got = list_workers-statuses now h listed in
      let same : any has_room ws ≡ b = cc (e') in
      (
        (λ t.
            let (info, l, r) = any-statuses R C now has_room h ws got (same ∙ t) in
            (info, l, IsFree-of_has_room C now info r)),
        (λ f info l free.
            let r =
              statuses-any R C now has_room info h ws got l (has_room_of_IsFree C now info free) in
            cc),
      )

  -- After a heartbeat of a worker with a free slot the check answers true, as long as the lease runs.
  pub heartbeat-has_spare_capacity :
      (info : WorkerHeartbeat) (now : ℕ) (h h' : Hash) (b : Bool)
      → IsCodec C
      → heartbeat R C info h ≡ ok h'
      → IsFree C now info
      → has_spare_capacity R C now h' ≡ ok b
      → b ≡ true
  unfolding heartbeat
  heartbeat-has_spare_capacity info now h h' b law beat free e =
      let stored = eq_of_Answers (R.hset _ _ h) (real.hsets _ _ h) beat in
      let l : Listed C info h' = rw stored (put-Listed C law info h) in
      elim (Bool-cases b) [
        | inl t ↦ t
        | inr f ↦ absurd ((has_spare_capacity-IsFree now h' b e).1 f info l free)
      ]

  -- A heartbeat of a worker replaces what the registry held of that worker, and nothing else.
  pub heartbeat-Listed_iff :
      (info other : WorkerHeartbeat) (h h' : Hash)
      → IsCodec C
      → IsRegistry C h
      → heartbeat R C info h ≡ ok h'
      → IsRegistry C h'
        × (Listed C other h'
            ↔ ((other ≡ info) ⊎ (Listed C other h × (other.worker_id ≢ info.worker_id))))
  unfolding heartbeat
  heartbeat-Listed_iff info other h h' law v beat =
      let stored = eq_of_Answers (R.hset _ _ h) (real.hsets _ _ h) beat in
      rw stored (
        put-IsRegistry C law info h v,
        (
          put-Listed_cases C law info other h v,
          elim [
            | inl same ↦ rw same (put-Listed C law info h)
            | inr (l, n) ↦ put-Listed_of_ne C law info other h v l n
          ],
        ),
      )

  -- After a deregistration the registry holds what it held of all the other workers, and no more.
  pub deregister-Listed_iff :
      (worker_id : String) (info : WorkerHeartbeat) (h h' : Hash)
      → IsRegistry C h
      → deregister R C worker_id h ≡ ok h'
      → IsRegistry C h' × (Listed C info h' ↔ (Listed C info h × (info.worker_id ≢ worker_id)))
  unfolding deregister
  deregister-Listed_iff worker_id info h h' v left =
      let stored = eq_of_Answers (R.hdel _ h) (real.hdels _ h) left in
      rw stored (
        drop-IsRegistry C worker_id h v,
        (
          (λ l. (Listed-of_drop C info worker_id h l, drop-Listed C info worker_id h v l)),
          (λ m. drop-Listed_of_ne C info worker_id h v m.0 m.1),
        ),
      )
