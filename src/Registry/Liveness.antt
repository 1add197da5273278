-- ===== src/Registry/Liveness.antt =====
-- What the registry reports after heartbeats and deregistrations.
use mini_serverless_cloud_pl.Base.{
  ℕ, ◌+◌, ◌≤◌, ◌<◌, String, [], ◌∷◌, some, true, ◌≡◌, refl, ◌≢◌, ◌⊎◌, inl, inr, arith, All, str_eq,
  eq_iff, Bool-cases, sym, ap, ◌∙◌, ne_of_str_eq,
}
use mini_serverless_cloud_pl.Redis.{Hash, Codec, IsCodec, put, drop_field}
use mini_serverless_cloud_pl.Registry.{WorkerHeartbeat, stale_after_ms, status_at, has_room}

module _ (C : Codec WorkerHeartbeat) where
  -- The registry holds this heartbeat.
  abbrev pub Listed : WorkerHeartbeat → Hash → Type 0
  Listed info [] = ⊥
  Listed info ((worker_id, json) ∷ h) = (C.parse json ≡ some info) ⊎ Listed info h

  -- Each worker has one entry, a heartbeat of its own.
  abbrev pub IsRegistry : Hash → Type 0
  IsRegistry [] = Unit
  IsRegistry ((worker_id, json) ∷ h) =
      ((info : WorkerHeartbeat) × (C.parse json ≡ some info) × (info.worker_id ≡ worker_id))
      × All (λ e. e.0 ≢ worker_id) h
      × IsRegistry h

  -- The worker is alive at `now`, by its lease, and has a free slot.
  abbrev pub IsFree : ℕ → WorkerHeartbeat → Type 0
  IsFree now info =
      (now ≤ info.last_heartbeat_at + stale_after_ms) × (info.in_flight < info.capacity)

  pub IsFree-of_has_room :
      (now : ℕ) (info : WorkerHeartbeat) → has_room (status_at now info) ≡ true → IsFree now info
  IsFree-of_has_room now info h = ground arith

  pub has_room_of_IsFree :
      (now : ℕ) (info : WorkerHeartbeat) → IsFree now info → has_room (status_at now info) ≡ true
  has_room_of_IsFree now info h = ground arith

  put-Absent :
      (f g value : String) (h : Hash)
      → f ≢ g
      → All (λ e. e.0 ≢ g) h
      → All (λ e. e.0 ≢ g) (put f value h)
  put-Absent f g value [] n a = (n, tt)
  put-Absent f g value ((k, v) ∷ h) n (m, a) = elim (Bool-cases (str_eq k f)) [
    | inl hit ↦ rw hit (n, a)
    | inr miss ↦ rw miss (m, put-Absent f g value h n a)
  ]

  drop-Absent :
      (f g : String) (h : Hash) → All (λ e. e.0 ≢ g) h → All (λ e. e.0 ≢ g) (drop_field f h)
  drop-Absent f g [] a = tt
  drop-Absent f g ((k, v) ∷ h) (m, a) = elim (Bool-cases (str_eq k f)) [
    | inl hit ↦ rw hit a
    | inr miss ↦ rw miss (m, drop-Absent f g h a)
  ]

  own_id_eq :
      {k j : String} {info : WorkerHeartbeat}
      → ((x : WorkerHeartbeat) × (C.parse j ≡ some x) × (x.worker_id ≡ k))
      → C.parse j ≡ some info
      → k ≡ info.worker_id
  own_id_eq {info} (x, p, e) q =
      let same : x ≡ info = cc (p, q) in sym e ∙ ap (λ i. i.worker_id) same

  Listed-Absent :
      (info : WorkerHeartbeat) (f : String) (h : Hash)
      → IsRegistry h
      → All (λ e. e.0 ≢ f) h
      → Listed info h
      → info.worker_id ≢ f
  Listed-Absent info f [] v b m = elim m [ ]
  Listed-Absent info f ((k, j) ∷ h) (own, a, v) (n, b) (inl q) = λ e. n (own_id_eq own q ∙ e)
  Listed-Absent info f ((k, j) ∷ h) (own, a, v) (n, b) (inr m) = Listed-Absent info f h v b m

  module _ (law : IsCodec C) (info : WorkerHeartbeat) where
    pub put-IsRegistry :
        (h : Hash) → IsRegistry h → IsRegistry (put info.worker_id (C.stringify info) h)
    put-IsRegistry [] v = ((info, law info, refl), tt, tt)
    put-IsRegistry ((k, j) ∷ h) (own, a, v) = elim (Bool-cases (str_eq k info.worker_id)) [
      | inl hit ↦
          let e = (eq_iff k info.worker_id).0 hit in rw hit ((info, law info, refl), rw (← e) a, v)
      | inr miss ↦ rw miss (
        own,
        put-Absent info.worker_id k (C.stringify info) h (λ e. ne_of_str_eq miss (sym e)) a,
        put-IsRegistry h v,
      )
    ]

    pub put-Listed : (h : Hash) → Listed info (put info.worker_id (C.stringify info) h)
    put-Listed [] = inl (law info)
    put-Listed ((k, j) ∷ h) = elim (Bool-cases (str_eq k info.worker_id)) [
      | inl hit ↦ rw hit (inl (law info))
      | inr miss ↦ rw miss (inr (put-Listed h))
    ]

    -- An entry of the new hash is the new heartbeat, or an old one of another worker.
    pub put-Listed_cases :
        (other : WorkerHeartbeat) (h : Hash)
        → IsRegistry h
        → Listed other (put info.worker_id (C.stringify info) h)
        → (other ≡ info) ⊎ (Listed other h × (other.worker_id ≢ info.worker_id))
    put-Listed_cases other [] v (inl e) = inl (cc (law info))
    put-Listed_cases other [] v (inr m) = elim m [ ]
    put-Listed_cases other ((k, j) ∷ h) (own, a, v) m =
        elim (Bool-cases (str_eq k info.worker_id)) [
          | inl hit ↦ elim (rw hit at m) [
            | inl e ↦ inl (cc (law info))
            | inr l ↦ inr (
              inr l,
              Listed-Absent other info.worker_id h v (rw (← (eq_iff k info.worker_id).0 hit) a) l,
            )
          ]
          | inr miss ↦ elim (rw miss at m) [
            | inl e ↦ inr (inl e, λ q. ne_of_str_eq miss (own_id_eq own e ∙ q))
            | inr l ↦ elim (put-Listed_cases other h v l) [
              | inl same ↦ inl same
              | inr (l', n) ↦ inr (inr l', n)
            ]
          ]
        ]

    pub put-Listed_of_ne :
        (other : WorkerHeartbeat) (h : Hash)
        → IsRegistry h
        → Listed other h
        → other.worker_id ≢ info.worker_id
        → Listed other (put info.worker_id (C.stringify info) h)
    put-Listed_of_ne other [] v l n = elim l [ ]
    put-Listed_of_ne other ((k, j) ∷ h) (own, a, v) l n =
        elim (Bool-cases (str_eq k info.worker_id)) [
          | inl hit ↦ rw hit (elim l [
            | inl q ↦ absurd (n (sym (own_id_eq own q) ∙ (eq_iff k info.worker_id).0 hit))
            | inr l' ↦ inr l'
          ])
          | inr miss ↦
              rw miss (elim l [ inl q ↦ inl q | inr l' ↦ inr (put-Listed_of_ne other h v l' n) ])
        ]

  pub drop-IsRegistry : (f : String) (h : Hash) → IsRegistry h → IsRegistry (drop_field f h)
  drop-IsRegistry f [] v = tt
  drop-IsRegistry f ((k, j) ∷ h) (own, a, v) = elim (Bool-cases (str_eq k f)) [
    | inl hit ↦ rw hit v
    | inr miss ↦ rw miss (own, drop-Absent f k h a, drop-IsRegistry f h v)
  ]

  pub drop-Listed :
      (info : WorkerHeartbeat) (f : String) (h : Hash)
      → IsRegistry h
      → Listed info (drop_field f h)
      → info.worker_id ≢ f
  drop-Listed info f [] v m = elim m [ ]
  drop-Listed info f ((k, j) ∷ h) (own, a, v) m = elim (Bool-cases (str_eq k f)) [
    | inl hit ↦ Listed-Absent info f h v (rw (← (eq_iff k f).0 hit) a) (rw hit at m)
    | inr miss ↦ elim (rw miss at m) [
      | inl e ↦ λ q. ne_of_str_eq miss (own_id_eq own e ∙ q)
      | inr l ↦ drop-Listed info f h v l
    ]
  ]

  pub Listed-of_drop :
      (info : WorkerHeartbeat) (f : String) (h : Hash)
      → Listed info (drop_field f h)
      → Listed info h
  Listed-of_drop info f [] l = l
  Listed-of_drop info f ((k, j) ∷ h) l = elim (Bool-cases (str_eq k f)) [
    | inl hit ↦ inr (rw hit at l)
    | inr miss ↦ elim (rw miss at l) [ inl q ↦ inl q | inr l' ↦ inr (Listed-of_drop info f h l') ]
  ]

  pub drop-Listed_of_ne :
      (info : WorkerHeartbeat) (f : String) (h : Hash)
      → IsRegistry h
      → Listed info h
      → info.worker_id ≢ f
      → Listed info (drop_field f h)
  drop-Listed_of_ne info f [] v l n = l
  drop-Listed_of_ne info f ((k, j) ∷ h) (own, a, v) l n = elim (Bool-cases (str_eq k f)) [
    | inl hit ↦
        rw hit
          (elim l [ inl q ↦ absurd (n (sym (own_id_eq own q) ∙ (eq_iff k f).0 hit)) | inr l' ↦ l' ])
    | inr miss ↦
        rw miss (elim l [ inl q ↦ inl q | inr l' ↦ inr (drop-Listed_of_ne info f h v l' n) ])
  ]
