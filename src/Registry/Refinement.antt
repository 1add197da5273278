-- ===== src/Registry/Refinement.antt =====
-- What the registry promises: a finite map from worker ids to heartbeats, of which a heartbeat sets one
-- value and a deregistration clears one. A call that Redis fails leaves the registry as it was.
use mathlib.Core.Path.{fun_ext}
use mini_serverless_cloud_pl.Base.{
  if◌then◌else◌, Bool-cases, ne_of_str_eq, str_eq_of_ne, All, Result, ok, err, String, ◌≡◌, refl,
  sym, ap, ◌∙◌, ◌≢◌, ◌↔◌, inl, inr, Option, none, some, List, [], ◌∷◌, ◌++◌, str_eq, eq_iff,
  eq_refl,
}
use mini_serverless_cloud_pl.Redis.{Hash, put, drop_field, Answers, IsCodec, Redis, IsRedis, Codec}
use mini_serverless_cloud_pl.Registry.{heartbeat, deregister, WorkerHeartbeat}
use mini_serverless_cloud_pl.Registry.Liveness.{Listed, IsRegistry, put-IsRegistry, drop-IsRegistry}

-- The abstract registry.
abbrev pub Fleet : Type 0
Fleet = String → Option WorkerHeartbeat

pub data Call : Type 0 where
  beats : WorkerHeartbeat → Call
  leaves : String → Call

abbrev pub set_worker : String → Option WorkerHeartbeat → Fleet → Fleet
set_worker worker_id value fleet id = if str_eq id worker_id then value else fleet id

abbrev pub apply : Call → Fleet → Fleet
apply (beats info) = set_worker info.worker_id (some info)
apply (leaves worker_id) = set_worker worker_id none

abbrev pub replay : List Call → Fleet → Fleet
replay [] fleet = fleet
replay (c ∷ cs) fleet = replay cs (apply c fleet)

module _ (R : Redis) (C : Codec WorkerHeartbeat) where
  answer : Call → Hash → Result Hash
  answer (beats info) h = heartbeat R C info h
  answer (leaves worker_id) h = deregister R C worker_id h

  -- The registry after a call, and the call itself when Redis carried it out.
  kept : Hash → Result Hash → Hash
  kept h (ok h') = h'
  kept h (err x) = h

  done_of : Call → Result Hash → List Call
  done_of c (ok h') = c ∷ []
  done_of c (err x) = []

  pub run : List Call → Hash → Hash
  unfolding answer kept
  run [] h = h
  run (c ∷ cs) h = run cs (kept h (answer c h))

  pub carried_out : List Call → Hash → List Call
  unfolding answer kept done_of
  carried_out [] h = []
  carried_out (c ∷ cs) h = done_of c (answer c h) ++ carried_out cs (kept h (answer c h))

  -- The heartbeat that the hash holds under an id.
  pub view : Hash → Fleet
  view [] id = none
  view ((worker_id, json) ∷ h) id = if str_eq id worker_id then C.parse json else view h id

  view-put_self :
      (worker_id json : String) (h : Hash) → view (put worker_id json h) worker_id ≡ C.parse json
  unfolding view
  view-put_self worker_id json [] = rw (eq_refl worker_id) refl
  view-put_self worker_id json ((k, j) ∷ h) = elim (Bool-cases (str_eq k worker_id)) [
    | inl hit ↦ rw hit (rw (eq_refl worker_id) refl)
    | inr miss ↦
        rw miss
          (rw (str_eq_of_ne (λ e. ne_of_str_eq miss (sym e))) (view-put_self worker_id json h))
  ]

  view-put_other :
      (worker_id json id : String) (h : Hash)
      → id ≢ worker_id
      → view (put worker_id json h) id ≡ view h id
  unfolding view
  view-put_other worker_id json id [] n = rw (str_eq_of_ne n) refl
  view-put_other worker_id json id ((k, j) ∷ h) n = elim (Bool-cases (str_eq k worker_id)) [
    | inl hit ↦
        let same = (eq_iff k worker_id).0 hit in
        rw hit (rw (str_eq_of_ne n) (sym (skip k j h (λ e. n (e ∙ same)))))
    | inr miss ↦
        rw miss
          (ap (λ v. if str_eq id k then C.parse j else v) (view-put_other worker_id json id h n))
  ]
    where
      skip : (k j : String) (h : Hash) → id ≢ k → view ((k, j) ∷ h) id ≡ view h id
      skip k j h m = rw (str_eq_of_ne m) refl

  view-absent : (id : String) (h : Hash) → All (λ e. e.0 ≢ id) h → view h id ≡ none
  unfolding view
  view-absent id [] a = refl
  view-absent id ((k, j) ∷ h) (n, a) = rw (str_eq_of_ne (λ e. n (sym e))) (view-absent id h a)

  view-drop :
      (worker_id id : String) (h : Hash)
      → IsRegistry C h
      → view (drop_field worker_id h) id ≡ set_worker worker_id none (view h) id
  unfolding view
  view-drop worker_id id [] v = elim (Bool-cases (str_eq id worker_id)) [
    | inl hit ↦ rw hit refl
    | inr miss ↦ rw miss refl
  ]
  view-drop worker_id id ((k, j) ∷ h) (own, a, v) = elim (Bool-cases (str_eq k worker_id)) [
    | inl hit ↦ rw hit (gone ((eq_iff k worker_id).0 hit))
    | inr miss ↦ rw miss (
        ap (λ x. if str_eq id k then C.parse j else x) (view-drop worker_id id h v)
        ∙ swapped (ne_of_str_eq miss))
  ]
    where
      gone : k ≡ worker_id → view h id ≡ set_worker worker_id none (view ((k, j) ∷ h)) id
      gone same = elim (Bool-cases (str_eq id worker_id)) [
        | inl own_id ↦
            rw own_id (view-absent id h (rw (same ∙ sym ((eq_iff id worker_id).0 own_id)) at a))
        | inr other ↦ rw other (rw (str_eq_of_ne (λ e. ne_of_str_eq other (e ∙ same))) refl)
      ]

      swapped :
          k ≢ worker_id
          → (if str_eq id k then C.parse j else set_worker worker_id none (view h) id)
            ≡ set_worker worker_id none (view ((k, j) ∷ h)) id
      swapped n = elim (Bool-cases (str_eq id k)) [
        | inl here ↦ rw here (rw (str_eq_of_ne (λ e. n (sym ((eq_iff id k).0 here) ∙ e))) refl)
        | inr there ↦ rw there refl
      ]

  module _ (real : IsRedis R) (law : IsCodec C) where
    view-put :
        (info : WorkerHeartbeat) (id : String) (h : Hash)
        → view (put info.worker_id (C.stringify info) h) id
          ≡ set_worker info.worker_id (some info) (view h) id
    view-put info id h = elim (Bool-cases (str_eq id info.worker_id)) [
      | inl hit ↦ rw hit (
          rw ((eq_iff id info.worker_id).0 hit) (view-put_self info.worker_id (C.stringify info) h)
          ∙ law info)
      | inr miss ↦
          rw miss (view-put_other info.worker_id (C.stringify info) id h (ne_of_str_eq miss))
    ]

    -- One call.
    answer-view :
        (c : Call) (h : Hash)
        → IsRegistry C h
        → IsRegistry C (kept h (answer c h))
          × ((id : String)
              → view (kept h (answer c h)) id ≡ replay (done_of c (answer c h)) (view h) id)
    unfolding answer kept done_of heartbeat deregister
    answer-view (beats info) h v =
        go (R.hset _ _ h) (real.hsets info.worker_id (C.stringify info) h)
      where
        go :
            (r : Result Hash)
            → Answers (put info.worker_id (C.stringify info) h) r
            → IsRegistry C (kept h r)
              × ((id : String) → view (kept h r) id ≡ replay (done_of (beats info) r) (view h) id)
        go (ok h') e = rw e (put-IsRegistry C law info h v, λ id. view-put info id h)
        go (err x) e = (v, λ id. refl)
    answer-view (leaves worker_id) h v = go (R.hdel _ h) (real.hdels worker_id h)
      where
        go :
            (r : Result Hash)
            → Answers (drop_field worker_id h) r
            → IsRegistry C (kept h r)
              × ((id : String)
                  → view (kept h r) id ≡ replay (done_of (leaves worker_id) r) (view h) id)
        go (ok h') e = rw e (drop-IsRegistry C worker_id h v, λ id. view-drop worker_id id h v)
        go (err x) e = (v, λ id. refl)

    replay-append :
        (cs ds : List Call) (fleet : Fleet) → replay (cs ++ ds) fleet ≡ replay ds (replay cs fleet)
    replay-append [] ds fleet = refl
    replay-append (c ∷ cs) ds fleet = replay-append cs ds (apply c fleet)

    run-view :
        (cs : List Call) (h : Hash)
        → IsRegistry C h
        → IsRegistry C (run cs h) × (view (run cs h) ≡ replay (carried_out cs h) (view h))
    unfolding run carried_out
    run-view [] h v = (v, refl)
    run-view (c ∷ cs) h v =
        let (v', step) = answer-view c h v in
        let (v'', later) = run-view cs (kept h (answer c h)) v' in
        (
          v'',
          later
              ∙ ap (replay (carried_out cs (kept h (answer c h)))) (fun_ext step)
              ∙ sym (
                  replay-append (done_of c (answer c h)) (carried_out cs (kept h (answer c h)))
                    (view h)),
        )

    Listed-view :
        (info : WorkerHeartbeat) (h : Hash)
        → IsRegistry C h
        → Listed C info h ↔ (view h info.worker_id ≡ some info)
    unfolding view
    Listed-view info [] v = ((λ l. elim l [ ]), (λ e. absurd (cc)))
    Listed-view info ((k, j) ∷ h) ((x, p, own), a, v) =
        elim (Bool-cases (str_eq info.worker_id k)) [
          | inl hit ↦ rw hit (
            elim [
              | inl q ↦ q
              | inr l ↦
                  let there = (Listed-view info h v).0 l in
                  let none_there =
                    view-absent info.worker_id h
                      (rw (sym ((eq_iff info.worker_id k).0 hit)) at a) in
                  absurd (cc)
            ],
            inl,
          )
          | inr miss ↦ rw miss (
            elim [
              | inl q ↦
                  let same : x ≡ info = cc in
                  absurd (ne_of_str_eq miss (ap (λ i. i.worker_id) (sym same) ∙ own))
              | inr l ↦ (Listed-view info h v).0 l
            ],
            (λ e. inr ((Listed-view info h v).1 e)),
          )
        ]

    -- The registry is the finite map that it promises to be: after any sequence of heartbeats and
    -- deregistrations of any workers it holds a heartbeat exactly when the map does, on which the calls
    -- that Redis carried out have been replayed in their order; each worker has one entry at most.
    pub run-Listed_iff :
        (cs : List Call) (h : Hash) (info : WorkerHeartbeat)
        → IsRegistry C h
        → IsRegistry C (run cs h)
          × (Listed C info (run cs h)
              ↔ (replay (carried_out cs h) (view h) info.worker_id ≡ some info))
    run-Listed_iff cs h info v =
        let (v', e) = run-view cs h v in (v', rw (← e) (Listed-view info (run cs h) v'))
