-- ===== src/BuildRelay/Tick/Runs.antt =====
-- A tick of a relay, whatever is answered to it, is a run of the relays' steps.
use mini_serverless_cloud_pl.Base.{
  ◌==◌, if◌then◌else◌, Bool-cases, length, All, any, keep, rewrite_where, length-append,
  keep-append, resume, return, handle, Result, ok, err, ℕ, ◌+◌, ◌≤◌, ◌≡◌, refl, ap, ◌∙◌, subst, inl,
  inr, true, ◌||◌, not, List, [], ◌∷◌, ◌++◌, map, append_assoc, append-nil, arith,
}
use mini_serverless_cloud_pl.Schema.{Build}
use mini_serverless_cloud_pl.BuildRelay.{
  Hold, claimable, published, held_by, mark, occurs, scan_limit, Outbox, Step, Reaches,
}
use mini_serverless_cloud_pl.BuildRelay.Tick.{
  IsScan, hold_of, marked, relay_once, tick, Answers, committed, claim, sent, publish_each,
}
use mini_serverless_cloud_pl.BuildRelay.Once.{occurs-append}
use mini_serverless_cloud_pl.BuildRelay.Tick.Found.{
  AreFree, IsUnique, found-AreFree, found-claimable,
}

trans-Reaches : {s t u : Outbox} → Reaches s t → Reaches t u → Reaches s u
trans-Reaches st Reaches.here = st
trans-Reaches st (Reaches.then_step tu step) = Reaches.then_step (trans-Reaches st tu) step

module _ (relay : ℕ) where
  lock-Reaches :
      (found : List Build) (s : Outbox)
      → All (λ b. any (claimable b.id) s.rows ≡ true) found
      → AreFree s.locked found
      → length (keep (held_by relay) s.locked) + length found ≤ scan_limit
      → Reaches s (record s { locked = s.locked ++ map (hold_of relay) found })
  lock-Reaches [] s can free few = rw (append-nil s.locked) Reaches.here
  lock-Reaches (b ∷ found) s (can, rest) free few =
      let self : (relay == relay) ≡ true = ground arith in
      rw (← append_assoc s.locked (hold_of relay b ∷ []) (map (hold_of relay) found)) (
        trans-Reaches
          (Reaches.then_step Reaches.here
            (Step.lock_row relay b.id can (unlocked b found s free) (omega arith)))
          (lock-Reaches found (record s { locked = s.locked ++ hold_of relay b ∷ [] }) rest
            (λ id h.
              rw (occurs-append (λ k. k.1) id s.locked (hold_of relay b ∷ []))
                (let all = free id (omega arith) in omega arith))
            (rw
              (
                keep-append (held_by relay) s.locked (hold_of relay b ∷ []),
                length-append (keep (held_by relay) s.locked)
                    (keep (held_by relay) (hold_of relay b ∷ [])),
              )
              (rw self (omega arith)))))
    where
      unlocked :
          (b : Build) (found : List Build) (s : Outbox)
          → AreFree s.locked (b ∷ found)
          → occurs (λ h. h.1) b.id s.locked ≡ 0
      unlocked b found s free =
          let self : (b.id == b.id) ≡ true = ground arith in
          let all = free b.id (rw self (omega arith)) in below _ _ (rw self at all)
        where
          below : (n m : ℕ) → n + (1 + m) ≤ 1 → n ≡ 0
          below n m h = omega arith

  -- The commit, under the locks of the scan, which it releases.
  keep-holds :
      (found : List Build)
      → keep (held_by relay) (map (hold_of relay) found) ≡ map (hold_of relay) found
  keep-holds [] = refl
  keep-holds (b ∷ found) =
      let self : (relay == relay) ≡ true = ground arith in
      rw self (ap (λ hs. hold_of relay b ∷ hs) (keep-holds found))

  drop-holds :
      (found : List Build) → keep (λ h. not (held_by relay h)) (map (hold_of relay) found) ≡ []
  drop-holds [] = refl
  drop-holds (b ∷ found) =
      let self : (relay == relay) ≡ true = ground arith in rw self (drop-holds found)

  keep_others :
      (hs : List Hold) → keep (held_by relay) hs ≡ [] → keep (λ h. not (held_by relay h)) hs ≡ hs
  keep_others [] e = refl
  keep_others (h ∷ hs) e = elim (Bool-cases (held_by relay h)) [
    | inl hit ↦ cc (rw hit at e)
    | inr miss ↦ rw miss (ap (λ ks. h ∷ ks) (keep_others hs (rw miss at e)))
  ]

  mark-marked :
      (now : ℕ) (found : List Build) (locked : List Hold) (rows : List Build)
      → keep (held_by relay) locked ≡ map (hold_of relay) found
      → mark relay now locked rows ≡ marked now found rows
  mark-marked now found locked rows e =
      ap (λ hs. rewrite_where (λ b. any (λ h. h.1 == b.id) hs) (published now) rows) e ∙ same rows
    where
      same_test :
          (b : Build) (ks : List Build)
          → any (λ h. h.1 == b.id) (map (hold_of relay) ks) ≡ any (λ k. k.id == b.id) ks
      same_test b [] = refl
      same_test b (k ∷ ks) = ap (λ r. (k.id == b.id) || r) (same_test b ks)

      same :
          (rs : List Build)
          → rewrite_where
              (λ b. any (λ h. h.1 == b.id) (map (hold_of relay) found))
              (published now)
              rs
            ≡ marked now found rs
      same [] = refl
      same (r ∷ rs) =
          rw (same_test r found) (
            ap (λ ks. (if any (λ k. k.id == r.id) found then published now r else r) ∷ ks)
              (same rs))

  commit-Reaches :
      (now : ℕ) (found : List Build) (s : Outbox)
      → keep (held_by relay) s.locked ≡ []
      → Reaches
          (record s { locked = s.locked ++ map (hold_of relay) found })
          (record s {
            rows = marked now found s.rows;
            claimed = s.claimed ++ map (hold_of relay) found;
          })
  commit-Reaches now found s idle =
      let locked : List Hold = s.locked ++ map (hold_of relay) found in
      let own : keep (held_by relay) locked ≡ map (hold_of relay) found =
        keep-append (held_by relay) s.locked (map (hold_of relay) found)
        ∙ ap (λ hs. hs ++ keep (held_by relay) (map (hold_of relay) found)) idle
        ∙ keep-holds found in
      let left : keep (λ h. not (held_by relay h)) locked ≡ s.locked =
        keep-append (λ h. not (held_by relay h)) s.locked (map (hold_of relay) found)
        ∙ ap (λ hs. hs ++ keep (λ h. not (held_by relay h)) (map (hold_of relay) found))
            (keep_others s.locked idle)
        ∙ ap (λ hs. s.locked ++ hs) (drop-holds found)
        ∙ append-nil s.locked in
      subst (λ t. Reaches (record s { locked = locked }) t)
        (λ i. record s {
          rows = mark-marked now found locked s.rows own i;
          locked = left i;
          claimed = s.claimed ++ own i;
        })
        (Reaches.then_step Reaches.here (Step.commit relay now))

  publish_each-Reaches :
      (answers : Answers) (others : List Hold) (ids : List ℕ) (s : Outbox)
      → s.claimed ≡ others ++ map (λ k. (relay, k)) ids
      → Reaches s (publish_each relay answers others ids s)
  unfolding publish_each sent
  publish_each-Reaches answers others [] s e = Reaches.here
  publish_each-Reaches answers others (id ∷ ids) s e =
      go (answers.xadd id) (λ t q. publish_each-Reaches answers others ids t q)
    where
      go :
          (r : Result (Unit {0}))
          → ((t : Outbox)
              → t.claimed ≡ others ++ map (λ k. (relay, k)) ids
              → Reaches t (publish_each relay answers others ids t))
          → Reaches s (
              publish_each relay answers others ids
                (sent relay answers r id (others ++ map (λ k. (relay, k)) ids) s))
      go (ok u) later =
          trans-Reaches
            (Reaches.then_step Reaches.here
              (Step.publish others (map (λ k. (relay, k)) ids) (relay, id) e))
            (later _ refl)
      go (err x) later =
          trans-Reaches
            (Reaches.then_step Reaches.here
              (Step.publish_failed others (map (λ k. (relay, k)) ids) (relay, id) e))
            (later _ refl)

  map-holds :
      (found : List Build)
      → map (hold_of relay) found ≡ map (λ k. (relay, k)) (map (λ b. b.id) found)
  map-holds [] = refl
  map-holds (b ∷ found) = ap (λ hs. hold_of relay b ∷ hs) (map-holds found)

  -- A tick of an idle relay, whatever the scan finds, however the transaction ends and whichever of
  -- the `XADD`s fail, is a sequence of the steps of the relays: so is what they keep kept by the code.
  pub tick-Reaches :
      (answers : Answers) (s : Outbox)
      → IsScan answers.scan
      → IsUnique s.rows
      → keep (held_by relay) s.locked ≡ []
      → Reaches s (tick relay answers s)
  unfolding tick relay_once claim committed
  tick-Reaches answers s pages unique idle = scanned (answers.scan s.locked s.rows) refl
    where
      after : Result (List ℕ) × Outbox → Outbox
      after r =
          (handle (λ _. return tt)
            (resume (λ ids t. (ok tt, publish_each relay answers s.claimed ids t)) r)).1

      ended :
          (found : List Build)
          → Reaches s (record s {
            rows = marked answers.now found s.rows;
            claimed = s.claimed ++ map (hold_of relay) found;
          })
          → (c : Result (Unit {0})) → Reaches s (after (committed relay answers c found s))
      ended found reached (err x) = Reaches.here
      ended found reached (ok u) = trans-Reaches reached (
          publish_each-Reaches answers s.claimed (map (λ b. b.id) found) _
            (ap (λ hs. s.claimed ++ hs) (map-holds found)))

      scanned :
          (r : Result (List Build))
          → answers.scan s.locked s.rows ≡ r
          → Reaches s (after (claim relay answers r s))
      scanned (err x) e = Reaches.here
      scanned (ok []) e = Reaches.here
      scanned (ok (b ∷ found)) e =
          let page = pages s.locked s.rows (b ∷ found) e in
          ended (b ∷ found)
            (trans-Reaches
              (lock-Reaches (b ∷ found) s
                (found-claimable s.locked s.rows (b ∷ found) page (b ∷ found) (λ c m. m))
                (found-AreFree s.locked s.rows (b ∷ found) page unique)
                (rw idle (let few = page.bounded in omega arith)))
              (commit-Reaches answers.now (b ∷ found) s idle))
            answers.committed
