-- ===== src/BuildRelay/Tick/Drains.antt =====
-- Where the database and Redis answer, the ticks of a relay publish every build that waits.
use mathlib.Core.List.{Memᴰ}
use mini_serverless_cloud_pl.Base.{
  Bool-cases, length, All, any, keep, any-rewritten, keep_complete, mem-append, resume, return,
  handle, ok, ℕ, ◌*◌, ◌≤◌, ◌≡◌, refl, sym, ◌∙◌, inl, inr, true, List, [], ◌∷◌, ◌++◌, map,
  append_assoc, append-nil, arith,
}
use mini_serverless_cloud_pl.Schema.{Build}
use mini_serverless_cloud_pl.Build.{has_id, committed}
use mini_serverless_cloud_pl.BuildRelay.{Hold, published, scan_limit, Outbox}
use mini_serverless_cloud_pl.BuildRelay.Tick.{
  is_candidate, IsScan, marked, claim, sent, publish_each, relay_once, tick, ticks, Answers,
}
use mini_serverless_cloud_pl.BuildRelay.Tick.Marking.{
  is_found, marked-fewer, mem-marked, marked-none, found-ids, page-full,
}

-- The database and Redis answer without an error.
pub record IsAnswering (answers : Answers) : Type 0 where
  pub found : List Hold → List Build → List Build
  pub scans :
      (locked : List Hold) (rows : List Build) → answers.scan locked rows ≡ ok (found locked rows)
  pub pages : IsScan answers.scan
  pub commits : answers.committed ≡ ok tt
  pub sends : (id : ℕ) → answers.xadd id ≡ ok tt

abbrev pub AllAnswering : List Answers → Type 0
AllAnswering = All IsAnswering

length-mem : {A : Type 0} {a : A} {xs : List A} → Memᴰ a xs → 1 ≤ length xs
length-mem (Memᴰ.head e) = omega arith
length-mem (Memᴰ.tail m) = omega arith

mem-append_right : {A : Type 0} {a : A} (xs : List A) {ys : List A} → Memᴰ a ys → Memᴰ a (xs ++ ys)
mem-append_right [] m = m
mem-append_right (x ∷ xs) m = Memᴰ.tail (mem-append_right xs m)

module _ (relay : ℕ) where
  publish_each-stream :
      (answers : Answers) (others : List Hold) (ids : List ℕ) (s : Outbox)
      → ((id : ℕ) → answers.xadd id ≡ ok tt)
      → let t = publish_each relay answers others ids s in
        (t.stream ≡ s.stream ++ ids) × (t.rows ≡ s.rows) × (t.locked ≡ s.locked)
  unfolding publish_each sent
  publish_each-stream answers others [] s sends = (sym (append-nil s.stream), refl, refl)
  publish_each-stream answers others (id ∷ ids) s sends =
      let next : Outbox = sent relay answers (ok tt) id (others ++ map (λ k. (relay, k)) ids) s in
      let (published_too, same_rows, same_locks) =
        publish_each-stream answers others ids next sends in
      rw (publish_each, sends id)
        (published_too ∙ append_assoc s.stream (id ∷ []) ids, same_rows, same_locks)

  pub tick-Answered :
      (answers : Answers) (s : Outbox) (a : IsAnswering answers)
      → let found = a.found s.locked s.rows in
        ((tick relay answers s).stream ≡ s.stream ++ map (λ b. b.id) found)
        × ((tick relay answers s).rows ≡ marked answers.now found s.rows)
        × ((tick relay answers s).locked ≡ s.locked)
  unfolding tick relay_once claim committed
  tick-Answered answers s a = rw (tick, a.scans s.locked s.rows) (go (a.found s.locked s.rows))
    where
      Is : List Build → Outbox → Type 0
      Is found t =
          (t.stream ≡ s.stream ++ map (λ b. b.id) found)
          × (t.rows ≡ marked answers.now found s.rows)
          × (t.locked ≡ s.locked)

      go :
          (found : List Build)
          → Is found
              (handle
                (λ _. return tt)
                (resume
                  (λ ids t. (ok tt, publish_each relay answers s.claimed ids t))
                  (claim relay answers (ok found) s))).1
      go [] = (sym (append-nil s.stream), marked-none answers.now s.rows, refl)
      go (b ∷ found) =
          rw a.commits
            (publish_each-stream answers s.claimed (map (λ k. k.id) (b ∷ found)) _ a.sends)

  -- A tick keeps every row, under its id.
  pub ticks-rows :
      (later : List Answers) (s : Outbox) (id : ℕ)
      → AllAnswering later
      → any (has_id id) s.rows ≡ true
      → any (has_id id) (ticks relay later s).rows ≡ true
  unfolding ticks
  ticks-rows [] s id answering there = there
  ticks-rows (answers ∷ later) s id (a, rest) there =
      let (stream, rows, locks) = tick-Answered answers s a in
      ticks-rows later (tick relay answers s) id rest (
        rw rows (
          any-rewritten (has_id id) (is_found (a.found s.locked s.rows)) (published answers.now)
            s.rows (λ x. refl)
          ∙ there))

  -- What is in the stream stays there.
  ticks-stays :
      (later : List Answers) (s : Outbox) (id : ℕ)
      → AllAnswering later
      → Memᴰ id s.stream
      → Memᴰ id (ticks relay later s).stream
  unfolding ticks
  ticks-stays [] s id as_documented there = there
  ticks-stays (answers ∷ later) s id (a, rest) there =
      let (stream, rows, locks) = tick-Answered answers s a in
      ticks-stays later (tick relay answers s) id rest (rw stream (mem-append _ there))

  -- Where the database and Redis answer and no other relay runs, n ticks publish every build that
  -- is pending and not marked as published, if at most 20 n builds are.
  pub ticks-publishes :
      (later : List Answers) (s : Outbox) (b : Build)
      → AllAnswering later
      → Memᴰ b s.rows
      → is_candidate s.locked b ≡ true
      → length (keep (is_candidate s.locked) s.rows) ≤ scan_limit * length later
      → Memᴰ b.id (ticks relay later s).stream
  unfolding ticks
  ticks-publishes [] s b answering there waits few =
      absurd (
        let some_row = length-mem (keep_complete (is_candidate s.locked) there waits) in
        omega arith)
  ticks-publishes (answers ∷ later) s b (a, rest) there waits few =
      let (stream, rows, locks) = tick-Answered answers s a in
      let found = a.found s.locked s.rows in
      let page = a.pages s.locked s.rows found (a.scans s.locked s.rows) in
      elim (Bool-cases (is_found found b)) [
        | inl hit ↦
            ticks-stays later (tick relay answers s) b.id rest
              (rw stream (mem-append_right s.stream (found-ids found b hit)))
        | inr miss ↦
            let fewer = marked-fewer s.locked answers.now s.rows found page in
            let full = page-full s.locked s.rows found page there waits miss in
            ticks-publishes later (tick relay answers s) b rest
              (rw rows (mem-marked answers.now found miss there)) (rw locks waits)
              (rw (locks, rows) (omega arith))
      ]
