-- ===== src/BuildRelay/Publication.antt =====
-- What every order of the relays' steps keeps, and what it means for the stream.
use mini_serverless_cloud_pl.Base.{
  ◌==◌, Bool-cases, any, keep, rewrite_where, any-append, ℕ, ◌+◌, ◌≤◌, ◌≡◌, refl, ◌∙◌, subst, inl,
  inr, Bool, true, false, List, [], ◌∷◌, arith,
}
use mini_serverless_cloud_pl.Schema.{Build}
use mini_serverless_cloud_pl.Build.{has_id}
use mini_serverless_cloud_pl.BuildRelay.{
  Hold, published, held_by, occurs, fresh, Outbox, Step, Reaches,
}
use mini_serverless_cloud_pl.BuildRelay.Once.{
  occurs-append, occurs-split, unpublished_at, any_unpublished_of_claimable, mark_keeps, IsSafe,
  lock-IsSafe, commit-IsSafe, unclaim, rewrite_keeps,
}

Step-IsSafe : {s t : Outbox} (id : ℕ) → Step s t → IsSafe id s → IsSafe id t
Step-IsSafe {s} id (Step.lock_row relay k can free few) safe =
    lock-IsSafe id relay k s can free safe
Step-IsSafe {s} id (Step.commit relay now) safe = commit-IsSafe id relay now s safe
Step-IsSafe {s} id (Step.abort relay) (once, done) =
    let split = occurs-split (λ h. h.1) (held_by relay) id s.locked in (omega arith, done)
Step-IsSafe {s} id (Step.publish before after h e) (once, done) =
    let less = unclaim id before after h s.claimed e in
    let more = occurs-append (λ k. k) id s.stream (h.1 ∷ []) in
    (omega arith, λ one. done (omega arith))
Step-IsSafe {s} id (Step.publish_failed before after h e) (once, done) =
    let less = unclaim id before after h s.claimed e in (omega arith, λ one. done (omega arith))
Step-IsSafe {s} id (Step.submitted b new locked claimed streamed) (once, done) = (
  once,
  λ one. elim (Bool-cases (has_id id b)) [
    | inl hit ↦
        let same : b.id ≡ id = ground arith in
        let no_claim : occurs (λ h. h.1) id s.claimed ≡ 0 =
          subst (λ j. occurs (λ h. h.1) j s.claimed ≡ 0) same claimed in
        let no_entry : occurs (λ k. k) id s.stream ≡ 0 =
          subst (λ j. occurs (λ k. k) j s.stream ≡ 0) same streamed in
        absurd (omega arith)
    | inr miss ↦ rw (any-append (unpublished_at id) s.rows (b ∷ []), done one) (rw miss refl)
  ],
)
Step-IsSafe {s} id (Step.rewritten k change ids times) (once, done) =
    (once, λ one. rewrite_keeps (has_id k) change id s.rows ids times ∙ done one)

Reaches-IsSafe : {s t : Outbox} (id : ℕ) → Reaches s t → IsSafe id s → IsSafe id t
Reaches-IsSafe id Reaches.here safe = safe
Reaches-IsSafe id (Reaches.then_step before step) safe =
    Step-IsSafe id step (Reaches-IsSafe id before safe)

-- However the scans, the commits and the publications of any number of relays come to stand among
-- each other, a build is in the stream at most once.
pub published_once :
    (rows : List Build) (s : Outbox)
    → Reaches (fresh rows) s
    → (id : ℕ) → occurs (λ k. k) id s.stream ≤ 1
published_once rows s run id =
    let (once, done) = Reaches-IsSafe id run (omega arith, λ one. absurd (omega arith)) in
    omega arith

-- A build that is marked as published, and is neither waiting to be published nor in the stream.
abbrev pub IsLost : ℕ → Outbox → Type 0
IsLost id s =
    (any (unpublished_at id) s.rows ≡ false)
    × (any (has_id id) s.rows ≡ true)
    × (occurs (λ h. h.1) id s.locked + occurs (λ h. h.1) id s.claimed + occurs (λ k. k) id s.stream
        ≡ 0)

has_keeps :
    (t : Build → Bool) (change : Build → Build) (id : ℕ) (rows : List Build)
    → ((b : Build) → (change b).id ≡ b.id)
    → any (has_id id) (rewrite_where t change rows) ≡ any (has_id id) rows
has_keeps t change id [] ids = refl
has_keeps t change id (b ∷ rows) ids = elim (Bool-cases (t b)) [
  | inl hit ↦ rw hit (rw (ids b) (rw (has_keeps t change id rows ids) refl))
  | inr miss ↦ rw miss (rw (has_keeps t change id rows ids) refl)
]

Step-IsLost : {s t : Outbox} (id : ℕ) → Step s t → IsLost id s → IsLost id t
Step-IsLost {s} id (Step.lock_row relay k can free few) (marked, there, none_held) = (
  marked,
  there,
  rw (occurs-append (λ h. h.1) id s.locked ((relay, k) ∷ [])) (elim (Bool-cases (k == id)) [
    | inl hit ↦
        let same : k ≡ id = ground arith in
        absurd (
          cc (
            subst (λ j. any (unpublished_at j) s.rows ≡ true) same
              (any_unpublished_of_claimable k s.rows can)))
    | inr miss ↦ rw miss (omega arith)
  ]),
)
Step-IsLost {s} id (Step.commit relay now) (marked, there, none_held) =
    let own : List Hold = keep (held_by relay) s.locked in
    let split = occurs-split (λ h. h.1) (held_by relay) id s.locked in
    let joined = occurs-append (λ h. h.1) id s.claimed own in
    (
      mark_keeps (λ b. any (λ k. k.1 == b.id) own) now id s.rows marked,
      has_keeps (λ b. any (λ k. k.1 == b.id) own) (published now) id s.rows (λ b. refl) ∙ there,
      omega arith,
    )
Step-IsLost {s} id (Step.abort relay) (marked, there, none_held) =
    let split = occurs-split (λ h. h.1) (held_by relay) id s.locked in (marked, there, omega arith)
Step-IsLost {s} id (Step.publish before after h e) (marked, there, none_held) =
    let less = unclaim id before after h s.claimed e in
    let more = occurs-append (λ k. k) id s.stream (h.1 ∷ []) in (marked, there, omega arith)
Step-IsLost {s} id (Step.publish_failed before after h e) (marked, there, none_held) =
    let less = unclaim id before after h s.claimed e in (marked, there, omega arith)
Step-IsLost {s} id (Step.submitted b new locked claimed streamed) (marked, there, none_held) =
    let other : has_id id b ≡ false = elim (Bool-cases (has_id id b)) [
      | inl hit ↦
          let same : b.id ≡ id = ground arith in
          absurd (cc (subst (λ j. any (has_id j) s.rows ≡ false) same new))
      | inr apart ↦ apart
    ] in
    (
      rw (any-append (unpublished_at id) s.rows (b ∷ []), marked) (rw other refl),
      rw (any-append (has_id id) s.rows (b ∷ []), there) refl,
      none_held,
    )
Step-IsLost {s} id (Step.rewritten k change ids times) (marked, there, none_held) = (
  rewrite_keeps (has_id k) change id s.rows ids times ∙ marked,
  has_keeps (has_id k) change id s.rows ids ∙ there,
  none_held,
)

-- A build that is marked as published while it is neither claimed nor in the stream, because its
-- `XADD` failed, stays out of the stream for ever: no relay tries again.
pub lost_forever :
    (s t : Outbox) (id : ℕ) → IsLost id s → Reaches s t → occurs (λ k. k) id t.stream ≡ 0
lost_forever s t id lost run = let (marked, there, none_held) = after run in omega arith
  where
    after : {u : Outbox} → Reaches s u → IsLost id u
    after Reaches.here = lost
    after (Reaches.then_step before step) = Step-IsLost id step (after before)
