-- ===== src/BuildRelay/Once.antt =====
-- No build is published twice, whatever the order in which the steps of several relays come.
use mini_serverless_cloud_pl.Base.{
  ◌==◌, if◌then◌else◌, Bool-cases, any, keep, rewrite_where, ℕ, ◌+◌, ◌≤◌, ◌≡◌, refl, subst, inl,
  inr, Bool, true, false, ◌&&◌, not, List, [], ◌∷◌, ◌++◌, arith,
}
use mini_serverless_cloud_pl.Schema.{Build}
use mini_serverless_cloud_pl.Build.{has_id}
use mini_serverless_cloud_pl.BuildRelay.{
  Hold, is_unpublished, claimable, published, held_by, mark, occurs, Outbox,
}

pub occurs-append :
    {A : Type 0} (f : A → ℕ) (id : ℕ) (xs ys : List A)
    → occurs f id (xs ++ ys) ≡ occurs f id xs + occurs f id ys
occurs-append f id [] ys = omega arith
occurs-append f id (x ∷ xs) ys = omega (arith, occurs-append f id xs ys)

pub occurs-split :
    {A : Type 0} (f : A → ℕ) (p : A → Bool) (id : ℕ) (xs : List A)
    → occurs f id xs ≡ occurs f id (keep p xs) + occurs f id (keep (λ x. not (p x)) xs)
occurs-split f p id [] = refl
occurs-split f p id (x ∷ xs) = elim (Bool-cases (p x)) [
  | inl hit ↦ rw hit (let ih = occurs-split f p id xs in omega arith)
  | inr miss ↦ rw miss (let ih = occurs-split f p id xs in omega arith)
]

any_of_occurs :
    (id : ℕ) (hs : List Hold) → 1 ≤ occurs (λ h. h.1) id hs → any (λ h. h.1 == id) hs ≡ true
any_of_occurs id [] h = absurd (omega arith)
any_of_occurs id (x ∷ hs) h = elim (Bool-cases (x.1 == id)) [
  | inl hit ↦ rw hit refl
  | inr miss ↦ rw miss (any_of_occurs id hs (let h' = rw miss at h in omega arith))
]

-- Some row of the build is not marked as published.
abbrev pub unpublished_at : ℕ → Build → Bool
unpublished_at id b = has_id id b && is_unpublished b

pub any_unpublished_of_claimable :
    (id : ℕ) (rows : List Build)
    → any (claimable id) rows ≡ true
    → any (unpublished_at id) rows ≡ true
any_unpublished_of_claimable id [] h = cc
any_unpublished_of_claimable id (b ∷ rows) h = ground (arith, any_unpublished_of_claimable id rows)

pub mark_keeps :
    (t : Build → Bool) (now id : ℕ) (rows : List Build)
    → any (unpublished_at id) rows ≡ false
    → any (unpublished_at id) (rewrite_where t (published now) rows) ≡ false
mark_keeps t now id [] h = refl
mark_keeps t now id (b ∷ rows) h = elim (Bool-cases (t b)) [
  | inl hit ↦ rw hit (ground (arith, mark_keeps t now id rows))
  | inr miss ↦ rw miss (ground (arith, mark_keeps t now id rows))
]

mark_marks :
    (hs : List Hold) (now id : ℕ) (rows : List Build)
    → any (λ h. h.1 == id) hs ≡ true
    → any (unpublished_at id) (rewrite_where (λ b. any (λ h. h.1 == b.id) hs) (published now) rows)
      ≡ false
mark_marks hs now id [] held = refl
mark_marks hs now id (b ∷ rows) held = elim (Bool-cases (any (λ h. h.1 == b.id) hs)) [
  | inl hit ↦ rw hit (ground (arith, mark_marks hs now id rows held))
  | inr miss ↦
      let other : has_id id b ≡ false = elim (Bool-cases (has_id id b)) [
        | inl same ↦ let at : b.id ≡ id = ground arith in absurd (cc (rw at at miss))
        | inr apart ↦ apart
      ] in
      rw miss (rw other (mark_marks hs now id rows held))
]

-- A build is locked, claimed or published at most once in all, and once it is claimed no row of it
-- can be claimed again.
abbrev pub IsSafe : ℕ → Outbox → Type 0
IsSafe id s =
    (occurs (λ h. h.1) id s.locked + occurs (λ h. h.1) id s.claimed + occurs (λ k. k) id s.stream
      ≤ 1)
    × (1 ≤ occurs (λ h. h.1) id s.claimed + occurs (λ k. k) id s.stream
        → any (unpublished_at id) s.rows ≡ false)

pub lock-IsSafe :
    (id relay k : ℕ) (s : Outbox)
    → any (claimable k) s.rows ≡ true
    → occurs (λ h. h.1) k s.locked ≡ 0
    → IsSafe id s
    → IsSafe id (record s { locked = s.locked ++ (relay, k) ∷ [] })
lock-IsSafe id relay k s can free (once, done) = (
  rw (occurs-append (λ h. h.1) id s.locked ((relay, k) ∷ [])) (elim (Bool-cases (k == id)) [
    | inl hit ↦
        let same : k ≡ id = ground arith in
        let open_row : any (unpublished_at id) s.rows ≡ true =
          subst (λ j. any (unpublished_at j) s.rows ≡ true) same
            (any_unpublished_of_claimable k s.rows can) in
        let none_held : occurs (λ h. h.1) id s.locked ≡ 0 =
          subst (λ j. occurs (λ h. h.1) j s.locked ≡ 0) same free in
        rw hit (below_one _ _ _ none_held (λ h. cc (done h)))
    | inr miss ↦ rw miss (omega arith)
  ]),
  done,
)
  where
    below_one : (l c t : ℕ) → l ≡ 0 → (1 ≤ c + t → ⊥) → l + (1 + 0) + c + t ≤ 1
    below_one l c t e n = ground (arith, n)

pub commit-IsSafe :
    (id relay now : ℕ) (s : Outbox)
    → IsSafe id s
    → IsSafe id (record s {
      rows = mark relay now s.locked s.rows;
      locked = keep (λ h. not (held_by relay h)) s.locked;
      claimed = s.claimed ++ keep (held_by relay) s.locked;
    })
commit-IsSafe id relay now s (once, done) =
    let own : List Hold = keep (held_by relay) s.locked in
    let split = occurs-split (λ h. h.1) (held_by relay) id s.locked in
    let joined = occurs-append (λ h. h.1) id s.claimed own in
    (
      omega arith,
      λ h. elim (Bool-cases (any (λ k. k.1 == id) own)) [
        | inl hit ↦ mark_marks own now id s.rows hit
        | inr miss ↦
            mark_keeps (λ b. any (λ k. k.1 == b.id) own) now id s.rows
              (done (
                let none_held : occurs (λ k. k.1) id own ≡ 0 = zero_of_none id own miss in
                omega arith))
      ],
    )
  where
    zero_of_none :
        (id : ℕ) (hs : List Hold) → any (λ k. k.1 == id) hs ≡ false → occurs (λ k. k.1) id hs ≡ 0
    zero_of_none id hs miss = zero_or (occurs (λ k. k.1) id hs) (λ h. cc (any_of_occurs id hs h))
      where
        zero_or : (n : ℕ) → (1 ≤ n → ⊥) → n ≡ 0
        zero_or n h = ground (arith, h)

pub unclaim :
    (id : ℕ) (before after : List Hold) (h : Hold) (claimed : List Hold)
    → claimed ≡ before ++ h ∷ after
    → occurs (λ k. k.1) id claimed
      ≡ occurs (λ k. k.1) id (before ++ after) + (if h.1 == id then 1 else 0)
unclaim id before after h claimed e = rw e (
    rw (occurs-append (λ k. k.1) id before (h ∷ after), occurs-append (λ k. k.1) id before after)
      (omega arith))

pub rewrite_keeps :
    (t : Build → Bool) (change : Build → Build) (id : ℕ) (rows : List Build)
    → ((b : Build) → (change b).id ≡ b.id)
    → ((b : Build) → (change b).published_to_stream_at ≡ b.published_to_stream_at)
    → any (unpublished_at id) (rewrite_where t change rows) ≡ any (unpublished_at id) rows
rewrite_keeps t change id [] ids times = refl
rewrite_keeps t change id (b ∷ rows) ids times = elim (Bool-cases (t b)) [
  | inl hit ↦ rw hit (rw (ids b, times b) (rw (rewrite_keeps t change id rows ids times) refl))
  | inr miss ↦ rw miss (rw (rewrite_keeps t change id rows ids times) refl)
]
