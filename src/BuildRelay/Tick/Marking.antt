-- ===== src/BuildRelay/Tick/Marking.antt =====
-- What the update of a tick leaves of the rows that wait.
use mathlib.Core.List.Permᴰ
use mathlib.Core.List.{Memᴰ}
use mini_serverless_cloud_pl.Base.{
  ltb, ◌==◌, Bool-cases, length, All, any, keep, rewrite_where, length-append, keep-append,
  any_of_mem, keep_complete, mem-Perm, IsPage, keep-Perm, length-Perm, ℕ, ◌+◌, ◌≤◌, ◌≡◌, refl, ap,
  inl, inr, Bool, true, false, not, List, [], ◌∷◌, ◌++◌, map, append-nil, arith,
}
use mini_serverless_cloud_pl.Schema.{Build}
use mini_serverless_cloud_pl.BuildRelay.{Hold, published, scan_limit}
use mini_serverless_cloud_pl.BuildRelay.Tick.{is_candidate, IsOlderBuild, marked}

keep-split :
    {A : Type 0} (m : A → Bool) (xs : List A)
    → length (keep m xs) + length (keep (λ x. not (m x)) xs) ≡ length xs
keep-split m [] = refl
keep-split m (x ∷ xs) = elim (Bool-cases (m x)) [
  | inl hit ↦ rw hit (let ih = keep-split m xs in omega arith)
  | inr miss ↦ rw miss (let ih = keep-split m xs in omega arith)
]

keep_everything :
    {A : Type 0} (m : A → Bool) (xs : List A) → All (λ x. m x ≡ true) xs → keep m xs ≡ xs
keep_everything m [] hs = refl
keep_everything m (x ∷ xs) (h, hs) = rw h (ap (λ ys. x ∷ ys) (keep_everything m xs hs))

-- The rows that pass a test that no rewritten row passes.
keep-rewrite :
    {A : Type 0} (c m : A → Bool) (f : A → A) (xs : List A)
    → ((x : A) → c (f x) ≡ false)
    → keep c (rewrite_where m f xs) ≡ keep (λ x. not (m x)) (keep c xs)
keep-rewrite c m f [] out = refl
keep-rewrite c m f (x ∷ xs) out = elim (Bool-cases (m x)) [
  | inl hit ↦ elim (Bool-cases (c x)) [
    | inl passes ↦ rw (hit, passes) (rw (out x, hit) (keep-rewrite c m f xs out))
    | inr fails ↦ rw (hit, fails) (rw (out x) (keep-rewrite c m f xs out))
  ]
  | inr miss ↦ elim (Bool-cases (c x)) [
    | inl passes ↦ rw (miss, passes) (rw miss (ap (λ ys. x ∷ ys) (keep-rewrite c m f xs out)))
    | inr fails ↦ rw (miss, fails) (keep-rewrite c m f xs out)
  ]
]

abbrev pub is_found : List Build → Build → Bool
is_found found b = any (λ k. k.id == b.id) found

members_pass :
    (p : Build → Bool) (found : List Build)
    → ((b : Build) → Memᴰ b found → p b ≡ true)
    → All (λ b. p b ≡ true) found
members_pass p [] h = tt
members_pass p (b ∷ found) h =
    (h b (Memᴰ.head refl), members_pass p found (λ c m. h c (Memᴰ.tail m)))

-- Each row that is found waits no more, and no other row is added.
pub marked-fewer :
    (locked : List Hold) (now : ℕ) (rows found : List Build)
    → IsPage (is_candidate locked) IsOlderBuild scan_limit rows found
    → length (keep (is_candidate locked) (marked now found rows)) + length found
      ≤ length (keep (is_candidate locked) rows)
marked-fewer locked now rows found page =
    let waiting : List Build = keep (is_candidate locked) rows in
    let left =
      keep-rewrite (is_candidate locked) (is_found found) (published now) rows
        (λ b. ground arith) in
    let parts = keep-split (is_found found) waiting in
    let both = length-Perm (keep-Perm (is_found found) page.complete) in
    let joined = ap length (keep-append (is_found found) found page.left_out) in
    let own = ap length (
      keep_everything (is_found found) found (
        members_pass (is_found found) found
          (λ b m. any_of_mem (λ k. k.id == b.id) m (ground arith)))) in
    let sum = length-append (keep (is_found found) found) (keep (is_found found) page.left_out) in
    rw left (omega arith)

-- A row that is not found stays as it is.
pub mem-marked :
    (now : ℕ) (found : List Build) {b : Build} {rows : List Build}
    → is_found found b ≡ false
    → Memᴰ b rows
    → Memᴰ b (marked now found rows)
mem-marked now found {b} {rows = []} miss m = elim m [ ]
mem-marked now found {b} {rows = r ∷ rows} miss (Memᴰ.head e) = rw (← e) (rw miss (Memᴰ.head refl))
mem-marked now found {b} {rows = r ∷ rows} miss (Memᴰ.tail m) =
    Memᴰ.tail (mem-marked now found miss m)

pub marked-none : (now : ℕ) (rows : List Build) → rows ≡ marked now [] rows
marked-none now [] = refl
marked-none now (b ∷ rows) = ap (λ rest. b ∷ rest) (marked-none now rows)

pub found-ids :
    (found : List Build) (b : Build) → is_found found b ≡ true → Memᴰ b.id (map (λ k. k.id) found)
found-ids [] b h = cc
found-ids (k ∷ found) b h = elim (Bool-cases (k.id == b.id)) [
  | inl hit ↦ Memᴰ.head (ground arith)
  | inr miss ↦ Memᴰ.tail (found-ids found b (rw miss at h))
]

-- A row that waits and is not found stands behind a full page.
pub page-full :
    (locked : List Hold) {b : Build} (rows found : List Build)
    → IsPage (is_candidate locked) IsOlderBuild scan_limit rows found
    → Memᴰ b rows
    → is_candidate locked b ≡ true
    → is_found found b ≡ false
    → scan_limit ≤ length found
page-full locked {b} rows found page there waits miss =
    elim (Bool-cases (ltb (length found) scan_limit)) [
      | inl short ↦
          let one : Memᴰ b (found ++ page.left_out) =
            mem-Perm (Permᴰ.symm page.complete) (keep_complete (is_candidate locked) there waits) in
          let all : Memᴰ b found = rw (page.short (ground arith), append-nil found) at one in
          let hit = any_of_mem (λ k. k.id == b.id) all (ground arith) in cc
      | inr full ↦ ground arith
    ]
