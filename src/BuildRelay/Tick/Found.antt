-- ===== src/BuildRelay/Tick/Found.antt =====
-- The rows that a scan finds can be locked, one after another.
use mathlib.Core.List.{Memᴰ, Permᴰ}
use mini_serverless_cloud_pl.Base.{
  ◌==◌, Bool-cases, All, any, any_of_mem, keep_sound, mem-append, mem-Perm, IsPage, ℕ, ◌+◌, ◌≤◌,
  ◌≡◌, refl, ◌∙◌, subst, inl, inr, true, false, List, [], ◌∷◌, arith,
}
use mini_serverless_cloud_pl.Schema.{Build}
use mini_serverless_cloud_pl.BuildRelay.{Hold, claimable, occurs, scan_limit}
use mini_serverless_cloud_pl.BuildRelay.Once.{occurs-append, occurs-split}
use mini_serverless_cloud_pl.BuildRelay.Tick.{is_candidate, IsOlderBuild}

-- The ids of the rows that are found occur once, and no relay holds them.
abbrev pub AreFree : List Hold → List Build → Type 0
AreFree locked found =
    (id : ℕ)
    → 1 ≤ occurs (λ b. b.id) id found
    → occurs (λ h. h.1) id locked + occurs (λ b. b.id) id found ≤ 1

mem_of_occurs :
    {A : Type 0} (f : A → ℕ) (id : ℕ) (xs : List A)
    → 1 ≤ occurs f id xs
    → (a : A) × Memᴰ a xs × (f a ≡ id)
mem_of_occurs f id [] h = absurd (omega arith)
mem_of_occurs f id (x ∷ xs) h = elim (Bool-cases (f x == id)) [
  | inl hit ↦ (x, Memᴰ.head refl, ground arith)
  | inr miss ↦
      let (a, m, e) = mem_of_occurs f id xs (let later = rw miss at h in omega arith) in
      (a, Memᴰ.tail m, e)
]

occurs_of_none :
    (id : ℕ) (hs : List Hold) → any (λ h. h.1 == id) hs ≡ false → occurs (λ h. h.1) id hs ≡ 0
occurs_of_none id [] none_held = refl
occurs_of_none id (h ∷ hs) none_held = ground (arith, occurs_of_none id hs)

occurs-Perm :
    {A : Type 0} (f : A → ℕ) (id : ℕ) {xs ys : List A}
    → Permᴰ xs ys
    → occurs f id xs ≡ occurs f id ys
occurs-Perm f id Permᴰ.nil = refl
occurs-Perm f id (Permᴰ.cons e p) = rw (← e) (let h = occurs-Perm f id p in omega arith)
occurs-Perm f id (Permᴰ.swap e g) = rw (← e, ← g) (omega arith)
occurs-Perm f id (Permᴰ.trans p q) = occurs-Perm f id p ∙ occurs-Perm f id q

-- What a scan finds can be locked, row by row.
abbrev pub IsUnique : List Build → Type 0
IsUnique rows = (id : ℕ) → occurs (λ b. b.id) id rows ≤ 1

pub found-AreFree :
    (locked : List Hold) (rows found : List Build)
    → IsPage (is_candidate locked) IsOlderBuild scan_limit rows found
    → IsUnique rows
    → AreFree locked found
found-AreFree locked rows found page unique id h =
    let (b, m, e) = mem_of_occurs (λ k. k.id) id found h in
    let (can, there) =
      keep_sound (is_candidate locked) rows (mem-Perm page.complete (mem-append page.left_out m)) in
    let none_held = occurs_of_none b.id locked (ground arith) in
    let all = occurs-Perm (λ k. k.id) id page.complete in
    let parts = occurs-append (λ k. k.id) id found page.left_out in
    let split = occurs-split (λ k. k.id) (is_candidate locked) id rows in
    let once = unique id in
    let free = subst (λ j. occurs (λ k. k.1) j locked ≡ 0) e none_held in omega arith

pub found-claimable :
    (locked : List Hold) (rows found : List Build)
    → IsPage (is_candidate locked) IsOlderBuild scan_limit rows found
    → (later : List Build) → ((b : Build) → Memᴰ b later → Memᴰ b found)
    → All (λ b. any (claimable b.id) rows ≡ true) later
found-claimable locked rows found page [] inside = tt
found-claimable locked rows found page (b ∷ later) inside =
    let (can, there) =
      keep_sound (is_candidate locked) rows
        (mem-Perm page.complete (mem-append page.left_out (inside b (Memᴰ.head refl)))) in
    (
      any_of_mem (claimable b.id) there (ground arith),
      found-claimable locked rows found page later (λ c m. inside c (Memᴰ.tail m)),
    )
