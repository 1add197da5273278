-- ===== src/Base/Lists.antt =====
-- Searches in lists by a Boolean test, and their laws.
use Prim.Native.Nat.{ℕ, suc, ◌+◌}
use mathlib.Core.Path.{◌≡◌, refl, sym, ap, ◌∙◌}
use mathlib.Core.Logic.{inl, inr}
use mathlib.Core.Bool.{Bool, true, false, ◌||◌}
use mathlib.Core.Option.{Option, none, some}
use mathlib.Core.List.{List, [], ◌∷◌, ◌++◌, map, Memᴰ}
use native.Mathlib.Omega.{arith}
use mini_serverless_cloud_pl.Base.Tests.{if◌then◌else◌, Bool-cases}

module _ {ℓ} {A : Type ℓ} where
  abbrev pub length : List A → ℕ
  length [] = 0
  length (x ∷ xs) = suc (length xs)

  abbrev pub All {κ} : (A → Type κ) → List A → Type κ
  All P [] = Unit
  All P (x ∷ xs) = P x × All P xs

  abbrev pub any : (A → Bool) → List A → Bool
  any p [] = false
  any p (x ∷ xs) = p x || any p xs

  abbrev pub find : (A → Bool) → List A → Option A
  find p [] = none
  find p (x ∷ xs) = if p x then some x else find p xs

  -- `Array.prototype.filter`.
  abbrev pub keep : (A → Bool) → List A → List A
  keep p [] = []
  keep p (x ∷ xs) = let rest = keep p xs in if p x then x ∷ rest else rest

  abbrev pub head? : List A → Option A
  head? [] = none
  head? (x ∷ xs) = some x

  -- The rows that pass the test are rewritten, the others stay.
  abbrev pub rewrite_where : (A → Bool) → (A → A) → List A → List A
  rewrite_where p f [] = []
  rewrite_where p f (x ∷ xs) = (if p x then f x else x) ∷ rewrite_where p f xs

  pub length-append : (xs ys : List A) → length (xs ++ ys) ≡ length xs + length ys
  length-append [] ys = omega arith
  length-append (x ∷ xs) ys = omega (arith, length-append xs ys)

  pub any-append : (p : A → Bool) (xs ys : List A) → any p (xs ++ ys) ≡ (any p xs || any p ys)
  any-append p [] ys = refl
  any-append p (x ∷ xs) ys = ground (arith, any-append p xs ys)

  pub find_of_any : (p : A → Bool) (xs : List A) → any p xs ≡ false → find p xs ≡ none
  find_of_any p [] h = refl
  find_of_any p (x ∷ xs) h = ground (arith, find_of_any p xs)

  pub find-append :
      (p : A → Bool) (xs : List A) (y : A)
      → any p xs ≡ false
      → p y ≡ true
      → find p (xs ++ y ∷ []) ≡ some y
  find-append p [] y h k = rw k
  find-append p (x ∷ xs) y h k = ground (arith, find-append p xs y)

  -- What `find` answers passes the test and stands in the list.
  pub find_sound :
      (p : A → Bool) (xs : List A) (a : A) → find p xs ≡ some a → (p a ≡ true) × Memᴰ a xs
  find_sound p [] a e = cc
  find_sound p (x ∷ xs) a e = elim (Bool-cases (p x)) [
    | inl hit ↦ let same : x ≡ a = cc (rw hit at e) in rw (← same) (hit, Memᴰ.head refl)
    | inr miss ↦ let (q, m) = find_sound p xs a (rw miss at e) in (q, Memᴰ.tail m)
  ]

  pub any_of_find : (p : A → Bool) (xs : List A) → find p xs ≡ none → any p xs ≡ false
  any_of_find p [] e = refl
  any_of_find p (x ∷ xs) e = ground (arith, any_of_find p xs)

  pub keep-append : (p : A → Bool) (xs ys : List A) → keep p (xs ++ ys) ≡ keep p xs ++ keep p ys
  keep-append p [] ys = refl
  keep-append p (x ∷ xs) ys = elim (Bool-cases (p x)) [
    | inl hit ↦ rw (hit, keep-append p xs ys)
    | inr miss ↦ rw (miss, keep-append p xs ys)
  ]

  pub any_of_mem : (p : A → Bool) {a : A} {xs : List A} → Memᴰ a xs → p a ≡ true → any p xs ≡ true
  any_of_mem p (Memᴰ.head e) h = rw (← e) (rw h)
  any_of_mem p (Memᴰ.tail m) h = ground (arith, any_of_mem p m h)

  -- A search for a key after an update of the row under that key, or under another.
  pub find-rewrite_self :
      (p : A → Bool) (f : A → A) (xs : List A) (a : A)
      → ((x : A) → p (f x) ≡ p x)
      → find p xs ≡ some a
      → find p (rewrite_where p f xs) ≡ some (f a)
  find-rewrite_self p f [] a keeps e = cc
  find-rewrite_self p f (x ∷ xs) a keeps e = elim (Bool-cases (p x)) [
    | inl hit ↦ let same : x ≡ a = cc (rw hit at e) in rw hit (rw (keeps x ∙ hit) (rw same))
    | inr miss ↦ rw miss (rw miss (find-rewrite_self p f xs a keeps (rw miss at e)))
  ]

  pub find-rewrite_other :
      (p q : A → Bool) (f : A → A) (xs : List A)
      → ((x : A) → p x ≡ true → (q x ≡ false) × (q (f x) ≡ false))
      → find q (rewrite_where p f xs) ≡ find q xs
  find-rewrite_other p q f [] apart = refl
  find-rewrite_other p q f (x ∷ xs) apart = elim (Bool-cases (p x)) [
    | inl hit ↦
        let (old, new) = apart x hit in rw (hit, old) (rw new (find-rewrite_other p q f xs apart))
    | inr miss ↦ rw (miss, find-rewrite_other p q f xs apart)
  ]

  pub any-rewrite :
      (p : A → Bool) (f : A → A) (xs : List A)
      → ((x : A) → p (f x) ≡ p x)
      → any p (rewrite_where p f xs) ≡ any p xs
  any-rewrite p f [] keeps = refl
  any-rewrite p f (x ∷ xs) keeps = elim (Bool-cases (p x)) [
    | inl hit ↦ rw hit (rw (keeps x ∙ hit))
    | inr miss ↦ rw miss (rw (miss, any-rewrite p f xs keeps))
  ]

-- Another test than the one by which the rows are chosen.
pub any-rewritten :
    {A : Type 0} (p t : A → Bool) (f : A → A) (xs : List A)
    → ((x : A) → p (f x) ≡ p x)
    → any p (rewrite_where t f xs) ≡ any p xs
any-rewritten p t f [] same = refl
any-rewritten p t f (x ∷ xs) same = elim (Bool-cases (t x)) [
  | inl hit ↦ rw (hit, any-rewritten p t f xs same) (ap (λ b. b || any p xs) (same x))
  | inr miss ↦ rw (miss, any-rewritten p t f xs same) refl
]

pub keep_sound :
    {A : Type 0} (p : A → Bool) {a : A} (xs : List A)
    → Memᴰ a (keep p xs)
    → (p a ≡ true) × Memᴰ a xs
keep_sound p [] m = elim m [ ]
keep_sound {A} p {a} (x ∷ xs) m = elim (Bool-cases (p x)) [
  | inl hit ↦ first (keep_sound p xs) hit (rw hit at m)
  | inr miss ↦ let (q, n) = keep_sound p xs (rw miss at m) in (q, Memᴰ.tail n)
]
  where
    first :
        (Memᴰ a (keep p xs) → (p a ≡ true) × Memᴰ a xs)
        → p x ≡ true
        → Memᴰ a (x ∷ keep p xs)
        → (p a ≡ true) × Memᴰ a (x ∷ xs)
    first later hit (Memᴰ.head e) = (rw e hit, Memᴰ.head e)
    first later hit (Memᴰ.tail n) = let (q, k) = later n in (q, Memᴰ.tail k)

pub keep_complete :
    {A : Type 0} (p : A → Bool) {a : A} {xs : List A} → Memᴰ a xs → p a ≡ true → Memᴰ a (keep p xs)
keep_complete p {xs = []} m h = elim m [ ]
keep_complete p {xs = x ∷ xs} (Memᴰ.head e) h = rw (ap p (sym e) ∙ h) (Memᴰ.head e)
keep_complete p {xs = x ∷ xs} (Memᴰ.tail m) h = elim (Bool-cases (p x)) [
  | inl hit ↦ rw hit (Memᴰ.tail (keep_complete p m h))
  | inr miss ↦ rw miss (keep_complete p m h)
]

pub mem-append : {A : Type 0} {a : A} {xs : List A} (ys : List A) → Memᴰ a xs → Memᴰ a (xs ++ ys)
mem-append ys (Memᴰ.head e) = Memᴰ.head e
mem-append ys (Memᴰ.tail m) = Memᴰ.tail (mem-append ys m)

pub last_mem : {A : Type 0} (xs : List A) (a : A) → Memᴰ a (xs ++ a ∷ [])
last_mem [] a = Memᴰ.head refl
last_mem (x ∷ xs) a = Memᴰ.tail (last_mem xs a)

pub mem-map : {A B : Type 0} (f : A → B) {a : A} {xs : List A} → Memᴰ a xs → Memᴰ (f a) (map f xs)
mem-map f (Memᴰ.head e) = Memᴰ.head (ap f e)
mem-map f (Memᴰ.tail m) = Memᴰ.tail (mem-map f m)

pub map_All :
    {A : Type 0} {P Q : A → Type 0} (f : (a : A) → P a → Q a) (xs : List A) → All P xs → All Q xs
map_All f [] hs = tt
map_All f (x ∷ xs) (h, hs) = (f x h, map_All f xs hs)
