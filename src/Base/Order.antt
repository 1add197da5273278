-- ===== src/Base/Order.antt =====
-- `ORDER BY` and `LIMIT`: ordered lists, a sort that meets them, and the first rows of a list.
use mathlib.Core.List.Permᴰ
use mathlib.Core.List.{Memᴰ, Permᴰ}
use Prim.Native.Nat.{ℕ, zero, suc, ◌≤◌, ◌<◌}
use mathlib.Core.Path.{◌≡◌, refl, ap, ◌∙◌}
use mathlib.Core.Logic.{inl, inr}
use mathlib.Core.Bool.{Bool, true, false}
use mathlib.Core.List.{List, [], ◌∷◌, ◌++◌}
use native.Mathlib.Omega.{arith}
use mini_serverless_cloud_pl.Base.Tests.{if◌then◌else◌, Bool-cases}
use mini_serverless_cloud_pl.Base.Lists.{length, All, keep}

module _ {A : Type 0} where
  abbrev pub take : ℕ → List A → List A
  take zero xs = []
  take (suc n) [] = []
  take (suc n) (x ∷ xs) = x ∷ take n xs

  abbrev pub drop : ℕ → List A → List A
  drop zero xs = xs
  drop (suc n) [] = []
  drop (suc n) (x ∷ xs) = drop n xs

  pub take-append_drop : (n : ℕ) (xs : List A) → take n xs ++ drop n xs ≡ xs
  take-append_drop zero xs = refl
  take-append_drop (suc n) [] = refl
  take-append_drop (suc n) (x ∷ xs) = ap (λ ys. x ∷ ys) (take-append_drop n xs)

  pub length-take : (n : ℕ) (xs : List A) → length (take n xs) ≤ n
  length-take zero xs = omega arith
  length-take (suc n) [] = omega arith
  length-take (suc n) (x ∷ xs) = let h = length-take n xs in omega arith

  -- Where fewer rows come than the limit allows, they are all.
  pub drop_of_short : (n : ℕ) (xs : List A) → length (take n xs) < n → drop n xs ≡ []
  drop_of_short zero xs h = absurd (omega arith)
  drop_of_short (suc n) [] h = refl
  drop_of_short (suc n) (x ∷ xs) h = drop_of_short n xs (omega arith)

  -- Every row comes before the ones behind it.
  abbrev pub IsOrdered : (A → A → Type 0) → List A → Type 0
  IsOrdered R [] = Unit
  IsOrdered R (x ∷ xs) = All (R x) xs × IsOrdered R xs

  unfoldable pub insert : (A → A → Bool) → A → List A → List A
  insert first x [] = x ∷ []
  insert first x (y ∷ ys) =
      let rest = insert first x ys in if first x y then x ∷ y ∷ ys else y ∷ rest

  unfoldable pub order_by : (A → A → Bool) → List A → List A
  unfolding insert
  order_by first [] = []
  order_by first (x ∷ xs) = insert first x (order_by first xs)

  insert-Perm : (first : A → A → Bool) (x : A) (ys : List A) → Permᴰ (insert first x ys) (x ∷ ys)
  unfolding insert
  insert-Perm first x [] = Permᴰ.refl (x ∷ [])
  insert-Perm first x (y ∷ ys) = elim (Bool-cases (first x y)) [
    | inl here ↦ rw here (Permᴰ.refl (x ∷ y ∷ ys))
    | inr there ↦
        rw there (Permᴰ.trans (Permᴰ.cons refl (insert-Perm first x ys)) (Permᴰ.swap refl refl))
  ]

  pub order_by-Perm : (first : A → A → Bool) (xs : List A) → Permᴰ (order_by first xs) xs
  unfolding order_by
  order_by-Perm first [] = Permᴰ.nil
  order_by-Perm first (x ∷ xs) =
      Permᴰ.trans (insert-Perm first x (order_by first xs))
        (Permᴰ.cons refl (order_by-Perm first xs))

  module _ (first : A → A → Bool) (R : A → A → Type 0)
      (before : (x y : A) → first x y ≡ true → R x y)
      (behind : (x y : A) → first x y ≡ false → R y x)
      (trans : (x y z : A) → R x y → R y z → R x z) where
    All-R : (x y : A) (zs : List A) → R x y → All (R y) zs → All (R x) zs
    All-R x y [] h a = tt
    All-R x y (z ∷ zs) h (b, a) = (trans x y z h b, All-R x y zs h a)

    insert-All : (y x : A) (zs : List A) → R y x → All (R y) zs → All (R y) (insert first x zs)
    unfolding insert
    insert-All y x [] h a = (h, tt)
    insert-All y x (z ∷ zs) h (b, a) = elim (Bool-cases (first x z)) [
      | inl here ↦ rw here (h, (b, a))
      | inr there ↦ rw there (b, insert-All y x zs h a)
    ]

    insert-IsOrdered : (x : A) (ys : List A) → IsOrdered R ys → IsOrdered R (insert first x ys)
    unfolding insert
    insert-IsOrdered x [] o = (tt, tt)
    insert-IsOrdered x (y ∷ ys) (a, o) = elim (Bool-cases (first x y)) [
      | inl here ↦ rw here ((before x y here, All-R x y ys (before x y here) a), (a, o))
      | inr there ↦ rw there (insert-All y x ys (behind x y there) a, insert-IsOrdered x ys o)
    ]

    pub order_by-IsOrdered : (xs : List A) → IsOrdered R (order_by first xs)
    unfolding order_by
    order_by-IsOrdered [] = tt
    order_by-IsOrdered (x ∷ xs) = insert-IsOrdered x (order_by first xs) (order_by-IsOrdered xs)

-- A page of rows, and what it leaves: together all the rows that match, in the order.
pub record IsPage {A : Type 0} (p : A → Bool) (R : A → A → Type 0) (limit : ℕ) (rows page : List A)
    : Type 0 where
  pub left_out : List A
  pub complete : Permᴰ (page ++ left_out) (keep p rows)
  pub ordered : IsOrdered R (page ++ left_out)
  pub bounded : length page ≤ limit
  pub short : length page < limit → left_out ≡ []

pub take-IsPage :
    {A : Type 0} {p : A → Bool} {R : A → A → Type 0} (limit : ℕ) {rows : List A} (sorted : List A)
    → Permᴰ sorted (keep p rows)
    → IsOrdered R sorted
    → IsPage p R limit rows (take limit sorted)
take-IsPage limit sorted perm order = record {
  left_out = drop limit sorted;
  complete = rw (take-append_drop limit sorted) perm;
  ordered = rw (take-append_drop limit sorted) order;
  bounded = length-take limit sorted;
  short = drop_of_short limit sorted;
}

-- A rearrangement has the same members.
pub mem-Perm : {A : Type 0} {a : A} {xs ys : List A} → Permᴰ xs ys → Memᴰ a xs → Memᴰ a ys
mem-Perm Permᴰ.nil m = elim m [ ]
mem-Perm (Permᴰ.cons e p) (Memᴰ.head h) = Memᴰ.head (h ∙ e)
mem-Perm (Permᴰ.cons e p) (Memᴰ.tail m) = Memᴰ.tail (mem-Perm p m)
mem-Perm (Permᴰ.swap e f) (Memᴰ.head h) = Memᴰ.tail (Memᴰ.head (h ∙ e))
mem-Perm (Permᴰ.swap e f) (Memᴰ.tail (Memᴰ.head h)) = Memᴰ.head (h ∙ f)
mem-Perm (Permᴰ.swap e f) (Memᴰ.tail (Memᴰ.tail m)) = Memᴰ.tail (Memᴰ.tail m)
mem-Perm (Permᴰ.trans p q) m = mem-Perm q (mem-Perm p m)

pub length-Perm : {A : Type 0} {xs ys : List A} → Permᴰ xs ys → length xs ≡ length ys
length-Perm Permᴰ.nil = refl
length-Perm (Permᴰ.cons e p) = let h = length-Perm p in omega arith
length-Perm (Permᴰ.swap e f) = refl
length-Perm (Permᴰ.trans p q) = length-Perm p ∙ length-Perm q

pub keep-Perm :
    {A : Type 0} (p : A → Bool) {xs ys : List A} → Permᴰ xs ys → Permᴰ (keep p xs) (keep p ys)
keep-Perm p Permᴰ.nil = Permᴰ.nil
keep-Perm p (Permᴰ.cons {a} {b} e r) = rw (← e) (elim (Bool-cases (p a)) [
  | inl hit ↦ rw hit (Permᴰ.cons refl (keep-Perm p r))
  | inr miss ↦ rw miss (keep-Perm p r)
])
keep-Perm p (Permᴰ.swap {a} {b} {a'} {b'} {l} e f) =
    rw (← e, ← f)
      (elim (Bool-cases (p a)) [
        | inl hit ↦ elim (Bool-cases (p b)) [
          | inl too ↦ rw (hit, too) (Permᴰ.swap refl refl)
          | inr not_too ↦ rw (hit, not_too) (Permᴰ.refl (a ∷ keep p l))
        ]
        | inr miss ↦ elim (Bool-cases (p b)) [
          | inl too ↦ rw (miss, too) (Permᴰ.refl (b ∷ keep p l))
          | inr not_too ↦ rw (miss, not_too) (Permᴰ.refl (keep p l))
        ]
      ])
keep-Perm p (Permᴰ.trans r s) = Permᴰ.trans (keep-Perm p r) (keep-Perm p s)
