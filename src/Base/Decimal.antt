-- ===== src/Base/Decimal.antt =====
-- `String(n)` and `Number(s)` for natural numbers in decimal.
use Prim.Native.Nat.{ℕ, zero, suc, ◌+◌, ◌-◌, ◌*◌, ◌/◌, ◌%◌, ◌<◌}
use Prim.Native.Char.{Char, code}
use Prim.Native.String.{String}
use mathlib.Core.Path.{◌≡◌, refl, ap, ◌∙◌}
use mathlib.Core.Logic.{inl, inr}
use mathlib.Core.Bool.{true, ◌&&◌}
use mathlib.Core.Option.{Option, none, some}
use native.Mathlib.Omega.{arith}
use mini_serverless_cloud_pl.Base.Tests.{ltb, leb, if◌then◌else◌, Bool-cases}

digit : ℕ → Char
digit zero = "0"
digit (suc zero) = "1"
digit (suc (suc zero)) = "2"
digit (suc (suc (suc zero))) = "3"
digit (suc (suc (suc (suc zero)))) = "4"
digit (suc (suc (suc (suc (suc zero))))) = "5"
digit (suc (suc (suc (suc (suc (suc zero)))))) = "6"
digit (suc (suc (suc (suc (suc (suc (suc zero))))))) = "7"
digit (suc (suc (suc (suc (suc (suc (suc (suc zero)))))))) = "8"
digit _ = "9"

code-digit : (d : ℕ) → d < 10 → code (digit d) ≡ 48 + d
unfolding digit
code-digit zero h = refl
code-digit (suc zero) h = refl
code-digit (suc (suc zero)) h = refl
code-digit (suc (suc (suc zero))) h = refl
code-digit (suc (suc (suc (suc zero)))) h = refl
code-digit (suc (suc (suc (suc (suc zero))))) h = refl
code-digit (suc (suc (suc (suc (suc (suc zero)))))) h = refl
code-digit (suc (suc (suc (suc (suc (suc (suc zero))))))) h = refl
code-digit (suc (suc (suc (suc (suc (suc (suc (suc zero)))))))) h = refl
code-digit (suc (suc (suc (suc (suc (suc (suc (suc (suc zero))))))))) h = refl
code-digit (suc (suc (suc (suc (suc (suc (suc (suc (suc (suc d)))))))))) h = absurd (omega arith)

-- The digits of a number before a text, with fuel for its digits.
show_before : ℕ → ℕ → String → String
show_before zero n s = s
show_before (suc fuel) n s =
    let rest = show_before fuel (n / 10) (String.◌∷◌ (digit (n % 10)) s) in
    if ltb n 10 then String.◌∷◌ (digit n) s else rest

unfoldable pub show : ℕ → String
unfolding show_before digit
show n = show_before (suc n) n ""

-- `none` is `NaN`; `Number("")` is 0.
number_after : ℕ → String → Option ℕ
number_after n String.[] = some n
number_after n (String.◌∷◌ c s) =
    let rest = number_after (n * 10 + (code c - 48)) s in
    if leb 48 (code c) && leb (code c) 57 then rest else none

unfoldable pub number : String → Option ℕ
unfolding number_after
number s = number_after 0 s

number_after-cons :
    (n : ℕ) (c : Char) (s : String)
    → leb 48 (code c) ≡ true
    → leb (code c) 57 ≡ true
    → number_after n (String.◌∷◌ c s) ≡ number_after (n * 10 + (code c - 48)) s
unfolding number_after
number_after-cons n c s lo hi = rw (lo, hi)

number_after-digit :
    (n d : ℕ) (s : String)
    → d < 10
    → number_after n (String.◌∷◌ (digit d) s) ≡ number_after (n * 10 + d) s
number_after-digit n d s h =
    let e = code-digit d h in
    number_after-cons n (digit d) s (rw e (ground arith)) (rw e (ground arith))
    ∙ ap (λ m. number_after m s) (rw e (omega arith))

number-show_before :
    (fuel n : ℕ) (s : String) → n < fuel → number_after 0 (show_before fuel n s) ≡ number_after n s
unfolding show_before
number-show_before zero n s h = absurd (omega arith)
number-show_before (suc fuel) n s h = elim (Bool-cases (ltb n 10)) [
  | inl small ↦
      rw small (number_after-digit 0 n s (ground arith) ∙ ap (λ m. number_after m s) (omega arith))
  | inr large ↦ rw large (
      number-show_before fuel (n / 10) (String.◌∷◌ (digit (n % 10)) s) (ground arith)
      ∙ number_after-digit (n / 10) (n % 10) s (omega arith)
      ∙ ap (λ m. number_after m s) (omega arith))
]

-- A number that is printed and read again is the same number.
pub number-show : (n : ℕ) → number (show n) ≡ some n
unfolding number show number_after
number-show n = number-show_before (suc n) n "" (omega arith)

pub show-injective : {m n : ℕ} → show m ≡ show n → m ≡ n
show-injective {m} {n} e = cc (number-show m, number-show n)
