-- ===== src/Samples.antt =====
-- Unary numbers in front of a text: an encoding for the concrete values that stand for JSON and JWTs.
pub mod Answering
pub mod Heartbeats
pub mod Outcomes
use Prim.Native.Char.{code}
use mini_serverless_cloud_pl.Base.{
  ◌==◌, if◌then◌else◌, ℕ, zero, suc, String, ◌≡◌, refl, ap, Option, none, some,
}

unfoldable pub unary : ℕ → String → String
unary zero s = String.◌∷◌ "0" s
unary (suc n) s = String.◌∷◌ "1" (unary n s)

unfoldable pub one_more : Option (ℕ × String) → Option (ℕ × String)
one_more none = none
one_more (some (n, s)) = some (suc n, s)

unfoldable pub count_unary : String → Option (ℕ × String)
unfolding one_more
count_unary String.[] = none
count_unary (String.◌∷◌ c s) =
    let rest = one_more (count_unary s) in if code c == 49 then rest else some (0, s)

pub count_unary-unary : (n : ℕ) (s : String) → count_unary (unary n s) ≡ some (n, s)
unfolding count_unary unary one_more
count_unary-unary zero s = refl
count_unary-unary (suc n) s = ap one_more (count_unary-unary n s)
