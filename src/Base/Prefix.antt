-- ===== src/Base/Prefix.antt =====
-- `s.startsWith(prefix)` and `s.slice(prefix.length)` behind it, in one function.
use Prim.Native.Char.{code}
use Prim.Native.Nat.{ℕ}
use Prim.Native.String
use Prim.Native.String.{String}
use mathlib.Core.Path.{◌≡◌, ap, ◌∙◌}
use text.Mathlib.TextLemmas.{nil-append, cons-append, append-nil}
use mathlib.Core.Option.{Option, none, some}
use mathlib.Core.List.{[], ◌∷◌}
use native.Mathlib.Omega.{arith}
use mini_serverless_cloud_pl.Base.Tests.{◌==◌, if◌then◌else◌, template}

-- What stands behind a prefix: `none` when the text does not start with it.
unfoldable pub strip_prefix : String → String → Option String
strip_prefix String.[] s = some s
strip_prefix (String.◌∷◌ c p) String.[] = none
strip_prefix (String.◌∷◌ c p) (String.◌∷◌ d s) =
    let rest = strip_prefix p s in if code c == code d then rest else none

pub same_code : (n : ℕ) {A : Type 0} (x y : A) → (if n == n then x else y) ≡ x
same_code n x y = ground arith

pub strip_prefix-append : (p s : String) → strip_prefix p (String.◌++◌ p s) ≡ some s
unfolding strip_prefix
strip_prefix-append String.[] s = ap some (nil-append s)
strip_prefix-append (String.◌∷◌ c p) s =
    ap (strip_prefix (String.◌∷◌ c p)) (cons-append c p s)
    ∙ same_code (code c) (strip_prefix p (String.◌++◌ p s)) none
    ∙ strip_prefix-append p s

pub strip_prefix-template : (p s : String) → strip_prefix p (template (p ∷ s ∷ [])) ≡ some s
strip_prefix-template p s = strip_prefix-append p (String.◌++◌ s "") ∙ ap some (append-nil s)
