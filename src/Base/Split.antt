-- ===== src/Base/Split.antt =====
-- `s.includes(part)`, and `s.split(separator)` at one character.
use Prim.Native.Char.{Char, code}
use Prim.Native.String
use Prim.Native.String.{String}
use mathlib.Core.Path.{◌≡◌, refl, sym, ap, ◌∙◌}
use mathlib.Core.Logic.{inl, inr}
use mathlib.Core.Bool.{Bool, true, false}
use mathlib.Core.Option.{Option, none, some}
use mathlib.Core.List.{List, [], ◌∷◌}
use text.Mathlib.TextLemmas.{nil-append, cons-append}
use mini_serverless_cloud_pl.Base.Tests.{◌==◌, if◌then◌else◌, Bool-cases}
use mini_serverless_cloud_pl.Base.Prefix.{strip_prefix, same_code}

abbrev found_or : Option String → Bool → Bool
found_or none later = later
found_or (some rest) later = true

unfoldable pub includes : String → String → Bool
unfolding strip_prefix
includes String.[] part = found_or (strip_prefix part String.[]) false
includes (String.◌∷◌ c s) part = found_or (strip_prefix part (String.◌∷◌ c s)) (includes s part)

-- A character in front of the first part.
abbrev pub push : Char → List String → List String
push c [] = String.◌∷◌ c String.[] ∷ []
push c (p ∷ ps) = String.◌∷◌ c p ∷ ps

unfoldable pub split : Char → String → List String
split separator String.[] = String.[] ∷ []
split separator (String.◌∷◌ c s) =
    let rest = split separator s in
    if code separator == code c then String.[] ∷ rest else push c rest

includes-cons :
    (separator c : Char) (s : String) (b : Bool)
    → (code separator == code c) ≡ b
    → includes (String.◌∷◌ c s) (String.◌∷◌ separator String.[])
      ≡ (if b then true else includes s (String.◌∷◌ separator String.[]))
unfolding includes strip_prefix
includes-cons separator c s true e =
    ap (λ b. found_or (if b then some s else none) (includes s (String.◌∷◌ separator String.[]))) e
includes-cons separator c s false e =
    ap (λ b. found_or (if b then some s else none) (includes s (String.◌∷◌ separator String.[]))) e

-- A text without the separator is one part.
pub split-includes :
    (separator : Char) (s : String)
    → includes s (String.◌∷◌ separator String.[]) ≡ false
    → split separator s ≡ s ∷ []
unfolding split
split-includes separator String.[] h = refl
split-includes separator (String.◌∷◌ c s) h = elim (Bool-cases (code separator == code c)) [
  | inl hit ↦ absurd (cc (includes-cons separator c s true hit))
  | inr miss ↦
      rw miss (
        ap (push c) (split-includes separator s (sym (includes-cons separator c s false miss) ∙ h)))
]

-- The part in front of the separator, when it has none.
pub split-cons_append :
    (separator : Char) (p s : String)
    → includes p (String.◌∷◌ separator String.[]) ≡ false
    → split separator (String.◌++◌ p (String.◌∷◌ separator s)) ≡ p ∷ split separator s
unfolding split
split-cons_append separator String.[] s h =
    ap (split separator) (nil-append (String.◌∷◌ separator s))
    ∙ same_code (code separator) (String.[] ∷ split separator s)
        (push separator (split separator s))
split-cons_append separator (String.◌∷◌ c p) s h =
    ap (split separator) (cons-append c p (String.◌∷◌ separator s))
    ∙ elim (Bool-cases (code separator == code c)) [
      | inl hit ↦ absurd (cc (includes-cons separator c p true hit))
      | inr miss ↦ rw miss (
          ap (push c)
            (split-cons_append separator p s (sym (includes-cons separator c p false miss) ∙ h)))
    ]
