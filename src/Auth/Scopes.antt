-- ===== src/Auth/Scopes.antt =====
-- auth/guards/scopes.guard.ts: the scopes that a principal has, and those that a route requires.
use mathlib.Core.List.{Memᴰ}
use mini_serverless_cloud_pl.Schema.{ApiScope, functions_read, functions_write, functions_invoke}
use mini_serverless_cloud_pl.Base.{
  Bool-cases, All, any, keep, any_of_mem, ok, ◌≡◌, refl, ◌↔◌, inl, inr, Bool, true, false, not,
  List, [], ◌∷◌, arith,
}
use mini_serverless_cloud_pl.Auth.{same_scope, forbid, authorize, AuthenticatedPrincipal}

-- A scope is granted.
abbrev pub Granted : List ApiScope → ApiScope → Type 0
Granted granted s = Memᴰ s granted

same_scope_refl : (s : ApiScope) → same_scope s s ≡ true
same_scope_refl functions_read = refl
same_scope_refl functions_write = refl
same_scope_refl functions_invoke = refl

same_scope-eq-true : (s t : ApiScope) → same_scope s t ≡ true → s ≡ t
same_scope-eq-true functions_read functions_read e = refl
same_scope-eq-true functions_read functions_write e = cc
same_scope-eq-true functions_read functions_invoke e = cc
same_scope-eq-true functions_write functions_read e = cc
same_scope-eq-true functions_write functions_write e = refl
same_scope-eq-true functions_write functions_invoke e = cc
same_scope-eq-true functions_invoke functions_read e = cc
same_scope-eq-true functions_invoke functions_write e = cc
same_scope-eq-true functions_invoke functions_invoke e = refl

any-Granted :
    (s : ApiScope) (granted : List ApiScope) → any (same_scope s) granted ≡ true → Granted granted s
any-Granted s [] e = absurd (cc)
any-Granted s (t ∷ ts) e = elim (Bool-cases (same_scope s t)) [
  | inl hit ↦ Memᴰ.head (same_scope-eq-true s t hit)
  | inr miss ↦ Memᴰ.tail (any-Granted s ts (ground arith))
]

keep-none : {A : Type 0} (p : A → Bool) (xs : List A) → keep p xs ≡ [] → All (λ x. p x ≡ false) xs
keep-none p [] e = tt
keep-none p (x ∷ xs) e = elim (Bool-cases (p x)) [
  | inl hit ↦ cc (rw hit at e)
  | inr miss ↦ (miss, keep-none p xs (rw miss at e))
]

none-keep : {A : Type 0} (p : A → Bool) (xs : List A) → All (λ x. p x ≡ false) xs → keep p xs ≡ []
none-keep p [] a = refl
none-keep p (x ∷ xs) (miss, a) = rw miss (none-keep p xs a)

All-Granted :
    (granted xs : List ApiScope)
    → All (λ s. not (any (same_scope s) granted) ≡ false) xs
    → All (Granted granted) xs
All-Granted granted [] a = tt
All-Granted granted (x ∷ xs) (h, a) =
    (any-Granted x granted (ground arith), All-Granted granted xs a)

All-not-Granted :
    (granted xs : List ApiScope)
    → All (Granted granted) xs
    → All (λ s. not (any (same_scope s) granted) ≡ false) xs
All-not-Granted granted [] a = tt
All-not-Granted granted (x ∷ xs) (h, a) =
    (rw (any_of_mem (same_scope x) h (same_scope_refl x)) refl, All-not-Granted granted xs a)

forbid-eq-ok : (missing : List ApiScope) → forbid missing ≡ ok tt → missing ≡ []
unfolding forbid
forbid-eq-ok [] e = refl
forbid-eq-ok (s ∷ ss) e = cc

-- A route is open to a principal exactly when each scope that it requires is granted.
pub authorize_iff :
    (required : List ApiScope) (p : AuthenticatedPrincipal)
    → (authorize required p ≡ ok tt) ↔ All (Granted p.scopes) required
unfolding authorize forbid
authorize_iff required p = (
  λ e. All-Granted p.scopes required (keep-none _ required (forbid-eq-ok _ e)),
  λ a.
      rw
        (none-keep (λ s. not (any (same_scope s) p.scopes)) required
          (All-not-Granted p.scopes required a))
        refl,
)
