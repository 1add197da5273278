-- ===== src/Access/Isolation.antt =====
-- Whose credentials a change needs.
use mini_serverless_cloud_pl.Auth.Scopes.{Granted}
use mini_serverless_cloud_pl.Base.{
  ◌==◌, Bool-cases, All, strip_prefix, ℕ, String, ◌≡◌, ap, ◌∙◌, ◌≢◌, inl, inr, false, Option, some,
  [], ◌∷◌, arith,
}
use mini_serverless_cloud_pl.Schema.{Database}
use mini_serverless_cloud_pl.Prisma.{Prisma, IsPrisma}
use mini_serverless_cloud_pl.Functions.Tenancy.{owned}
use mini_serverless_cloud_pl.Functions.History.{serve, serve_all, serve_all-owned, Request}
use mini_serverless_cloud_pl.Auth.{AuthenticatedPrincipal, Crypto}
use mini_serverless_cloud_pl.Auth.Routes.{Presents, guarded_route-cases}
use mini_serverless_cloud_pl.Access.{scopes_for, handler_for, receive}

-- The request presents, as a bearer token, credentials of an account with the scopes of the route.
abbrev pub IsAuthorized :
    Crypto → ℕ → {V : Type 0} → Option String → Request V → ℕ → Database → Type 0
IsAuthorized C now header r v db =
    (h : String) × (token : String) × (p : AuthenticatedPrincipal) × (header ≡ some h)
    × (strip_prefix "Bearer " h ≡ some token)
    × Presents C now db token p
    × (p.user_id ≡ v)
    × All (Granted p.scopes) (scopes_for r)

-- The functions of an account are changed only by a request that presents credentials of that very
-- account, an API key that is not revoked or a token that verifies, with the scope that the route
-- requires.
pub receive-IsAuthorized :
    (P : Prisma) (C : Crypto) {V : Type 0}
    → IsPrisma P
    → (now : ℕ) (header : Option String) (r : Request V) (db : Database) (v : ℕ)
    → owned v (receive P C now header r db).functions ≢ owned v db.functions
    → IsAuthorized C now header r v db
unfolding receive serve_all
receive-IsAuthorized P C real now header r db v changes =
    elim (guarded_route-cases P C real now (scopes_for r) (handler_for P C r) header db) [
      | inl (h, token, p, db₁, at, stripped, shown, granted, (keys, _, same), e) ↦
          elim (Bool-cases (p.user_id == v)) [
            | inl mine ↦ (h, token, p, at, stripped, shown, ground arith, granted)
            | inr foreign ↦
                let kept : owned v (serve P (p.user_id, r) db₁).functions ≡ owned v db₁.functions =
                  serve_all-owned P real v ((p.user_id, r) ∷ []) db₁ (other foreign, tt) in
                absurd (
                  changes
                    (ap (λ q. owned v q.1.functions) e ∙ kept ∙ ap (λ d. owned v d.functions) same))
          ]
      | inr (x, db₁, (keys, _, same), e) ↦
          absurd (changes (ap (λ q. owned v q.1.functions) e ∙ ap (λ d. owned v d.functions) same))
    ]
  where
    other : {a : ℕ} → (a == v) ≡ false → a ≢ v
    other {a} f e = ground arith
