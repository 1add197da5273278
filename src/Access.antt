-- ===== src/Access.antt =====
-- functions/functions.controller.ts with its guards: the requests that may change an account's functions,
-- each with the scope that its route requires.
pub mod Isolation
mod Tests
use mini_serverless_cloud_pl.Base.{Action, ok, ℕ, String, Option, List, [], ◌∷◌}
use mini_serverless_cloud_pl.Schema.{ApiScope, functions_write, functions_invoke, Database}
use mini_serverless_cloud_pl.Prisma.{Prisma}
use mini_serverless_cloud_pl.Functions.History.{serve, Request}
use mini_serverless_cloud_pl.Auth.{guarded_route, AuthenticatedPrincipal, Crypto}

-- The `@RequireScopes` of the routes.
abbrev pub scopes_for : {V : Type 0} → Request V → List ApiScope
scopes_for (Request.registers dto) = functions_write ∷ []
scopes_for (Request.removes name) = functions_write ∷ []
scopes_for (Request.invokes s name event) = functions_invoke ∷ []

module _ (P : Prisma) (C : Crypto) {V : Type 0} where
  -- The handler of a route, for the principal that the guard has attached; what it answers is left out.
  abbrev pub handler_for : Request V → AuthenticatedPrincipal → Action Database (Unit {0})
  handler_for r p db = (ok tt, serve P (p.user_id, r) db)

  -- The database after a request with an `Authorization` header.
  pub receive : ℕ → Option String → Request V → Database → Database
  unfolding guarded_route serve
  receive now header r db = (guarded_route P C (scopes_for r) (handler_for r) now header db).1
