-- ===== src/Auth.antt =====
-- auth/auth.service.ts, auth/guards/auth.guard.ts and auth/guards/scopes.guard.ts, and the lifetime of
-- a token in auth/auth.module.ts: accounts, sessions and API keys. bcrypt, SHA-256 and the JWT library
-- are parameters.
pub mod Keys
pub mod Scopes
pub mod Routes
pub mod Sessions
pub mod Account
mod Tests
use mini_serverless_cloud_pl.Base.{
  ◌==◌, if◌then◌else◌, template, any, keep, show, strip_prefix, Action, ◌>>=◌, ◌>>◌, return, throw,
  Exception, unauthorized, forbidden, not_found, conflict, failure, Result, ok, err, ℕ, String,
  Bool, true, false, not, Option, none, some, List, [], ◌∷◌,
}
use mini_serverless_cloud_pl.Schema.{
  ApiScope, functions_read, functions_write, functions_invoke, User, ApiKey, Database,
}
use mini_serverless_cloud_pl.Prisma.{message, p2002, p2025, other, Answer, done, fail, Prisma}
use mini_serverless_cloud_pl.Functions.{query, required}

pub record AuthenticatedPrincipal : Type 0 where
  pub user_id : ℕ
  pub scopes : List ApiScope

pub record Credentials : Type 0 where
  pub email : String
  pub password : String

pub record CreateApiKeyDto : Type 0 where
  pub name : String
  pub scopes : List ApiScope

-- What `createApiKey` answers: the raw key, once.
pub record NewApiKey : Type 0 where
  pub id : ℕ
  pub name : String
  pub scopes : List ApiScope
  pub raw_key : String

-- The libraries. `sign` is given a lifetime in seconds and the clock, `verify` the clock: it throws
-- (`none`) for a token that is expired, malformed or of another secret.
pub record Crypto : Type 0 where
  pub bcrypt_hash : String → Result String
  pub bcrypt_compare : String → String → Bool
  pub sha256 : String → String
  pub sign : ℕ → ℕ → AuthenticatedPrincipal → String
  pub verify : ℕ → String → Option AuthenticatedPrincipal

-- `expiresIn: '2h'`, in seconds.
abbrev pub token_lifetime : ℕ
token_lifetime = 7200

abbrev pub all_scopes : List ApiScope
all_scopes = functions_read ∷ functions_write ∷ functions_invoke ∷ []

abbrev pub scope_name : ApiScope → String
scope_name functions_read = "functions:read"
scope_name functions_write = "functions:write"
scope_name functions_invoke = "functions:invoke"

abbrev pub same_scope : ApiScope → ApiScope → Bool
same_scope functions_read functions_read = true
same_scope functions_write functions_write = true
same_scope functions_invoke functions_invoke = true
same_scope _ _ = false

abbrev pub revoked : ℕ → ApiKey → ApiKey
revoked now k = record k { revoked_at = some now }

abbrev pub touched : ℕ → ApiKey → ApiKey
touched now k = record k { last_used_at = some now }

module _ (P : Prisma) (C : Crypto) where
  signed_up : String → Database → Answer (User × Database) → Result ℕ × Database
  signed_up email db (done (u, db')) = (ok u.id, db')
  signed_up email db (fail (p2002 m)) = (
    err (conflict (template ("An account with email \"" ∷ email ∷ "\" already exists" ∷ []))),
    db,
  )
  signed_up email db (fail (p2025 m)) = (err (failure m), db)
  signed_up email db (fail (other m)) = (err (failure m), db)

  -- `AuthService.register`.
  pub sign_up : Credentials → Action Database ℕ
  unfolding signed_up
  sign_up dto = do
    password_hash ← λ db. (C.bcrypt_hash dto.password, db)
    λ db. signed_up dto.email db (P.user_create dto.email password_hash db)

  -- The same error for an email that is unknown and for a wrong password.
  admitted : ℕ → String → Option User → Action Database String
  admitted now password none = throw (unauthorized "Invalid email or password")
  admitted now password (some u) =
      if C.bcrypt_compare password u.password_hash
      then return (C.sign token_lifetime now (record { user_id = u.id; scopes = all_scopes }))
      else throw (unauthorized "Invalid email or password")

  pub login : ℕ → Credentials → Action Database String
  unfolding admitted
  login now dto = do found ← query (P.user_by_email dto.email); admitted now dto.password found

  pub api_key_made : String → Database → Answer (ApiKey × Database) → Result NewApiKey × Database
  api_key_made raw_key db (done (k, db')) =
      (ok (record { id = k.id; name = k.name; scopes = k.scopes; raw_key = raw_key }), db')
  api_key_made raw_key db (fail x) = (err (failure (message x)), db)

  -- `random_hex` is `randomBytes(24).toString('hex')`.
  pub create_api_key : String → ℕ → CreateApiKeyDto → Action Database NewApiKey
  unfolding api_key_made
  create_api_key random_hex user_id dto db =
      let raw_key = template ("mc_" ∷ random_hex ∷ []) in
      api_key_made raw_key db (P.api_key_create user_id dto.name dto.scopes (C.sha256 raw_key) db)

  pub changed : Database → Answer Database → Result (Unit {0}) × Database
  changed db (done db') = (ok tt, db')
  changed db (fail x) = (err (failure (message x)), db)

  no_key : ℕ → Exception
  no_key key_id = not_found (template ("API key \"" ∷ show key_id ∷ "\" not found" ∷ []))

  -- Not found and another account's are the same 404.
  pub revoke_own : ℕ → ℕ → ℕ → Option ApiKey → Action Database (Unit {0})
  unfolding changed no_key
  revoke_own now user_id key_id none db = (err (no_key key_id), db)
  revoke_own now user_id key_id (some k) db =
      if k.user_id == user_id
      then changed db (P.api_key_update key_id (revoked now) db)
      else (err (no_key key_id), db)

  pub revoke_api_key : ℕ → ℕ → ℕ → Action Database (Unit {0})
  unfolding revoke_own
  revoke_api_key now user_id key_id = do
    found ← query (P.api_key_by_id key_id)
    revoke_own now user_id key_id found

  -- The update of `lastUsedAt` is not awaited, and its failure is ignored.
  unfoldable pub after_touch : Database → Answer Database → Database
  after_touch db (done db') = db'
  after_touch db (fail x) = db

  unfoldable pub use_key : ℕ → Option ApiKey → Action Database (Option AuthenticatedPrincipal)
  unfolding after_touch
  use_key now none db = (ok none, db)
  use_key now (some k) db = elim k.revoked_at [
    | some t ↦ (ok none, db)
    | none ↦ (
      ok (some (record { user_id = k.user_id; scopes = k.scopes })),
      after_touch db (P.api_key_update k.id (touched now) db),
    )
  ]

  unfoldable pub validate_api_key : ℕ → String → Action Database (Option AuthenticatedPrincipal)
  unfolding use_key
  validate_api_key now raw_key = do
    found ← query (P.api_key_by_hash (C.sha256 raw_key))
    use_key now found

  unfoldable pub authenticated :
      Option AuthenticatedPrincipal → Action Database AuthenticatedPrincipal
  authenticated none = throw (unauthorized "Invalid or revoked credentials")
  authenticated (some p) = return p

  -- An API key by its prefix, any other token as a JWT.
  unfoldable pub by_prefix :
      ℕ → String → Option String → Action Database (Option AuthenticatedPrincipal)
  unfolding validate_api_key
  by_prefix now token (some _) = validate_api_key now token
  by_prefix now token none = return (C.verify now token)

  unfoldable pub principal_of : ℕ → String → Action Database (Option AuthenticatedPrincipal)
  unfolding by_prefix
  principal_of now token = by_prefix now token (strip_prefix "mc_" token)

  unfoldable pub bearer : ℕ → Option String → Action Database AuthenticatedPrincipal
  unfolding principal_of authenticated
  bearer now none = throw (unauthorized "Missing or malformed Authorization header")
  bearer now (some token) = do p ← principal_of now token; authenticated p

  -- `AuthGuard.canActivate`, with the `Authorization` header: the principal that it attaches.
  unfoldable pub authenticate : ℕ → Option String → Action Database AuthenticatedPrincipal
  unfolding bearer
  authenticate now none = bearer now none
  authenticate now (some header) = bearer now (strip_prefix "Bearer " header)

-- `join(', ')`.
pub joined : List ApiScope → String
joined [] = ""
joined (s ∷ []) = scope_name s
joined (s ∷ t ∷ ss) = template (scope_name s ∷ ", " ∷ joined (t ∷ ss) ∷ [])

-- `ScopesGuard.canActivate`, with the scopes that the route requires.
unfoldable pub forbid : List ApiScope → Result (Unit {0})
unfolding joined
forbid [] = ok tt
forbid (s ∷ ss) = err (forbidden (template ("Missing required scope(s): " ∷ joined (s ∷ ss) ∷ [])))

unfoldable pub authorize : List ApiScope → AuthenticatedPrincipal → Result (Unit {0})
unfolding forbid
authorize required p = forbid (keep (λ s. not (any (same_scope s) p.scopes)) required)

-- A route behind both guards.
unfoldable pub guarded_route :
    {A : Type 0}
    → Prisma
    → Crypto
    → List ApiScope
    → (AuthenticatedPrincipal → Action Database A)
    → ℕ
    → Option String
    → Action Database A
unfolding authenticate authorize
guarded_route P C required handler now header = do
  p ← authenticate P C now header
  λ db. (authorize required p, db)
  handler p
