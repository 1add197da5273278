-- ===== src/Auth/Tests.antt =====
-- Accounts and keys at concrete tables: one account, a key for invocations, and toy cryptography.
use Prim.Native.Char.{code}
use mini_serverless_cloud_pl.Auth.Scopes.{Granted}
use mini_serverless_cloud_pl.Base.{
  ltb, ◌==◌, if◌then◌else◌, template, All, find, strip_prefix, Action, Exception, ok, err, ℕ, ◌+◌,
  ◌/◌, String, ◌≡◌, refl, ap, ◌∙◌, ◌≢◌, ◌⊎◌, true, Option, none, some, List, [], ◌∷◌, str_eq,
}
use mini_serverless_cloud_pl.Schema.{
  has_email, ApiScope, functions_read, functions_write, functions_invoke, User, ApiKey, Database,
}
use mini_serverless_cloud_pl.Prisma.{new_user, new_api_key}
use mini_serverless_cloud_pl.Samples.{unary, count_unary, count_unary-unary}
use mini_serverless_cloud_pl.Prisma.Memory.{update, memory, memory-IsPrisma}
use mini_serverless_cloud_pl.Auth.{
  all_scopes, login, changed, revoke_own, revoke_api_key, authenticate, guarded_route,
  AuthenticatedPrincipal, CreateApiKeyDto, Crypto, admitted,
}
use mini_serverless_cloud_pl.Auth.Keys.{revoke_api_key-authenticate}
use mini_serverless_cloud_pl.Auth.Routes.{SameButKeys, Presents, guarded_route-cases}
use mini_serverless_cloud_pl.Auth.Sessions.{IsSigner, session_of, login-authenticate}

abbrev session : AuthenticatedPrincipal
session = record { user_id = 1; scopes = all_scopes }

abbrev crypto : Crypto
crypto = record {
  bcrypt_hash = λ s. ok s;
  bcrypt_compare = λ s t. str_eq s t;
  sha256 = λ s. s;
  sign = λ lifetime now p. "eyJ";
  verify = λ now t. none;
}

abbrev alice : User
alice = new_user "a@example.com" "correct horse" 1 0

abbrev key : ApiKey
key = new_api_key 1 "ci" (functions_invoke ∷ []) "mc_00" 0 0

abbrev tables : Database
tables = record {
  users = alice ∷ [];
  api_keys = [];
  functions = [];
  versions = [];
  builds = [];
  invocations = [];
}

abbrev with_key : Database
with_key = record tables { api_keys = key ∷ [] }

abbrev dto : CreateApiKeyDto
dto = record { name = "ci"; scopes = functions_invoke ∷ [] }

abbrev without_key : Database
without_key = record tables { api_keys = record key { revoked_at = some 3 } ∷ [] }

revoke_api_key-authenticate_example :
    (authenticate memory crypto 9 (some "Bearer mc_00") without_key).0
    ≢ ok (record { user_id = 1; scopes = functions_invoke ∷ [] })
unfolding memory revoke_api_key revoke_own changed update strip_prefix
revoke_api_key-authenticate_example =
    revoke_api_key-authenticate memory crypto memory-IsPrisma 3 9 1 "mc_00" "00" key with_key
      without_key refl refl refl (record { user_id = 1; scopes = functions_invoke ∷ [] })

abbrev greet : AuthenticatedPrincipal → Action Database ℕ
greet p db = (ok p.user_id, db)

guarded_route-cases_example :
    ((h : String) × (token : String) × (p : AuthenticatedPrincipal) × (db₁ : Database) × (some
          "Bearer mc_00"
        ≡ some h)
      × (strip_prefix "Bearer " h ≡ some token)
      × Presents crypto 4 with_key token p
      × All (Granted p.scopes) (functions_invoke ∷ [])
      × SameButKeys 4 with_key db₁
      × (guarded_route memory crypto (functions_invoke ∷ []) greet 4 (some "Bearer mc_00") with_key
          ≡ greet p db₁))
    ⊎ ((x : Exception) × (db₁ : Database) × SameButKeys 4 with_key db₁
        × (guarded_route memory crypto
              (functions_invoke ∷ [])
              greet
              4
              (some "Bearer mc_00")
              with_key
            ≡ (err x, db₁)))
guarded_route-cases_example =
    guarded_route-cases memory crypto memory-IsPrisma 4 (functions_invoke ∷ []) greet
      (some "Bearer mc_00") with_key

-- A token that holds the account and the scopes.
letters : List ApiScope → String
letters [] = ""
letters (functions_read ∷ ss) = String.◌∷◌ "r" (letters ss)
letters (functions_write ∷ ss) = String.◌∷◌ "w" (letters ss)
letters (functions_invoke ∷ ss) = String.◌∷◌ "i" (letters ss)

scopes_of : String → List ApiScope
scopes_of String.[] = []
scopes_of (String.◌∷◌ c s) =
    let rest = scopes_of s in
    if code c == 114
    then functions_read ∷ rest
    else if code c == 119
    then functions_write ∷ rest
    else functions_invoke ∷ rest

scopes_of-letters : (ss : List ApiScope) → scopes_of (letters ss) ≡ ss
unfolding scopes_of letters
scopes_of-letters [] = refl
scopes_of-letters (functions_read ∷ ss) = ap (λ r. functions_read ∷ r) (scopes_of-letters ss)
scopes_of-letters (functions_write ∷ ss) = ap (λ r. functions_write ∷ r) (scopes_of-letters ss)
scopes_of-letters (functions_invoke ∷ ss) = ap (λ r. functions_invoke ∷ r) (scopes_of-letters ss)

-- It starts with the second at which it expires.
token_for : ℕ → ℕ → AuthenticatedPrincipal → String
unfolding letters
token_for lifetime issued p =
    String.◌∷◌ "e" (unary (issued / 1000 + lifetime) (unary p.user_id (letters p.scopes)))

principal_from : Option (ℕ × String) → Option AuthenticatedPrincipal
unfolding scopes_of
principal_from none = none
principal_from (some (id, s)) = some (record { user_id = id; scopes = scopes_of s })

unexpired : ℕ → Option (ℕ × String) → Option AuthenticatedPrincipal
unfolding principal_from
unexpired now none = none
unexpired now (some (expiry, s)) =
    if ltb (now / 1000) expiry then principal_from (count_unary s) else none

read_token : ℕ → String → Option AuthenticatedPrincipal
unfolding unexpired
read_token now String.[] = none
read_token now (String.◌∷◌ c s) = unexpired now (count_unary s)

abbrev signer : Crypto
signer = record crypto { sign = token_for; verify = read_token }

principal_from-count_unary :
    (p : AuthenticatedPrincipal)
    → principal_from (count_unary (unary p.user_id (letters p.scopes))) ≡ some p
unfolding principal_from
principal_from-count_unary p =
    ap principal_from (count_unary-unary p.user_id (letters p.scopes))
    ∙ ap (λ ss. some (record { user_id = p.user_id; scopes = ss })) (scopes_of-letters p.scopes)

signer-IsSigner : IsSigner signer
unfolding token_for read_token unexpired strip_prefix
signer-IsSigner lifetime issued now p = (
  ap (unexpired now)
        (count_unary-unary (issued / 1000 + lifetime) (unary p.user_id (letters p.scopes)))
      ∙ ap (λ o. if ltb (now / 1000) (issued / 1000 + lifetime) then o else none)
          (principal_from-count_unary p),
  refl,
)

-- The last millisecond of the two hours.
login-authenticate_example :
    (u : User) × (find (has_email "a@example.com") tables.users ≡ some u)
    × (signer.bcrypt_compare "correct horse" u.password_hash ≡ true)
    × (authenticate memory signer 7200999
          (some (template ("Bearer " ∷ token_for 7200 1500 session ∷ [])))
          tables
        ≡ (ok (session_of u), tables))
unfolding memory login admitted
login-authenticate_example =
    login-authenticate memory signer memory-IsPrisma signer-IsSigner
      (record { email = "a@example.com"; password = "correct horse" }) 1500 7200999 tables tables
      (token_for 7200 1500 session) refl
