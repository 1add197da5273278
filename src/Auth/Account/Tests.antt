-- ===== src/Auth/Account/Tests.antt =====
-- A key for invocations only, with which a key of all scopes is made.
use mini_serverless_cloud_pl.Base.{
  strip_prefix, failure, ok, err, String, ◌≡◌, refl, ◌⊎◌, none, some, List, [], ◌∷◌, str_eq,
}
use mini_serverless_cloud_pl.Schema.{functions_invoke, ApiKey, Database}
use mini_serverless_cloud_pl.Prisma.{new_api_key}
use mini_serverless_cloud_pl.Prisma.Memory.{fresh_id, create, update, memory, memory-IsPrisma}
use mini_serverless_cloud_pl.Prisma.Lists.{selected, ApiKeyInfo}
use mini_serverless_cloud_pl.Auth.{
  all_scopes, api_key_made, create_api_key, after_touch, use_key, validate_api_key, authenticated,
  by_prefix, principal_of, bearer, authenticate, AuthenticatedPrincipal, CreateApiKeyDto, NewApiKey,
  Crypto,
}
use mini_serverless_cloud_pl.Auth.Routes.{Presents}
use mini_serverless_cloud_pl.Auth.Account.{
  account_route, create_api_key_route, create_api_key_route-authenticate,
}

abbrev crypto : Crypto
crypto = record {
  bcrypt_hash = λ s. ok s;
  bcrypt_compare = λ s t. str_eq s t;
  sha256 = λ s. s;
  sign = λ lifetime now p. "eyJ";
  verify = λ now t. none;
}

abbrev key : ApiKey
key = new_api_key 1 "ci" (functions_invoke ∷ []) "mc_00" 0 0

abbrev tables : Database
tables = record {
  users = [];
  api_keys = key ∷ [];
  functions = [];
  versions = [];
  builds = [];
  invocations = [];
}

abbrev dto : CreateApiKeyDto
dto = record { name = "mine"; scopes = all_scopes }

abbrev new_key : NewApiKey
new_key = record { id = 1; name = "mine"; scopes = all_scopes; raw_key = "mc_11" }

abbrev with_both : Database
with_both = record tables {
  api_keys =
      record key { last_used_at = some 4 } ∷ new_api_key 1 "mine" all_scopes "mc_11" 1 0 ∷ [];
}

create_api_key_route-authenticate_example :
    (h : String) × (token : String) × (p : AuthenticatedPrincipal) × (some "Bearer mc_00" ≡ some h)
    × (strip_prefix "Bearer " h ≡ some token)
    × Presents crypto 4 tables token p
    × (((authenticate memory crypto 9 (some "Bearer mc_11") with_both).0
          ≡ ok (record { user_id = p.user_id; scopes = all_scopes }))
        ⊎ ((m : String) × ((authenticate memory crypto 9 (some "Bearer mc_11") with_both).0
              ≡ err (failure m))))
unfolding memory create_api_key_route account_route authenticate bearer principal_of by_prefix
    strip_prefix validate_api_key use_key after_touch authenticated create_api_key api_key_made
    create update fresh_id
create_api_key_route-authenticate_example =
    create_api_key_route-authenticate memory crypto memory-IsPrisma "11" dto 4 9
      (some "Bearer mc_00") tables with_both new_key refl

abbrev made_only : Database
made_only = record tables { api_keys = key ∷ new_api_key 1 "mine" all_scopes "mc_11" 1 0 ∷ [] }

abbrev infos : List ApiKeyInfo
infos = selected key ∷ selected (new_api_key 1 "mine" all_scopes "mc_11" 1 0) ∷ []
