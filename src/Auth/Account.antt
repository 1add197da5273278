-- ===== src/Auth/Account.antt =====
-- auth/auth.controller.ts: the routes of an account's API keys. They are behind `AuthGuard` alone.
mod Tests
use mathlib.Core.List.Permᴰ
use mathlib.Core.List.{Memᴰ}
use mini_serverless_cloud_pl.Base.{
  ◌==◌, template, keep_complete, last_mem, mem-map, strip_prefix, mem-Perm, Action, resume, ◌>>=◌,
  ◌>>◌, failure, Result, ok, err, ℕ, String, ◌≡◌, refl, ◌⊎◌, Option, none, some, List, [], ◌∷◌, map,
  arith,
}
use mini_serverless_cloud_pl.Schema.{Database}
use mini_serverless_cloud_pl.Prisma.{new_api_key, Prisma, IsPrisma}
use mini_serverless_cloud_pl.Prisma.Lists.{
  selected, listed_ok, IsOlderKey, ApiKeyInfo, PrismaLists, IsPrismaLists,
}
use mini_serverless_cloud_pl.Functions.{query}
use mini_serverless_cloud_pl.Auth.{
  create_api_key, revoke_api_key, authenticate, AuthenticatedPrincipal, CreateApiKeyDto, NewApiKey,
  Crypto,
}
use mini_serverless_cloud_pl.Auth.Keys.{create_api_key-eq-ok, create_api_key-authenticate}
use mini_serverless_cloud_pl.Auth.Routes.{Presents, Guards, authenticate-Guards}

-- A handler behind `AuthGuard`.
pub account_route :
    {A : Type 0}
    → Prisma
    → Crypto
    → (AuthenticatedPrincipal → Action Database A)
    → ℕ
    → Option String
    → Action Database A
unfolding authenticate
account_route P C handler now header = do p ← authenticate P C now header; handler p

pub list_api_keys : PrismaLists → ℕ → Action Database (List ApiKeyInfo)
list_api_keys L user_id = query (L.api_keys_of user_id)

module _ (P : Prisma) (C : Crypto) where
  -- `POST /auth/api-keys`, `GET /auth/api-keys` and `DELETE /auth/api-keys/:id`.
  pub create_api_key_route :
      String → CreateApiKeyDto → ℕ → Option String → Action Database NewApiKey
  unfolding create_api_key account_route
  create_api_key_route random_hex dto =
      account_route P C (λ p. create_api_key P C random_hex p.user_id dto)

  pub list_api_keys_route : PrismaLists → ℕ → Option String → Action Database (List ApiKeyInfo)
  unfolding list_api_keys account_route
  list_api_keys_route L = account_route P C (λ p. list_api_keys L p.user_id)

  pub revoke_api_key_route : ℕ → ℕ → Option String → Action Database (Unit {0})
  unfolding revoke_api_key account_route
  revoke_api_key_route key_id now =
      account_route P C (λ p. revoke_api_key P C now p.user_id key_id) now

module _ (P : Prisma) (C : Crypto) (real : IsPrisma P) where
  -- A key that the route has made acts for the account whose credentials the request presented as a
  -- bearer token, with
  -- exactly the scopes that the body asks for, whichever scopes those credentials had: they may be a
  -- key of one scope, and the new key have all of them. (Unless the query for the key fails.)
  pub create_api_key_route-authenticate :
      (random_hex : String) (dto : CreateApiKeyDto) (now later : ℕ) (header : Option String)
      (db db' : Database) (made : NewApiKey)
      → create_api_key_route P C random_hex dto now header db ≡ (ok made, db')
      → (h : String) × (token : String) × (p : AuthenticatedPrincipal) × (header ≡ some h)
        × (strip_prefix "Bearer " h ≡ some token)
        × Presents C now db token p
        × (((authenticate P C later (some (template ("Bearer " ∷ made.raw_key ∷ []))) db').0
              ≡ ok (record { user_id = p.user_id; scopes = dto.scopes }))
            ⊎ ((m : String) × ((authenticate P C later
                    (some (template ("Bearer " ∷ made.raw_key ∷ [])))
                    db').0
                  ≡ err (failure m))))
  unfolding create_api_key_route account_route Guards
  create_api_key_route-authenticate random_hex dto now later header db db' made =
      go (authenticate P C now header db) (authenticate-Guards P C real now header db)
    where
      go :
          (r : Result AuthenticatedPrincipal × Database)
          → Guards P C real now db header r
          → resume (λ p. create_api_key P C random_hex p.user_id dto) r ≡ (ok made, db')
          → (h : String) × (token : String) × (p : AuthenticatedPrincipal) × (header ≡ some h)
            × (strip_prefix "Bearer " h ≡ some token)
            × Presents C now db token p
            × (((authenticate P C later (some (template ("Bearer " ∷ made.raw_key ∷ []))) db').0
                  ≡ ok (record { user_id = p.user_id; scopes = dto.scopes }))
                ⊎ ((m : String) × ((authenticate P C later
                        (some (template ("Bearer " ∷ made.raw_key ∷ [])))
                        db').0
                      ≡ err (failure m))))
      go (ok p, db₁) (same, shows) e =
          let (h, token, at, stripped, shown) = shows p refl in
          (
            h,
            token,
            p,
            at,
            stripped,
            shown,
            create_api_key-authenticate P C real random_hex p.user_id later dto db₁ db' made e,
          )
      go (err x, db₁) guards e = absurd (cc)

  -- A key that was made is in the account's next listing that succeeds, with its name and its scopes
  -- and as not revoked.
  pub create_api_key-list_api_keys :
      (L : PrismaLists) (random_hex : String) (user_id : ℕ) (dto : CreateApiKeyDto)
      (db db' db'' : Database) (made : NewApiKey) (infos : List ApiKeyInfo)
      → IsPrismaLists L
      → create_api_key P C random_hex user_id dto db ≡ (ok made, db')
      → list_api_keys L user_id db' ≡ (ok infos, db'')
      → (info : ApiKeyInfo) × Memᴰ info infos
        × (info.name ≡ dto.name)
        × (info.scopes ≡ dto.scopes)
        × (info.revoked_at ≡ none)
  unfolding list_api_keys
  create_api_key-list_api_keys L random_hex user_id dto db db' db'' made infos lists e listed =
      let (raw, (id, at, free, rows)) =
        create_api_key-eq-ok P C real random_hex user_id dto db db' made e in
      let k = new_api_key user_id dto.name dto.scopes (C.sha256 made.raw_key) id at in
      let there : Memᴰ k db'.api_keys = rw rows (last_mem db.api_keys k) in
      let (sorted, perm, order, shown, _) =
        listed_ok (λ r. r.user_id == user_id) IsOlderKey (map selected) db'.api_keys
          (L.api_keys_of user_id db') (lists.lists_api_keys user_id db') listed in
      (
        selected k,
        rw shown (
            mem-map selected (
              mem-Perm (Permᴰ.symm perm)
                (keep_complete (λ r. r.user_id == user_id) there (ground arith)))),
        refl,
        refl,
        refl,
      )
