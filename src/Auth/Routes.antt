-- ===== src/Auth/Routes.antt =====
-- Routes: what the guards let through, and what a request that they refuse leaves.
use mini_serverless_cloud_pl.Auth.Scopes.{Granted, authorize_iff}
use mini_serverless_cloud_pl.Base.{
  ◌==◌, Bool-cases, All, find, rewrite_where, strip_prefix, Action, resume, Exception, Result, ok,
  err, ℕ, String, ◌≡◌, refl, sym, ◌⊎◌, inl, inr, Bool, Option, none, some, List, [], ◌∷◌,
}
use mini_serverless_cloud_pl.Schema.{has_hash, ApiScope, ApiKey, Database}
use mini_serverless_cloud_pl.Prisma.{unwrap, Finds, Updates, Answer, done, fail, Prisma, IsPrisma}
use mini_serverless_cloud_pl.Auth.{
  touched, after_touch, use_key, validate_api_key, authenticated, by_prefix, principal_of, bearer,
  authenticate, authorize, guarded_route, AuthenticatedPrincipal, Crypto,
}

-- The keys of two tables, in order: each is as it was, or has been used now.
abbrev pub UsedKeys : ℕ → List ApiKey → List ApiKey → Type 0
UsedKeys now [] [] = Unit
UsedKeys now [] (k ∷ keys) = ⊥
UsedKeys now (k ∷ keys) [] = ⊥
UsedKeys now (k ∷ keys) (k' ∷ keys') =
    ((k' ≡ k) ⊎ (k' ≡ record k { last_used_at = some now })) × UsedKeys now keys keys'

UsedKeys-refl : (now : ℕ) (keys : List ApiKey) → UsedKeys now keys keys
UsedKeys-refl now [] = tt
UsedKeys-refl now (k ∷ keys) = (inl refl, UsedKeys-refl now keys)

rewrite_where-UsedKeys :
    (now : ℕ) (test : ApiKey → Bool) (keys : List ApiKey)
    → UsedKeys now keys (rewrite_where test (touched now) keys)
rewrite_where-UsedKeys now test [] = tt
rewrite_where-UsedKeys now test (k ∷ keys) = elim (Bool-cases (test k)) [
  | inl hit ↦ rw hit (inr refl, rewrite_where-UsedKeys now test keys)
  | inr miss ↦ rw miss (inl refl, rewrite_where-UsedKeys now test keys)
]

-- What a request may do before its handler: mark keys as used at this time, and nothing else.
abbrev pub SameButKeys : ℕ → Database → Database → Type 0
SameButKeys now db db' =
    (keys : List ApiKey) × UsedKeys now db.api_keys keys × (db' ≡ record db { api_keys = keys })

-- The credentials behind a principal: an API key that is not revoked, or a JWT that verifies.
abbrev pub Presents : Crypto → ℕ → Database → String → AuthenticatedPrincipal → Type 0
Presents C now db token p =
    ((k : ApiKey) × (find (has_hash (C.sha256 token)) db.api_keys ≡ some k)
      × (k.revoked_at ≡ none)
      × (p ≡ record { user_id = k.user_id; scopes = k.scopes }))
    ⊎ (C.verify now token ≡ some p)

module _ (P : Prisma) (C : Crypto) (real : IsPrisma P) (now : ℕ) where
  after_touch-SameButKeys :
      (id : ℕ) (db : Database)
      → SameButKeys now db (after_touch P C db (P.api_key_update id (touched now) db))
  unfolding after_touch
  after_touch-SameButKeys id db = go _ (real.api_key_updates id (touched now) db)
    where
      go :
          (a : Answer Database)
          → Updates
              (λ k. k.id == id)
              (touched now)
              db.api_keys
              (λ rows. record db { api_keys = rows })
              a
          → SameButKeys now db (after_touch P C db a)
      go (done db') (there, e) = (_, rewrite_where-UsedKeys now (λ k. k.id == id) db.api_keys, e)
      go (fail x) c = (db.api_keys, UsedKeys-refl now db.api_keys, refl)

  validate_api_key-SameButKeys :
      (raw_key : String) (db : Database)
      → SameButKeys now db (validate_api_key P C now raw_key db).1
        × ((p : AuthenticatedPrincipal)
            → (validate_api_key P C now raw_key db).0 ≡ ok (some p)
            → Presents C now db raw_key p)
  unfolding validate_api_key use_key
  validate_api_key-SameButKeys raw_key db =
      go (P.api_key_by_hash (C.sha256 raw_key) db) (real.api_key_finds_hash (C.sha256 raw_key) db)
    where
      Keeps : Result (Option AuthenticatedPrincipal) × Database → Type 0
      Keeps r =
          SameButKeys now db r.1
          × ((p : AuthenticatedPrincipal) → r.0 ≡ ok (some p) → Presents C now db raw_key p)

      used :
          (k : ApiKey)
          → find (has_hash (C.sha256 raw_key)) db.api_keys ≡ some k
          → (t : Option ℕ) → k.revoked_at ≡ t
          → Keeps (elim t [
            | some _ ↦ (ok none, db)
            | none ↦ (
              ok (some (record { user_id = k.user_id; scopes = k.scopes })),
              after_touch P C db (P.api_key_update k.id (touched now) db),
            )
          ])
      used k f (some t) e = ((db.api_keys, UsedKeys-refl now db.api_keys, refl), λ p q. cc)
      used k f none e = (after_touch-SameButKeys k.id db, λ p q. inl (k, f, e, sym (answer p q)))
        where
          answer :
              (p : AuthenticatedPrincipal)
              → ok (some (record { user_id = k.user_id; scopes = k.scopes })) ≡ ok (some p)
              → record { user_id = k.user_id; scopes = k.scopes } ≡ p
          answer p q = cc

      go :
          (a : Answer (Option ApiKey))
          → Finds (has_hash (C.sha256 raw_key)) db.api_keys a
          → Keeps (resume (use_key P C now) (unwrap a, db))
      go (done none) f = ((db.api_keys, UsedKeys-refl now db.api_keys, refl), λ p q. cc)
      go (done (some k)) f = used k (sym f) k.revoked_at refl
      go (fail x) f = ((db.api_keys, UsedKeys-refl now db.api_keys, refl), λ p q. cc)

  -- The guard: what it changes, and whom it lets through.
  unfoldable pub Guards :
      Database → Option String → Result AuthenticatedPrincipal × Database → Type 0
  Guards db header r =
      SameButKeys now db r.1
      × ((p : AuthenticatedPrincipal)
          → r.0 ≡ ok p
          → (h : String) × (token : String) × (header ≡ some h)
            × (strip_prefix "Bearer " h ≡ some token)
            × Presents C now db token p)

  principal_of-SameButKeys :
      (token : String) (db : Database)
      → SameButKeys now db (principal_of P C now token db).1
        × ((p : AuthenticatedPrincipal)
            → (principal_of P C now token db).0 ≡ ok (some p)
            → Presents C now db token p)
  unfolding principal_of
  principal_of-SameButKeys token db = go (strip_prefix "mc_" token)
    where
      go :
          (o : Option String)
          → SameButKeys now db (by_prefix P C now token o db).1
            × ((p : AuthenticatedPrincipal)
                → (by_prefix P C now token o db).0 ≡ ok (some p)
                → Presents C now db token p)
      go none = ((db.api_keys, UsedKeys-refl now db.api_keys, refl), λ p q. inr (cc))
      go (some rest) = validate_api_key-SameButKeys token db

  bearer-Guards :
      (header : String) (db : Database) (o : Option String)
      → strip_prefix "Bearer " header ≡ o
      → Guards db (some header) (bearer P C now o db)
  unfolding bearer authenticated Guards
  bearer-Guards header db none e = ((db.api_keys, UsedKeys-refl now db.api_keys, refl), λ p q. cc)
  bearer-Guards header db (some token) e =
      go (principal_of P C now token db) (principal_of-SameButKeys token db)
    where
      go :
          (r : Result (Option AuthenticatedPrincipal) × Database)
          → SameButKeys now db r.1
            × ((p : AuthenticatedPrincipal) → r.0 ≡ ok (some p) → Presents C now db token p)
          → Guards db (some header) (resume (authenticated P C) r)
      go (ok none, db₁) (same, shows) = (same, λ p q. cc)
      go (ok (some p), db₁) (same, shows) =
          (same, λ p' q. (header, token, refl, e, shows p' (let it : p ≡ p' = cc in rw it refl)))
      go (err x, db₁) (same, shows) = (same, λ p q. cc)

  pub authenticate-Guards :
      (header : Option String) (db : Database) → Guards db header (authenticate P C now header db)
  unfolding authenticate bearer Guards
  authenticate-Guards none db = ((db.api_keys, UsedKeys-refl now db.api_keys, refl), λ p q. cc)
  authenticate-Guards (some header) db =
      bearer-Guards header db (strip_prefix "Bearer " header) refl

  -- A route behind the guards: its handler runs, once, for a principal whose credentials the request
  -- presents as a bearer token and who has every scope that the route requires, or the request is
  -- refused; before the handler, or with the refusal, the database changes at most in the `lastUsedAt`
  -- of keys, which becomes the time of the request.
  pub guarded_route-cases :
      {A : Type 0} (required : List ApiScope) (handler : AuthenticatedPrincipal → Action Database A)
      (header : Option String) (db : Database)
      → ((h : String) × (token : String) × (p : AuthenticatedPrincipal) × (db₁ : Database) × (header
            ≡ some h)
          × (strip_prefix "Bearer " h ≡ some token)
          × Presents C now db token p
          × All (Granted p.scopes) required
          × SameButKeys now db db₁
          × (guarded_route P C required handler now header db ≡ handler p db₁))
        ⊎ ((x : Exception) × (db₁ : Database) × SameButKeys now db db₁
            × (guarded_route P C required handler now header db ≡ (err x, db₁)))
  unfolding guarded_route Guards
  guarded_route-cases {A} required handler header db =
      go (authenticate P C now header db) (authenticate-Guards header db)
    where
      Routes : Result A × Database → Type 0
      Routes r =
          ((h : String) × (token : String) × (p : AuthenticatedPrincipal) × (db₁ : Database)
            × (header ≡ some h)
            × (strip_prefix "Bearer " h ≡ some token)
            × Presents C now db token p
            × All (Granted p.scopes) required
            × SameButKeys now db db₁
            × (r ≡ handler p db₁))
          ⊎ ((x : Exception) × (db₁ : Database) × SameButKeys now db db₁ × (r ≡ (err x, db₁)))

      decided :
          (p : AuthenticatedPrincipal) (db₁ : Database)
          → SameButKeys now db db₁
          → ((h : String) × (token : String) × (header ≡ some h)
              × (strip_prefix "Bearer " h ≡ some token)
              × Presents C now db token p)
          → (a : Result (Unit {0})) → authorize required p ≡ a
          → Routes (resume (λ _. handler p) (a, db₁))
      decided p db₁ same (h, token, at, stripped, shown) (ok tt) e =
          inl (h, token, p, db₁, at, stripped, shown, (authorize_iff required p).0 e, same, refl)
      decided p db₁ same shown (err x) e = inr (x, db₁, same, refl)

      go :
          (r : Result AuthenticatedPrincipal × Database)
          → Guards db header r
          → Routes (resume (λ p db₁. resume (λ _. handler p) (authorize required p, db₁)) r)
      go (ok p, db₁) (same, shows) = decided p db₁ same (shows p refl) (authorize required p) refl
      go (err x, db₁) (same, shows) = inr (x, db₁, same, refl)
