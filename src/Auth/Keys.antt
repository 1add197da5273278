-- ===== src/Auth/Keys.antt =====
-- API keys: a key that was made is accepted, a key that was revoked is not, and who may revoke one.
use mini_serverless_cloud_pl.Base.{
  ◌==◌, Bool-cases, template, any, find, rewrite_where, find-append, strip_prefix,
  strip_prefix-template, Action, resume, failure, Result, ok, err, ℕ, String, ◌≡◌, refl, sym, ap,
  ◌∙◌, ◌≢◌, ◌⊎◌, inl, inr, Bool, true, false, Option, none, some, List, [], ◌∷◌, ◌++◌, arith,
  eq_refl,
}
use mini_serverless_cloud_pl.Schema.{has_hash, ApiKey, Database}
use mini_serverless_cloud_pl.Prisma.{
  message, unwrap, new_api_key, Finds, Creates, Updates, Answer, done, fail, Prisma, IsPrisma,
}
use mini_serverless_cloud_pl.Auth.{
  revoked, api_key_made, create_api_key, changed, revoke_own, revoke_api_key, use_key,
  validate_api_key, authenticated, by_prefix, principal_of, bearer, authenticate,
  AuthenticatedPrincipal, CreateApiKeyDto, NewApiKey, Crypto,
}

-- A search by another key after the rows that pass a test were rewritten.
find-rewrite :
    {A : Type 0} (p q : A → Bool) (f : A → A) (xs : List A) (a : A)
    → ((x : A) → q (f x) ≡ q x)
    → p a ≡ true
    → find q xs ≡ some a
    → find q (rewrite_where p f xs) ≡ some (f a)
find-rewrite p q f [] a keeps h e = cc
find-rewrite p q f (x ∷ xs) a keeps h e = elim (Bool-cases (q x)) [
  | inl hit ↦
      let same : x ≡ a = cc (rw hit at e) in
      let here : p x ≡ true = rw same h in rw here (rw (keeps x ∙ hit) (rw same))
  | inr miss ↦
      let later = find-rewrite p q f xs a keeps h (rw miss at e) in
      elim (Bool-cases (p x)) [
        | inl changes ↦ rw changes (rw (keeps x ∙ miss) later)
        | inr stays ↦ rw stays (rw miss later)
      ]
]

-- A continuation whose answer does not depend on the state.
pub resume-first :
    {A B : Type 0} (f : Option A → Action Database B) (r s : Result (Option A) × Database)
    → ((o : Option A) (db₁ db₂ : Database) → (f o db₁).0 ≡ (f o db₂).0)
    → r.0 ≡ s.0
    → (resume f r).0 ≡ (resume f s).0
resume-first f (ok a, db₁) (ok b, db₂) same e = let it : a ≡ b = cc in rw it (same b db₁ db₂)
resume-first f (ok a, db₁) (err y, db₂) same e = cc
resume-first f (err x, db₁) (ok b, db₂) same e = cc
resume-first f (err x, db₁) (err y, db₂) same e = cc

module _ (P : Prisma) (C : Crypto) (real : IsPrisma P) where
  -- The revoked or unrevoked row behind a raw key, as `validateApiKey` reads it.
  validate-eq :
      (now : ℕ) (raw_key : String) (db : Database) (k : ApiKey)
      → find (has_hash (C.sha256 raw_key)) db.api_keys ≡ some k
      → ((validate_api_key P C now raw_key db).0 ≡ (use_key P C now (some k) db).0)
        ⊎ ((m : String) × ((validate_api_key P C now raw_key db).0 ≡ err (failure m)))
  unfolding validate_api_key
  validate-eq now raw_key db k hit =
      go (P.api_key_by_hash (C.sha256 raw_key) db) (real.api_key_finds_hash (C.sha256 raw_key) db)
    where
      go :
          (a : Answer (Option ApiKey))
          → Finds (has_hash (C.sha256 raw_key)) db.api_keys a
          → ((resume (use_key P C now) (unwrap a, db)).0 ≡ (use_key P C now (some k) db).0)
            ⊎ ((m : String) × ((resume (use_key P C now) (unwrap a, db)).0 ≡ err (failure m)))
      go (done o) f = inl (ap (λ r. (use_key P C now r db).0) (f ∙ hit))
      go (fail x) f = inr (message x, refl)

  pub create_api_key-eq-ok :
      (random_hex : String) (user_id : ℕ) (dto : CreateApiKeyDto) (db db' : Database)
      (made : NewApiKey)
      → create_api_key P C random_hex user_id dto db ≡ (ok made, db')
      → (made.raw_key ≡ template ("mc_" ∷ random_hex ∷ []))
        × ((id : ℕ) × (at : ℕ) × (any (has_hash (C.sha256 made.raw_key)) db.api_keys ≡ false)
            × (db' ≡ record db {
              api_keys =
                  db.api_keys
                  ++ new_api_key user_id dto.name dto.scopes (C.sha256 made.raw_key) id at ∷ [];
            }))
  unfolding create_api_key api_key_made
  create_api_key-eq-ok random_hex user_id dto db db' made e =
      go _
        (real.api_key_creates user_id dto.name dto.scopes
          (C.sha256 (template ("mc_" ∷ random_hex ∷ []))) db)
        e
    where
      raw : String
      raw = template ("mc_" ∷ random_hex ∷ [])

      go :
          (a : Answer (ApiKey × Database))
          → Creates
              (λ r. r.id)
              (new_api_key user_id dto.name dto.scopes (C.sha256 raw))
              (has_hash (C.sha256 raw))
              db.api_keys
              (λ rows. record db { api_keys = rows })
              a
          → api_key_made P C raw db a ≡ (ok made, db')
          → (made.raw_key ≡ raw)
            × ((id : ℕ) × (at : ℕ) × (any (has_hash (C.sha256 made.raw_key)) db.api_keys ≡ false)
                × (db' ≡ record db {
                  api_keys =
                      db.api_keys
                      ++ new_api_key user_id dto.name dto.scopes (C.sha256 made.raw_key) id at ∷ [];
                }))
      go (done (k, db₁)) (at, same, fresh, free, rows) q =
          let answer : record { id = k.id; name = k.name; scopes = k.scopes; raw_key = raw }
              ≡ made =
            cc in
          let it : raw ≡ made.raw_key = ap (λ m. m.raw_key) answer in
          let there : db₁ ≡ db' = cc in
          rw (← it, ← there)
            (
              refl,
              (
                k.id,
                at,
                free,
                rows ∙ ap (λ r. record db { api_keys = db.api_keys ++ r ∷ [] }) same,
              ),
            )
      go (fail x) c q = cc

  stateless :
      (o : Option AuthenticatedPrincipal) (db₁ db₂ : Database)
      → (authenticated P C o db₁).0 ≡ (authenticated P C o db₂).0
  unfolding authenticated
  stateless none db₁ db₂ = refl
  stateless (some p) db₁ db₂ = refl

  principal_of-key :
      (now : ℕ) (token rest : String)
      → strip_prefix "mc_" token ≡ some rest
      → principal_of P C now token ≡ validate_api_key P C now token
  unfolding principal_of by_prefix
  principal_of-key now token rest prefixed = ap (by_prefix P C now token) prefixed

  pub authenticate-key :
      (now : ℕ) (raw_key rest : String) (db : Database)
      → strip_prefix "mc_" raw_key ≡ some rest
      → authenticate P C now (some (template ("Bearer " ∷ raw_key ∷ []))) db
        ≡ resume (authenticated P C) (validate_api_key P C now raw_key db)
  unfolding authenticate bearer
  authenticate-key now raw_key rest db prefixed =
      rw (strip_prefix-template "Bearer " raw_key)
        (ap (λ m. resume (authenticated P C) (m db)) (principal_of-key now raw_key rest prefixed))

  -- The guard on an API key that has a row.
  authenticate-eq :
      (now : ℕ) (raw_key rest : String) (db : Database) (k : ApiKey)
      → strip_prefix "mc_" raw_key ≡ some rest
      → find (has_hash (C.sha256 raw_key)) db.api_keys ≡ some k
      → ((authenticate P C now (some (template ("Bearer " ∷ raw_key ∷ []))) db).0
          ≡ (resume (authenticated P C) (use_key P C now (some k) db)).0)
        ⊎ ((m : String) × ((authenticate P C now (some (template ("Bearer " ∷ raw_key ∷ []))) db).0
              ≡ err (failure m)))
  authenticate-eq now raw_key rest db k prefixed hit =
      rw (authenticate-key now raw_key rest db prefixed) (elim (validate-eq now raw_key db k hit) [
        | inl read ↦ inl (resume-first (authenticated P C) _ _ stateless read)
        | inr (m, broken) ↦
            inr (m, resume-first (authenticated P C) _ (err (failure m), db) stateless broken)
      ])

  -- A key that was made is accepted by the guard as its account, with the scopes it was made with,
  -- unless the query fails.
  pub create_api_key-authenticate :
      (random_hex : String) (user_id now : ℕ) (dto : CreateApiKeyDto) (db db' : Database)
      (made : NewApiKey)
      → create_api_key P C random_hex user_id dto db ≡ (ok made, db')
      → ((authenticate P C now (some (template ("Bearer " ∷ made.raw_key ∷ []))) db').0
          ≡ ok (record { user_id = user_id; scopes = dto.scopes }))
        ⊎ ((m : String) × ((authenticate P C now
                (some (template ("Bearer " ∷ made.raw_key ∷ [])))
                db').0
              ≡ err (failure m)))
  unfolding authenticated use_key
  create_api_key-authenticate random_hex user_id now dto db db' made e =
      let (raw, (id, at, free, rows)) = create_api_key-eq-ok random_hex user_id dto db db' made e in
      let k : ApiKey = new_api_key user_id dto.name dto.scopes (C.sha256 made.raw_key) id at in
      authenticate-eq now made.raw_key random_hex db' k
        (rw raw (strip_prefix-template "mc_" random_hex))
        (rw rows (
          find-append (has_hash (C.sha256 made.raw_key)) db.api_keys k free
            (eq_refl (C.sha256 made.raw_key))))

  changed-eq-ok :
      (key_id : ℕ) (change : ApiKey → ApiKey) (db db' : Database) (a : Answer Database)
      → Updates (λ k. k.id == key_id) change db.api_keys (λ rows. record db { api_keys = rows }) a
      → changed P C db a ≡ (ok tt, db')
      → db' ≡ record db { api_keys = rewrite_where (λ k. k.id == key_id) change db.api_keys }
  unfolding changed
  changed-eq-ok key_id change db db' (done db₁) (there, e) q =
      let same : db₁ ≡ db' = cc in sym same ∙ e
  changed-eq-ok key_id change db db' (fail x) c q = cc

  -- A key is revoked only by the account that it belongs to, and only that key changes.
  pub revoke_api_key-eq-ok :
      (now user_id key_id : ℕ) (db db' : Database)
      → revoke_api_key P C now user_id key_id db ≡ (ok tt, db')
      → (k : ApiKey) × (find (λ r. r.id == key_id) db.api_keys ≡ some k)
        × (k.user_id ≡ user_id)
        × (db' ≡ record db {
          api_keys = rewrite_where (λ r. r.id == key_id) (revoked now) db.api_keys;
        })
  unfolding revoke_api_key revoke_own
  revoke_api_key-eq-ok now user_id key_id db db' e =
      go (P.api_key_by_id key_id db) (real.api_key_finds key_id db) e
    where
      Revokes : Type 0
      Revokes =
          (k : ApiKey) × (find (λ r. r.id == key_id) db.api_keys ≡ some k)
          × (k.user_id ≡ user_id)
          × (db' ≡ record db {
            api_keys = rewrite_where (λ r. r.id == key_id) (revoked now) db.api_keys;
          })

      go :
          (a : Answer (Option ApiKey))
          → Finds (λ r. r.id == key_id) db.api_keys a
          → resume (revoke_own P C now user_id key_id) (unwrap a, db) ≡ (ok tt, db')
          → Revokes
      go (done none) f q = cc
      go (done (some k)) f q = elim (Bool-cases (k.user_id == user_id)) [
        | inl mine ↦ (
          k,
          sym f,
          ground arith,
          changed-eq-ok key_id (revoked now) db db' _ (real.api_key_updates key_id (revoked now) db)
              (rw mine at q),
        )
        | inr foreign ↦ cc (rw foreign at q)
      ]
      go (fail x) f q = cc

  -- A key that was revoked authenticates nobody from then on.
  pub revoke_api_key-authenticate :
      (now later user_id : ℕ) (raw_key rest : String) (k : ApiKey) (db db' : Database)
      → strip_prefix "mc_" raw_key ≡ some rest
      → find (has_hash (C.sha256 raw_key)) db.api_keys ≡ some k
      → revoke_api_key P C now user_id k.id db ≡ (ok tt, db')
      → (p : AuthenticatedPrincipal)
      → (authenticate P C later (some (template ("Bearer " ∷ raw_key ∷ []))) db').0 ≢ ok p
  unfolding authenticated use_key
  revoke_api_key-authenticate now later user_id raw_key rest k db db' prefixed hit e p accepted =
      let (_, _, _, rows) = revoke_api_key-eq-ok now user_id k.id db db' e in
      let at : find (has_hash (C.sha256 raw_key)) db'.api_keys ≡ some (revoked now k) = rw rows (
        find-rewrite (λ r. r.id == k.id) (has_hash (C.sha256 raw_key)) (revoked now) db.api_keys k
          (λ x. refl) (ground arith) hit) in
      elim (authenticate-eq later raw_key rest db' (revoked now k) prefixed at) [
        | inl refused ↦ cc
        | inr (m, broken) ↦ cc
      ]
