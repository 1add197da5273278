-- ===== src/Prisma.antt =====
-- The Prisma client and the PostgreSQL server behind it, which the code only calls: each query that
-- the services make is an operation of a record, with the documented behaviour of the query as a law.
-- Any query may also fail for another reason (a lost connection), and then changes nothing.
pub mod Memory
pub mod Lists
use mathlib.Core.List.{Memᴰ}
use mini_serverless_cloud_pl.Base.{
  ◌==◌, if◌then◌else◌, ℤ, All, any, find, rewrite_where, number, failure, Result, ok, err, ℕ, ◌≤◌,
  String, ◌≡◌, Bool, true, false, Option, none, some, List, [], ◌∷◌, ◌++◌,
}
use mini_serverless_cloud_pl.Schema.{
  has_email, has_hash, is_named, is_version, is_of, ApiScope, User, ApiKey, FunctionRecord,
  FunctionVersion, pending, Build, InvocationStatus, error, Invocation, Database,
}

-- P2002 is a violated unique constraint, P2025 a record that is required and not there.
pub data QueryError : Type 0 where
  p2002 p2025 other : String → QueryError

abbrev pub message : QueryError → String
message (p2002 m) = m
message (p2025 m) = m
message (other m) = m

pub data Answer (A : Type 0) : Type 0 where
  done : A → Answer A
  fail : QueryError → Answer A

-- An error that the code does not handle is thrown on.
abbrev pub unwrap : {A : Type 0} → Answer A → Result A
unwrap (done a) = ok a
unwrap (fail e) = err (failure (message e))

-- The `data` of each create, and the row that it makes: the id and the time are the database's.
abbrev pub new_user : String → String → ℕ → ℕ → User
new_user email password_hash id now = record {
  id = id;
  email = email;
  password_hash = password_hash;
  created_at = now;
}

abbrev pub new_api_key : ℕ → String → List ApiScope → String → ℕ → ℕ → ApiKey
new_api_key user_id name scopes key_hash id now = record {
  id = id;
  user_id = user_id;
  key_hash = key_hash;
  name = name;
  scopes = scopes;
  last_used_at = none;
  revoked_at = none;
  created_at = now;
}

abbrev pub new_function : ℕ → String → ℕ → ℕ → ℕ → ℕ → FunctionRecord
new_function user_id name memory_mb timeout_ms id now = record {
  id = id;
  user_id = user_id;
  name = name;
  memory_mb = memory_mb;
  timeout_ms = timeout_ms;
  created_at = now;
}

abbrev pub new_version : ℕ → ℕ → String → ℕ → ℕ → FunctionVersion
new_version function_id version_number image_tag id now = record {
  id = id;
  function_id = function_id;
  version_number = version_number;
  image_tag = image_tag;
  created_at = now;
}

abbrev pub new_build : ℕ → String → ℕ → ℕ → Build
new_build function_id source_object_key id now = record {
  id = id;
  function_id = function_id;
  source_object_key = source_object_key;
  status = pending;
  image_tag = none;
  error_message = none;
  created_at = now;
  started_at = none;
  finished_at = none;
  published_to_stream_at = none;
}

abbrev pub new_invocation : ℕ → ℕ → ℕ → InvocationStatus → ℤ → Option String → ℕ → ℕ → Invocation
new_invocation function_id version_id request_id status duration_ms error_message id now = record {
  id = id;
  function_id = function_id;
  version_id = some version_id;
  request_id = request_id;
  status = status;
  cold_start = true;
  duration_ms = duration_ms;
  error_message = error_message;
  created_at = now;
}

-- What `findUnique` answers.
abbrev pub Finds : {A : Type 0} → (A → Bool) → List A → Answer (Option A) → Type 0
Finds p rows (done o) = o ≡ find p rows
Finds p rows (fail e) = Unit

-- What `findFirst` in descending order answers: a row of the largest number among those that match.
abbrev pub FindsLatest : ℕ → List FunctionVersion → Answer (Option FunctionVersion) → Type 0
FindsLatest function_id rows (done none) = any (is_of function_id) rows ≡ false
FindsLatest function_id rows (done (some v)) =
    (v.function_id ≡ function_id)
    × Memᴰ v rows
    × All (λ w. w.function_id ≡ function_id → w.version_number ≤ v.version_number) rows
FindsLatest function_id rows (fail e) = Unit

-- What `create` answers: a row with a fresh id that breaks no unique constraint, put at the end.
abbrev pub Creates :
    {A : Type 0}
    → (A → ℕ)
    → (ℕ → ℕ → A)
    → (A → Bool)
    → List A
    → (List A → Database)
    → Answer (A × Database)
    → Type 0
Creates {A} id_of make clash rows put (done (row, db)) =
    (now : ℕ) × (row ≡ make (id_of row) now)
    × (any (λ r. id_of r == id_of row) rows ≡ false)
    × (any clash rows ≡ false)
    × (db ≡ put (rows ++ row ∷ []))
Creates id_of make clash rows put (fail (p2002 m)) = any clash rows ≡ true
Creates id_of make clash rows put (fail (p2025 m)) = ⊥
Creates id_of make clash rows put (fail (other m)) = Unit

-- What `update` by id answers.
abbrev pub Updates :
    {A : Type 0} → (A → Bool) → (A → A) → List A → (List A → Database) → Answer Database → Type 0
Updates test change rows put (done db) =
    (any test rows ≡ true) × (db ≡ put (rewrite_where test change rows))
Updates test change rows put (fail (p2002 m)) = ⊥
Updates test change rows put (fail (p2025 m)) = any test rows ≡ false
Updates test change rows put (fail (other m)) = Unit

abbrev pub without : {A : Type 0} → (A → Bool) → List A → List A
without test [] = []
without test (x ∷ xs) = let rest = without test xs in if test x then rest else x ∷ rest

-- `onDelete: Cascade`: the versions, builds and invocations of a function go with it.
abbrev pub delete_named : ℕ → String → Database → Database
delete_named user_id name db = elim (find (is_named user_id name) db.functions) [
  | none ↦ db
  | some f ↦ record db {
    functions = without (is_named user_id name) db.functions;
    versions = without (is_of f.id) db.versions;
    builds = without (λ b. b.function_id == f.id) db.builds;
    invocations = without (λ i. i.function_id == f.id) db.invocations;
  }
]

abbrev pub Deletes : ℕ → String → Database → Answer Database → Type 0
Deletes user_id name db (done db') =
    (any (is_named user_id name) db.functions ≡ true) × (db' ≡ delete_named user_id name db)
Deletes user_id name db (fail (p2002 m)) = ⊥
Deletes user_id name db (fail (p2025 m)) = any (is_named user_id name) db.functions ≡ false
Deletes user_id name db (fail (other m)) = Unit

-- A transaction that commits leaves the state that its statements made.
abbrev pub Commits : Database → Answer Database → Type 0
Commits db (done db') = db' ≡ db
Commits db (fail e) = Unit

pub record Prisma : Type 0 where
  pub user_create : String → String → Database → Answer (User × Database)
  pub user_by_email : String → Database → Answer (Option User)
  pub api_key_create : ℕ → String → List ApiScope → String → Database → Answer (ApiKey × Database)
  pub api_key_by_id : ℕ → Database → Answer (Option ApiKey)
  pub api_key_by_hash : String → Database → Answer (Option ApiKey)
  pub api_key_update : ℕ → (ApiKey → ApiKey) → Database → Answer Database
  pub function_create : ℕ → String → ℕ → ℕ → Database → Answer (FunctionRecord × Database)
  pub function_by_name : ℕ → String → Database → Answer (Option FunctionRecord)
  pub function_by_id : ℕ → Database → Answer (Option FunctionRecord)
  pub function_delete : ℕ → String → Database → Answer Database
  pub latest_version : ℕ → Database → Answer (Option FunctionVersion)
  pub version_create : ℕ → ℕ → String → Database → Answer (FunctionVersion × Database)
  pub build_create : ℕ → String → Database → Answer (Build × Database)
  pub build_by_id : ℕ → Database → Answer (Option Build)
  pub build_update : ℕ → (Build → Build) → Database → Answer Database
  pub commit : Database → Answer Database
  pub invocation_create :
      ℕ → ℕ → ℕ → InvocationStatus → ℤ → Option String → Database → Answer (Invocation × Database)

-- The documented behaviour of each query.
pub record IsPrisma (P : Prisma) : Type 0 where
  pub user_creates :
      (email hash : String) (db : Database)
      → Creates
          (λ r. r.id)
          (new_user email hash)
          (has_email email)
          db.users
          (λ rows. record db { users = rows })
          (P.user_create email hash db)
  pub user_finds :
      (email : String) (db : Database) → Finds (has_email email) db.users (P.user_by_email email db)
  pub api_key_creates :
      (user_id : ℕ) (name : String) (scopes : List ApiScope) (hash : String) (db : Database)
      → Creates
          (λ r. r.id)
          (new_api_key user_id name scopes hash)
          (has_hash hash)
          db.api_keys
          (λ rows. record db { api_keys = rows })
          (P.api_key_create user_id name scopes hash db)
  pub api_key_finds :
      (id : ℕ) (db : Database) → Finds (λ k. k.id == id) db.api_keys (P.api_key_by_id id db)
  pub api_key_finds_hash :
      (hash : String) (db : Database)
      → Finds (has_hash hash) db.api_keys (P.api_key_by_hash hash db)
  pub api_key_updates :
      (id : ℕ) (change : ApiKey → ApiKey) (db : Database)
      → Updates
          (λ k. k.id == id)
          change
          db.api_keys
          (λ rows. record db { api_keys = rows })
          (P.api_key_update id change db)
  pub function_creates :
      (user_id : ℕ) (name : String) (memory_mb timeout_ms : ℕ) (db : Database)
      → Creates
          (λ r. r.id)
          (new_function user_id name memory_mb timeout_ms)
          (is_named user_id name)
          db.functions
          (λ rows. record db { functions = rows })
          (P.function_create user_id name memory_mb timeout_ms db)
  pub function_finds :
      (user_id : ℕ) (name : String) (db : Database)
      → Finds (is_named user_id name) db.functions (P.function_by_name user_id name db)
  pub function_finds_id :
      (id : ℕ) (db : Database) → Finds (λ f. f.id == id) db.functions (P.function_by_id id db)
  pub function_deletes :
      (user_id : ℕ) (name : String) (db : Database)
      → Deletes user_id name db (P.function_delete user_id name db)
  pub version_finds :
      (function_id : ℕ) (db : Database)
      → FindsLatest function_id db.versions (P.latest_version function_id db)
  pub version_creates :
      (function_id number : ℕ) (tag : String) (db : Database)
      → Creates
          (λ r. r.id)
          (new_version function_id number tag)
          (is_version function_id number)
          db.versions
          (λ rows. record db { versions = rows })
          (P.version_create function_id number tag db)
  pub build_creates :
      (function_id : ℕ) (key : String) (db : Database)
      → Creates
          (λ r. r.id)
          (new_build function_id key)
          (λ _. false)
          db.builds
          (λ rows. record db { builds = rows })
          (P.build_create function_id key db)
  pub build_finds :
      (id : ℕ) (db : Database) → Finds (λ b. b.id == id) db.builds (P.build_by_id id db)
  pub build_updates :
      (id : ℕ) (change : Build → Build) (db : Database)
      → Updates
          (λ b. b.id == id)
          change
          db.builds
          (λ rows. record db { builds = rows })
          (P.build_update id change db)
  pub commits : (db : Database) → Commits db (P.commit db)
  pub invocation_creates :
      (function_id version_id request_id : ℕ) (status : InvocationStatus) (duration_ms : ℤ)
      (error : Option String) (db : Database)
      → Creates
          (λ r. r.id)
          (new_invocation function_id version_id request_id status duration_ms error)
          (λ i. i.request_id == request_id)
          db.invocations
          (λ rows. record db { invocations = rows })
          (P.invocation_create function_id version_id request_id status duration_ms error db)
