-- ===== src/Prisma/Memory.antt =====
-- Tables in memory behave as the queries are documented to: the hypotheses on Prisma can be met.
use mathlib.Core.List.{Memᴰ}
use mini_serverless_cloud_pl.Base.{
  leb, ◌==◌, if◌then◌else◌, ==_iff, Bool-cases, All, any, find, rewrite_where, ℕ, ◌+◌, ◌≤◌, String,
  ◌≡◌, refl, sym, subst, inl, inr, Bool, true, false, Option, none, some, List, [], ◌∷◌, ◌++◌,
  arith,
}
use mini_serverless_cloud_pl.Schema.{
  has_email, has_hash, is_named, is_version, is_of, FunctionVersion, Database,
}
use mini_serverless_cloud_pl.Prisma.{
  new_user, new_api_key, new_function, new_version, new_build, new_invocation, FindsLatest, Creates,
  Updates, delete_named, Deletes, p2002, p2025, Answer, done, fail, Prisma, IsPrisma,
}

module _ {A : Type 0} where
  -- One more than every id in use.
  unfoldable pub fresh_id : (A → ℕ) → List A → ℕ
  fresh_id id_of [] = 0
  fresh_id id_of (r ∷ rs) =
      let rest = fresh_id id_of rs in if leb rest (id_of r) then id_of r + 1 else rest

  fresh_id-above :
      (id_of : A → ℕ) (n : ℕ) (rs : List A)
      → fresh_id id_of rs ≤ n
      → any (λ r. id_of r == n) rs ≡ false
  unfolding fresh_id
  fresh_id-above id_of n [] h = refl
  fresh_id-above id_of n (r ∷ rs) h = ground (arith, fresh_id-above id_of n rs)

  unfoldable pub create :
      (A → ℕ) → (ℕ → ℕ → A) → (A → Bool) → List A → (List A → Database) → Answer (A × Database)
  create id_of make clash rows put =
      let row = make (fresh_id id_of rows) 0 in
      if any clash rows
      then fail (p2002 "Unique constraint failed")
      else done (row, put (rows ++ row ∷ []))

  create-Creates :
      (id_of : A → ℕ) (make : ℕ → ℕ → A) (clash : A → Bool) (rows : List A)
      (put : List A → Database)
      → ((n now : ℕ) → id_of (make n now) ≡ n)
      → Creates id_of make clash rows put (create id_of make clash rows put)
  unfolding create
  create-Creates id_of make clash rows put law = elim (Bool-cases (any clash rows)) [
    | inl hit ↦ rw hit hit
    | inr miss ↦
        let e = law (fresh_id id_of rows) 0 in
        rw miss (
          0,
          rw e refl,
          rw e (fresh_id-above id_of (fresh_id id_of rows) rows (omega arith)),
          miss,
          refl,
        )
  ]

  unfoldable pub update : (A → Bool) → (A → A) → List A → (List A → Database) → Answer Database
  update test change rows put =
      if any test rows
      then done (put (rewrite_where test change rows))
      else fail (p2025 "Record to update not found")

  update-Updates :
      (test : A → Bool) (change : A → A) (rows : List A) (put : List A → Database)
      → Updates test change rows put (update test change rows put)
  unfolding update
  update-Updates test change rows put = elim (Bool-cases (any test rows)) [
    | inl hit ↦ rw hit (hit, refl)
    | inr miss ↦ rw miss miss
  ]

unfoldable pub delete : ℕ → String → Database → Answer Database
delete user_id name db =
    if any (is_named user_id name) db.functions
    then done (delete_named user_id name db)
    else fail (p2025 "Record to delete does not exist")

delete-Deletes :
    (user_id : ℕ) (name : String) (db : Database) → Deletes user_id name db (delete user_id name db)
unfolding delete
delete-Deletes user_id name db = elim (Bool-cases (any (is_named user_id name) db.functions)) [
  | inl hit ↦ rw hit (hit, refl)
  | inr miss ↦ rw miss miss
]

unfoldable pub newer : FunctionVersion → Option FunctionVersion → FunctionVersion
newer v none = v
newer v (some w) = if leb w.version_number v.version_number then v else w

newer-none : (v : FunctionVersion) → newer v none ≡ v
unfolding newer
newer-none v = refl

module _ (v w : FunctionVersion) where
  newer-first : leb w.version_number v.version_number ≡ true → newer v (some w) ≡ v
  unfolding newer
  newer-first h = rw h

  newer-second : leb w.version_number v.version_number ≡ false → newer v (some w) ≡ w
  unfolding newer
  newer-second h = rw h

unfoldable pub latest : ℕ → List FunctionVersion → Option FunctionVersion
latest function_id [] = none
latest function_id (v ∷ vs) =
    let rest = latest function_id vs in if is_of function_id v then some (newer v rest) else rest

abbrev IsAtMost : ℕ → ℕ → List FunctionVersion → Type 0
IsAtMost function_id n = All (λ w. w.function_id ≡ function_id → w.version_number ≤ n)

IsAtMost-mono :
    (function_id m n : ℕ) (vs : List FunctionVersion)
    → m ≤ n
    → IsAtMost function_id m vs
    → IsAtMost function_id n vs
IsAtMost-mono function_id m n [] h a = tt
IsAtMost-mono function_id m n (v ∷ vs) h (b, a) =
    (λ e. let c = b e in omega arith, IsAtMost-mono function_id m n vs h a)

IsAtMost-of_none :
    (function_id n : ℕ) (vs : List FunctionVersion)
    → any (is_of function_id) vs ≡ false
    → IsAtMost function_id n vs
IsAtMost-of_none function_id n [] h = tt
IsAtMost-of_none function_id n (v ∷ vs) h =
    (λ e. ground arith, IsAtMost-of_none function_id n vs (ground arith))

-- A row that matches, and is at least as new as what the rest answers, is the answer.
FindsLatest-here :
    (function_id : ℕ) (v : FunctionVersion) (vs : List FunctionVersion)
    → v.function_id ≡ function_id
    → IsAtMost function_id v.version_number vs
    → FindsLatest function_id (v ∷ vs) (done (some v))
FindsLatest-here function_id v vs e a = (e, Memᴰ.head refl, ((λ _. omega arith), a))

FindsLatest-there :
    (function_id : ℕ) (v w : FunctionVersion) (vs : List FunctionVersion)
    → (v.function_id ≡ function_id → v.version_number ≤ w.version_number)
    → FindsLatest function_id vs (done (some w))
    → FindsLatest function_id (v ∷ vs) (done (some w))
FindsLatest-there function_id v w vs h (e, m, a) = (e, Memᴰ.tail m, (h, a))

FindsLatest-eq :
    (function_id : ℕ) (vs : List FunctionVersion) {v w : FunctionVersion}
    → w ≡ v
    → FindsLatest function_id vs (done (some v))
    → FindsLatest function_id vs (done (some w))
FindsLatest-eq function_id vs e = subst (λ x. FindsLatest function_id vs (done (some x))) (sym e)

latest_step :
    (function_id : ℕ) (v : FunctionVersion) (vs : List FunctionVersion)
    (rest : Option FunctionVersion)
    → FindsLatest function_id vs (done rest)
    → FindsLatest function_id
        (v ∷ vs)
        (done (if is_of function_id v then some (newer v rest) else rest))
latest_step function_id v vs none h = elim (Bool-cases (is_of function_id v)) [
  | inl hit ↦ rw hit (
      FindsLatest-eq function_id (v ∷ vs) (newer-none v) (
        FindsLatest-here function_id v vs ((==_iff _ _).0 hit)
          (IsAtMost-of_none function_id v.version_number vs h)))
  | inr miss ↦ rw miss (rw miss h)
]
latest_step function_id v vs (some w) h = elim (Bool-cases (is_of function_id v)) [
  | inl hit ↦ elim (Bool-cases (leb w.version_number v.version_number)) [
    | inl new ↦ rw hit (
        FindsLatest-eq function_id (v ∷ vs) (newer-first v w new) (
          FindsLatest-here function_id v vs ((==_iff _ _).0 hit)
            (IsAtMost-mono function_id w.version_number v.version_number vs (ground arith) h.2)))
    | inr old ↦ rw hit (
        FindsLatest-eq function_id (v ∷ vs) (newer-second v w old)
          (FindsLatest-there function_id v w vs (λ _. ground arith) h))
  ]
  | inr miss ↦ rw miss (FindsLatest-there function_id v w vs (λ e. ground arith) h)
]

latest-FindsLatest :
    (function_id : ℕ) (vs : List FunctionVersion)
    → FindsLatest function_id vs (done (latest function_id vs))
unfolding latest
latest-FindsLatest function_id [] = refl
latest-FindsLatest function_id (v ∷ vs) =
    latest_step function_id v vs (latest function_id vs) (latest-FindsLatest function_id vs)

-- A database in memory.
unfoldable pub memory : Prisma
unfolding create update delete latest newer fresh_id
memory = record {
  user_create = λ email hash db.
      create (λ r. r.id) (new_user email hash) (has_email email) db.users
        (λ rows. record db { users = rows });
  user_by_email = λ email db. done (find (has_email email) db.users);
  api_key_create = λ user_id name scopes hash db.
      create (λ r. r.id) (new_api_key user_id name scopes hash) (has_hash hash) db.api_keys
        (λ rows. record db { api_keys = rows });
  api_key_by_id = λ id db. done (find (λ k. k.id == id) db.api_keys);
  api_key_by_hash = λ hash db. done (find (has_hash hash) db.api_keys);
  api_key_update = λ id change db.
      update (λ k. k.id == id) change db.api_keys (λ rows. record db { api_keys = rows });
  function_create = λ user_id name memory_mb timeout_ms db.
      create (λ r. r.id) (new_function user_id name memory_mb timeout_ms) (is_named user_id name)
        db.functions (λ rows. record db { functions = rows });
  function_by_name = λ user_id name db. done (find (is_named user_id name) db.functions);
  function_by_id = λ id db. done (find (λ f. f.id == id) db.functions);
  function_delete = delete;
  latest_version = λ function_id db. done (latest function_id db.versions);
  version_create = λ function_id number tag db.
      create (λ r. r.id) (new_version function_id number tag) (is_version function_id number)
        db.versions (λ rows. record db { versions = rows });
  build_create = λ function_id key db.
      create (λ r. r.id) (new_build function_id key) (λ _. false) db.builds
        (λ rows. record db { builds = rows });
  build_by_id = λ id db. done (find (λ b. b.id == id) db.builds);
  build_update = λ id change db.
      update (λ b. b.id == id) change db.builds (λ rows. record db { builds = rows });
  commit = done;
  invocation_create = λ function_id version_id request_id status duration_ms error db.
      create (λ r. r.id) (new_invocation function_id version_id request_id status duration_ms error)
        (λ i. i.request_id == request_id) db.invocations (λ rows. record db { invocations = rows });
}

pub memory-IsPrisma : IsPrisma memory
unfolding memory
memory-IsPrisma = record {
  user_creates = λ email hash db.
      create-Creates (λ r. r.id) (new_user email hash) (has_email email) db.users
        (λ rows. record db { users = rows }) (λ n now. refl);
  user_finds = λ email db. refl;
  api_key_creates = λ user_id name scopes hash db.
      create-Creates (λ r. r.id) (new_api_key user_id name scopes hash) (has_hash hash) db.api_keys
        (λ rows. record db { api_keys = rows }) (λ n now. refl);
  api_key_finds = λ id db. refl;
  api_key_finds_hash = λ hash db. refl;
  api_key_updates = λ id change db.
      update-Updates (λ k. k.id == id) change db.api_keys (λ rows. record db { api_keys = rows });
  function_creates = λ user_id name memory_mb timeout_ms db.
      create-Creates (λ r. r.id) (new_function user_id name memory_mb timeout_ms)
        (is_named user_id name) db.functions (λ rows. record db { functions = rows })
        (λ n now. refl);
  function_finds = λ user_id name db. refl;
  function_finds_id = λ id db. refl;
  function_deletes = delete-Deletes;
  version_finds = λ function_id db. latest-FindsLatest function_id db.versions;
  version_creates = λ function_id number tag db.
      create-Creates (λ r. r.id) (new_version function_id number tag)
        (is_version function_id number) db.versions (λ rows. record db { versions = rows })
        (λ n now. refl);
  build_creates = λ function_id key db.
      create-Creates (λ r. r.id) (new_build function_id key) (λ _. false) db.builds
        (λ rows. record db { builds = rows }) (λ n now. refl);
  build_finds = λ id db. refl;
  build_updates = λ id change db.
      update-Updates (λ b. b.id == id) change db.builds (λ rows. record db { builds = rows });
  commits = λ db. refl;
  invocation_creates = λ function_id version_id request_id status duration_ms error db.
      create-Creates (λ r. r.id)
        (new_invocation function_id version_id request_id status duration_ms error)
        (λ i. i.request_id == request_id) db.invocations (λ rows. record db { invocations = rows })
        (λ n now. refl);
}
