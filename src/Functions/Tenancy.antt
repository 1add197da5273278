-- ===== src/Functions/Tenancy.antt =====
-- Each account sees and changes its own functions only.
use mathlib.Core.List.{Memᴰ}
use mini_serverless_cloud_pl.Base.{
  ◌==◌, Bool-cases, Option-cases, or_else, any, find, keep, find-append, find_sound, any_of_find,
  resume, not_found, conflict, service_unavailable, failure, Result, ok, err, ℕ, String, ◌≡◌, refl,
  ap, ◌≢◌, ◌⊎◌, inl, inr, true, false, Option, none, some, List, [], ◌∷◌, ◌++◌, arith, eq_iff,
  eq_refl,
}
use mini_serverless_cloud_pl.Schema.{is_named, FunctionRecord, Database}
use mini_serverless_cloud_pl.Prisma.{
  message, unwrap, new_function, Finds, Creates, without, p2002, p2025, other, Answer, done, fail,
  Prisma, IsPrisma,
}
use mini_serverless_cloud_pl.Functions.{
  not_found_message, register, get, RegisterFunctionDto, created, required,
}

-- The functions of an account, in the order of the table.
abbrev pub owned : ℕ → List FunctionRecord → List FunctionRecord
owned user_id = keep (λ f. f.user_id == user_id)

is_named_self :
    (f : FunctionRecord) {user_id : ℕ} {name : String}
    → f.user_id ≡ user_id
    → f.name ≡ name
    → is_named user_id name f ≡ true
is_named_self f {user_id} {name} e n = rw (e, n) (ground (arith, eq_refl name))

pub keep-without :
    (user_id v : ℕ) (name : String) (fs : List FunctionRecord)
    → v ≢ user_id
    → owned v (without (is_named user_id name) fs) ≡ owned v fs
keep-without user_id v name [] n = refl
keep-without user_id v name (f ∷ fs) n = elim (Bool-cases (is_named user_id name f)) [
  | inl hit ↦
      let other : (f.user_id == v) ≡ false = ground arith in
      rw (hit, other) (keep-without user_id v name fs n)
  | inr miss ↦ rw miss (ground (arith, keep-without user_id v name fs n))
]

-- The answer to a search by name.
abbrev pub answer_for : String → Option FunctionRecord → Result FunctionRecord
answer_for name none = err (not_found (not_found_message name))
answer_for name (some f) = ok f

module _ (P : Prisma) (real : IsPrisma P) where
  created-eq-ok :
      (name : String) (db : Database) {db' : Database} (a : Answer (FunctionRecord × Database))
      {f : FunctionRecord}
      → created P name db a ≡ (ok f, db')
      → a ≡ done (f, db')
  unfolding created
  created-eq-ok name db (done (row, db₁)) e = ground arith
  created-eq-ok name db (fail (p2002 m)) e = cc
  created-eq-ok name db (fail (p2025 m)) e = cc
  created-eq-ok name db (fail (other m)) e = cc

  -- A function that `register` returns has the name and the limits that were asked for, 128 MB and
  -- 3000 ms by default; it is the caller's, under an id that no function had, it is the one row that
  -- was added, and the caller had no function of that name.
  pub register-eq-ok :
      (user_id : ℕ) (dto : RegisterFunctionDto) (db db' : Database) (f : FunctionRecord)
      → register P user_id dto db ≡ (ok f, db')
      → (now : ℕ) × (f
          ≡ new_function user_id dto.name
              (or_else dto.memory_mb 128)
              (or_else dto.timeout_ms 3000)
              f.id
              now)
        × (any (λ r. r.id == f.id) db.functions ≡ false)
        × (any (is_named user_id dto.name) db.functions ≡ false)
        × (db' ≡ record db { functions = db.functions ++ f ∷ [] })
  unfolding register
  register-eq-ok user_id dto db db' f e =
      let made = created-eq-ok dto.name db _ e in
      rw made at (
        real.function_creates user_id dto.name (or_else dto.memory_mb 128)
          (or_else dto.timeout_ms 3000) db)

  required_eq :
      (user_id : ℕ) (name : String) (db : Database) (a : Answer (Option FunctionRecord))
      → Finds (is_named user_id name) db.functions a
      → (resume (required P name) (unwrap a, db)
          ≡ (answer_for name (find (is_named user_id name) db.functions), db))
        ⊎ ((m : String) × (resume (required P name) (unwrap a, db) ≡ (err (failure m), db)))
  unfolding required
  required_eq user_id name db (done none) e = inl (rw (← e))
  required_eq user_id name db (done (some f)) e = inl (rw (← e))
  required_eq user_id name db (fail x) e = inr (message x, refl)

  pub get-eq :
      (user_id : ℕ) (name : String) (db : Database)
      → (get P user_id name db ≡ (answer_for name (find (is_named user_id name) db.functions), db))
        ⊎ ((m : String) × (get P user_id name db ≡ (err (failure m), db)))
  unfolding get
  get-eq user_id name db = required_eq user_id name db _ (real.function_finds user_id name db)

  -- What `get` returns is a row of the table that is the caller's and has the name that was asked for.
  pub get_sound :
      (user_id : ℕ) (name : String) (db db' : Database) (f : FunctionRecord)
      → get P user_id name db ≡ (ok f, db')
      → (f.user_id ≡ user_id) × (f.name ≡ name) × Memᴰ f db.functions × (db' ≡ db)
  get_sound user_id name db db' f e = elim (get-eq user_id name db) [
    | inl answered ↦
        let e' = rw answered at e in
        elim (Option-cases (find (is_named user_id name) db.functions)) [
          | inl missing ↦ cc (rw (missing, answer_for) at e')
          | inr (g, hit) ↦
              let same : g ≡ f = cc (rw (hit, answer_for) at e') in
              let (named, member) = find_sound _ db.functions g hit in
              rw (← same) (ground arith, ground (arith, eq_iff g.name name), member, cc (e'))
        ]
    | inr (m, broken) ↦ cc (rw broken at e)
  ]

  -- A 404 means that the caller has no function of that name, whoever else has one.
  pub get_missing :
      (user_id : ℕ) (name m : String) (db db' : Database)
      → get P user_id name db ≡ (err (not_found m), db')
      → any (is_named user_id name) db.functions ≡ false
  get_missing user_id name m db db' e = elim (get-eq user_id name db) [
    | inl answered ↦
        let e' = rw answered at e in
        elim (Option-cases (find (is_named user_id name) db.functions)) [
          | inl missing ↦ any_of_find _ db.functions missing
          | inr (g, hit) ↦ cc (rw (hit, answer_for) at e')
        ]
    | inr (m', broken) ↦ cc (rw broken at e)
  ]

  -- After a registration the caller gets that function by its name, unless the query itself fails.
  pub register-get :
      (user_id : ℕ) (dto : RegisterFunctionDto) (db db' : Database) (f : FunctionRecord)
      → register P user_id dto db ≡ (ok f, db')
      → (get P user_id dto.name db' ≡ (ok f, db'))
        ⊎ ((m : String) × (get P user_id dto.name db' ≡ (err (failure m), db')))
  register-get user_id dto db db' f e =
      let (now, same, fresh, free, stored) = register-eq-ok user_id dto db db' f e in
      let named : is_named user_id dto.name f ≡ true =
        is_named_self f (ap (λ r. r.user_id) same) (ap (λ r. r.name) same) in
      let hit : find (is_named user_id dto.name) db'.functions ≡ some f =
        rw stored (find-append _ db.functions f free named) in
      rw (hit, answer_for) at (get-eq user_id dto.name db')

  -- A conflict means that the caller has a function of that name already, and nothing changes.
  pub register-conflict :
      (user_id : ℕ) (dto : RegisterFunctionDto) (m : String) (db db' : Database)
      → register P user_id dto db ≡ (err (conflict m), db')
      → (any (is_named user_id dto.name) db.functions ≡ true) × (db' ≡ db)
  unfolding register created
  register-conflict user_id dto m db db' e =
      refused _
        (real.function_creates user_id dto.name (or_else dto.memory_mb 128)
          (or_else dto.timeout_ms 3000) db)
        e
    where
      refused :
          (a : Answer (FunctionRecord × Database))
          → Creates
              (λ r. r.id)
              (new_function user_id dto.name
                (or_else dto.memory_mb 128)
                (or_else dto.timeout_ms 3000))
              (is_named user_id dto.name)
              db.functions
              (λ rows. record db { functions = rows })
              a
          → created P dto.name db a ≡ (err (conflict m), db')
          → (any (is_named user_id dto.name) db.functions ≡ true) × (db' ≡ db)
      refused (done (row, db₁)) c q = cc
      refused (fail (p2002 x)) c q = (c, cc)
      refused (fail (p2025 x)) c q = elim c [ ]
      refused (fail (other x)) c q = cc

  pub get-ne-unavailable :
      (user_id : ℕ) (name m : String) (db db' : Database)
      → get P user_id name db ≢ (err (service_unavailable m), db')
  get-ne-unavailable user_id name m db db' e = elim (get-eq user_id name db) [
    | inl answered ↦
        let e' = rw answered at e in
        elim (Option-cases (find (is_named user_id name) db.functions)) [
          | inl missing ↦ cc (rw (missing, answer_for) at e')
          | inr (g, hit) ↦ cc (rw (hit, answer_for) at e')
        ]
    | inr (x, broken) ↦ cc (rw broken at e)
  ]
