-- ===== src/Build/Reads.antt =====
-- Submission and status reads: what a submitted build refers to, and who may see a build.
use mini_serverless_cloud_pl.Base.{
  ◌==◌, Bool-cases, template, any, find, show, resume, Result, ok, err, ℕ, String, ◌≡◌, refl, ap,
  ◌∙◌, inl, inr, false, Option, none, some, [], ◌∷◌, ◌++◌, arith, str_eq, eq_refl,
}
use mini_serverless_cloud_pl.Redis.{Hash, put, Answers}
use mini_serverless_cloud_pl.Schema.{FunctionRecord, BuildStatus, Build, Database}
use mini_serverless_cloud_pl.Prisma.{
  unwrap, new_build, Finds, Creates, Answer, done, fail, Prisma, IsPrisma,
}
use mini_serverless_cloud_pl.Functions.{get}
use mini_serverless_cloud_pl.Functions.Tenancy.{get_sound}
use mini_serverless_cloud_pl.Build.{
  PutObject, has_id, submit_build, get_build, get_build_endpoint, Stores, created_build,
  insert_build, stored, own_build,
}
use mathlib.Core.List.{Memᴰ}

-- A `PutObject` that does not fail leaves the object under its key.
abbrev pub IsPutObject : PutObject → Type 0
IsPutObject put_object =
    (key body : String) (objects : Hash)
    → Answers (put key body objects) (put_object key body objects)

abbrev pub object_at : String → Hash → Option (String × String)
object_at key objects = find (λ e. str_eq e.0 key) objects

pub object_at-put :
    (key body : String) (objects : Hash) → object_at key (put key body objects) ≡ some (key, body)
object_at-put key body [] = rw (eq_refl key) refl
object_at-put key body ((k, v) ∷ h) = elim (Bool-cases (str_eq k key)) [
  | inl hit ↦ rw hit (rw (eq_refl key) refl)
  | inr miss ↦ rw miss (rw miss (object_at-put key body h))
]

module _ (P : Prisma) where
  created_build_ok :
      (function_id : ℕ) (key : String) (s s' : Stores) (b : Build) (a : Answer (Build × Database))
      → Creates
          (λ r. r.id)
          (new_build function_id key)
          (λ _. false)
          s.database.builds
          (λ rows. record s.database { builds = rows })
          a
      → created_build P s a ≡ (ok b, s')
      → (now : ℕ) × (b ≡ new_build function_id key b.id now)
        × (any (λ r. r.id == b.id) s.database.builds ≡ false)
        × (s'.database ≡ record s.database { builds = s.database.builds ++ b ∷ [] })
        × (s'.objects ≡ s.objects)
  unfolding created_build
  created_build_ok function_id key s s' b (done (row, db)) (now, same, fresh, _, e) q =
      let it : row ≡ b = cc in
      let there : record s { database = db } ≡ s' = cc in
      rw (← it, ← there) (now, same, fresh, e, refl)
  created_build_ok function_id key s s' b (fail x) c q = cc

  insert_build_ok :
      (real : IsPrisma P) (function_id : ℕ) (key : String) (s s' : Stores) (b : Build)
      → insert_build P function_id key s ≡ (ok b, s')
      → (now : ℕ) × (b ≡ new_build function_id key b.id now)
        × (any (λ r. r.id == b.id) s.database.builds ≡ false)
        × (s'.database ≡ record s.database { builds = s.database.builds ++ b ∷ [] })
        × (s'.objects ≡ s.objects)
  unfolding insert_build
  insert_build_ok real function_id key s s' b e =
      created_build_ok function_id key s s' b _ (real.build_creates function_id key s.database) e

  -- A submission that is answered leaves one more build, `PENDING`, under a fresh id, and the source
  -- is stored under the key that the build names; nothing else in the database changes.
  pub submit_build-eq-ok :
      IsPrisma P
      → (put_object : PutObject) → IsPutObject put_object
      → (uuid : String) (function_id : ℕ) (source : String) (s s' : Stores) (b : Build)
      → submit_build P put_object uuid function_id source s ≡ (ok b, s')
      → (b.status ≡ BuildStatus.pending)
        × (b.function_id ≡ function_id)
        × (any (λ r. r.id == b.id) s.database.builds ≡ false)
        × (s'.database ≡ record s.database { builds = s.database.builds ++ b ∷ [] })
        × (object_at b.source_object_key s'.objects ≡ some (b.source_object_key, source))
  unfolding submit_build stored
  submit_build-eq-ok real put_object puts uuid function_id source s s' b e =
      go (put_object key source s.objects) (puts key source s.objects) e
    where
      key : String
      key = template ("functions/" ∷ show function_id ∷ "/" ∷ uuid ∷ ".js" ∷ [])

      go :
          (r : Result Hash)
          → Answers (put key source s.objects) r
          → resume (λ _. insert_build P function_id key) (stored P s r) ≡ (ok b, s')
          → (b.status ≡ BuildStatus.pending)
            × (b.function_id ≡ function_id)
            × (any (λ r. r.id == b.id) s.database.builds ≡ false)
            × (s'.database ≡ record s.database { builds = s.database.builds ++ b ∷ [] })
            × (object_at b.source_object_key s'.objects ≡ some (b.source_object_key, source))
      go (ok objects) is q =
          let (now, same, fresh, rows, kept) =
            insert_build_ok real function_id key (record s { objects = objects }) s' b q in
          let at_key : b.source_object_key ≡ key = ap (λ r. r.source_object_key) same in
          (
            ap (λ r. r.status) same,
            ap (λ r. r.function_id) same,
            fresh,
            rows,
            rw at_key (rw kept (rw is (object_at-put key source s.objects))),
          )
      go (err x) is q = cc

  own_build-eq-ok :
      (function_id : ℕ) (build_id : String) (o : Option Build) (db db' : Database) (b : Build)
      → own_build P function_id build_id o db ≡ (ok b, db')
      → (o ≡ some b) × (b.function_id ≡ function_id) × (db' ≡ db)
  unfolding own_build
  own_build-eq-ok function_id build_id none db db' b e = cc
  own_build-eq-ok function_id build_id (some c) db db' b e =
      elim (Bool-cases (c.function_id == function_id)) [
        | inl mine ↦
            let e' = rw mine at e in let same : c ≡ b = cc in rw (← same) (refl, ground arith, cc)
        | inr foreign ↦ cc (rw foreign at e)
      ]

  get_build-eq-ok :
      (real : IsPrisma P) (function_id build_id : ℕ) (db db' : Database) (b : Build)
      → get_build P function_id build_id db ≡ (ok b, db')
      → (find (has_id build_id) db.builds ≡ some b) × (b.function_id ≡ function_id) × (db' ≡ db)
  unfolding get_build
  get_build-eq-ok real function_id build_id db db' b e =
      go (P.build_by_id build_id db) (real.build_finds build_id db) e
    where
      go :
          (a : Answer (Option Build))
          → Finds (has_id build_id) db.builds a
          → resume (own_build P function_id (show build_id)) (unwrap a, db) ≡ (ok b, db')
          → (find (has_id build_id) db.builds ≡ some b) × (b.function_id ≡ function_id) × (db' ≡ db)
      go (done o) f q = rw f at (own_build-eq-ok function_id (show build_id) o db db' b q)
      go (fail x) f q = cc

  -- The status of a build is given only for a build of a function of the caller's with the name in
  -- the path, and reading it changes nothing.
  pub get_build_endpoint-eq-ok :
      IsPrisma P
      → (user_id : ℕ) (name : String) (build_id : ℕ) (db db' : Database) (b : Build)
      → get_build_endpoint P user_id name build_id db ≡ (ok b, db')
      → (f : FunctionRecord) × (f.user_id ≡ user_id)
        × (f.name ≡ name)
        × Memᴰ f db.functions
        × (b.function_id ≡ f.id)
        × (find (has_id build_id) db.builds ≡ some b)
        × (db' ≡ db)
  unfolding get_build_endpoint
  get_build_endpoint-eq-ok real user_id name build_id db db' b e = go (get P user_id name db) refl e
    where
      go :
          (r : Result FunctionRecord × Database)
          → get P user_id name db ≡ r
          → resume (λ f. get_build P f.id build_id) r ≡ (ok b, db')
          → (f : FunctionRecord) × (f.user_id ≡ user_id)
            × (f.name ≡ name)
            × Memᴰ f db.functions
            × (b.function_id ≡ f.id)
            × (find (has_id build_id) db.builds ≡ some b)
            × (db' ≡ db)
      go (ok f, db₁) g q =
          let (mine, named, member, same) = get_sound P real user_id name db db₁ f g in
          let (hit, of, kept) = get_build-eq-ok real f.id build_id db₁ db' b q in
          (f, mine, named, member, of, rw same at hit, kept ∙ same)
      go (err x, db₁) g q = cc
