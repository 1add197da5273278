-- ===== src/Build/Runs.antt =====
-- What one run of a build leaves behind: a version and a success together, a failure, or nothing.
use mini_serverless_cloud_pl.Base.{
  ◌==◌, All, any, find, rewrite_where, any_of_mem, resume, return, handle, Exception, failure,
  Result, ok, err, ℕ, ◌+◌, ◌≤◌, ◌<◌, String, ◌≡◌, refl, sym, ap, ◌∙◌, ◌⊎◌, inl, inr, true, false,
  Option, none, some, List, [], ◌∷◌, ◌++◌, arith,
}
use mini_serverless_cloud_pl.Schema.{
  is_version, is_of, FunctionRecord, FunctionVersion, Build, Database,
}
use mini_serverless_cloud_pl.Prisma.{
  message, unwrap, new_version, Finds, FindsLatest, Creates, Updates, Commits, QueryError, Answer,
  done, fail, Prisma, IsPrisma,
}
use mini_serverless_cloud_pl.Build.{
  BuildExecutor, message_of, succeeded, gave_up, has_id, params_for, next_after,
  next_version_number, planned, plan, committed, updated, versioned, finish, give_up, carry_out,
  run_build,
}

-- The database after a build has succeeded: one more version, and the build marked.
abbrev pub with_version : Build → ℕ → String → ℕ → ℕ → ℕ → Database → Database
with_version b n image_ref now id created_at db = record db {
  versions = db.versions ++ new_version b.function_id n image_ref id created_at ∷ [];
  builds = rewrite_where (has_id b.id) (succeeded image_ref now) db.builds;
}

-- The database after a build has failed.
abbrev pub with_failure : Build → String → ℕ → Database → Database
with_failure b m now db = record db {
  builds = rewrite_where (has_id b.id) (gave_up m now) db.builds;
}

-- The number that comes after those of all the versions of a function.
abbrev pub IsNext : ℕ → ℕ → List FunctionVersion → Type 0
IsNext function_id n vs =
    All (λ v. v.function_id ≡ function_id → v.version_number < n) vs
    × ((n ≡ 1) ⊎ ((m : ℕ) × (n ≡ m + 1) × (any (is_version function_id m) vs ≡ true)))

-- The number that `nextVersionNumber` gives after the newest version.
All-lt :
    (function_id m : ℕ) (vs : List FunctionVersion)
    → All (λ w. w.function_id ≡ function_id → w.version_number ≤ m) vs
    → All (λ w. w.function_id ≡ function_id → w.version_number < m + 1) vs
All-lt function_id m [] a = tt
All-lt function_id m (v ∷ vs) (h, a) =
    ((λ e. let k = h e in omega arith), All-lt function_id m vs a)

All-lt_of_none :
    (function_id n : ℕ) (vs : List FunctionVersion)
    → any (is_of function_id) vs ≡ false
    → All (λ w. w.function_id ≡ function_id → w.version_number < n) vs
All-lt_of_none function_id n [] h = tt
All-lt_of_none function_id n (v ∷ vs) h =
    ((λ e. absurd (ground arith)), All-lt_of_none function_id n vs (ground arith))

next_after-IsNext :
    (P : Prisma) (function_id : ℕ) (vs : List FunctionVersion) (a : Option FunctionVersion)
    → FindsLatest function_id vs (done a)
    → IsNext function_id (next_after P a) vs
unfolding next_after
next_after-IsNext P function_id vs none h = (All-lt_of_none function_id 1 vs h, inl refl)
next_after-IsNext P function_id vs (some v) (mine, member, most) = (
  All-lt function_id v.version_number vs most,
  inr (
    v.version_number,
    refl,
    any_of_mem (is_version function_id v.version_number) member (ground arith),
  ),
)

module _ (P : Prisma) (build : BuildExecutor) (now : ℕ) (b : Build) (db : Database) where
  pub data Ran (r : Result (Unit {0}) × Database) : Type 0 where
    made :
        (f : FunctionRecord) (n : ℕ) (image_ref : String) (id created_at : ℕ)
        → find (λ g. g.id == b.function_id) db.functions ≡ some f
        → IsNext b.function_id n db.versions
        → build (params_for b f n) ≡ ok image_ref
        → any (is_version b.function_id n) db.versions ≡ false
        → any (has_id b.id) db.builds ≡ true
        → r ≡ (ok tt, with_version b n image_ref now id created_at db)
        → Ran r
    marked_failed :
        (m : String)
        → any (has_id b.id) db.builds ≡ true
        → r ≡ (ok tt, with_failure b m now db)
        → Ran r
    thrown :
        (x : Exception) (m : String) (q : QueryError)
        → P.build_update b.id (gave_up m now) db ≡ fail q
        → r ≡ (err x, db)
        → Ran r

  module _ (real : IsPrisma P) where
    give_up-Ran : (x : Exception) → Ran (give_up P b now x db)
    unfolding give_up committed
    give_up-Ran x =
        go (P.build_update b.id (gave_up (message_of x) now) db) refl
          (real.build_updates b.id (gave_up (message_of x) now) db)
      where
        go :
            (a : Answer Database)
            → P.build_update b.id (gave_up (message_of x) now) db ≡ a
            → Updates
                (has_id b.id)
                (gave_up (message_of x) now)
                db.builds
                (λ rows. record db { builds = rows })
                a
            → Ran (committed P db a)
        go (done db') said (there, e) = marked_failed (message_of x) there (rw e)
        go (fail q) said c = thrown (failure (message q)) (message_of x) q said refl

    -- How the transaction ends.
    pub data Finished (n : ℕ) (image_ref : String) (r : Result (Unit {0}) × Database) : Type 0 where
      committed_all :
          (id created_at : ℕ)
          → any (is_version b.function_id n) db.versions ≡ false
          → any (has_id b.id) db.builds ≡ true
          → r ≡ (ok tt, with_version b n image_ref now id created_at db)
          → Finished n image_ref r
      rolled_back : (m : String) → r ≡ (err (failure m), db) → Finished n image_ref r

    commit-Finished :
        (n : ℕ) (image_ref : String) (id created_at : ℕ) (db' : Database) (a : Answer Database)
        → db' ≡ with_version b n image_ref now id created_at db
        → any (is_version b.function_id n) db.versions ≡ false
        → any (has_id b.id) db.builds ≡ true
        → Commits db' a
        → Finished n image_ref (committed P db a)
    unfolding committed
    commit-Finished n image_ref id created_at db' (done db₃) e free there c =
        committed_all id created_at free there (rw (c, e))
    commit-Finished n image_ref id created_at db' (fail q) e free there c =
        rolled_back (message q) refl

    update-Finished :
        (n : ℕ) (image_ref : String) (id created_at : ℕ) (db₁ : Database) (a : Answer Database)
        → db₁ ≡ record db {
          versions = db.versions ++ new_version b.function_id n image_ref id created_at ∷ [];
        }
        → any (is_version b.function_id n) db.versions ≡ false
        → Updates
            (has_id b.id)
            (succeeded image_ref now)
            db₁.builds
            (λ rows. record db₁ { builds = rows })
            a
        → Finished n image_ref (updated P db a)
    unfolding updated
    update-Finished n image_ref id created_at db₁ (done db₂) e free (there, e₂) =
        commit-Finished n image_ref id created_at db₂ (P.commit db₂)
          (e₂
            ∙ ap {A = Database}
                (λ d. record d {
                  builds = rewrite_where (has_id b.id) (succeeded image_ref now) d.builds;
                })
                e)
          free (rw e at there) (real.commits db₂)
    update-Finished n image_ref id created_at db₁ (fail q) e free c = rolled_back (message q) refl

    pub finish-Finished :
        (n : ℕ) (image_ref : String) → Finished n image_ref (finish P b n image_ref now db)
    unfolding finish versioned
    finish-Finished n image_ref = go _ (real.version_creates b.function_id n image_ref db)
      where
        go :
            (a : Answer (FunctionVersion × Database))
            → Creates
                (λ r. r.id)
                (new_version b.function_id n image_ref)
                (is_version b.function_id n)
                db.versions
                (λ rows. record db { versions = rows })
                a
            → Finished n image_ref (versioned P b image_ref now db a)
        go (done (v, db₁)) (created_at, same, fresh, free, e) =
            update-Finished n image_ref v.id created_at db₁
              (P.build_update b.id (succeeded image_ref now) db₁)
              (e ∙ ap (λ w. record db { versions = db.versions ++ w ∷ [] }) same) free
              (real.build_updates b.id (succeeded image_ref now) db₁)
        go (fail q) c = rolled_back (message q) refl

    finish-Ran :
        (f : FunctionRecord) (n : ℕ) (image_ref : String)
        → find (λ g. g.id == b.function_id) db.functions ≡ some f
        → IsNext b.function_id n db.versions
        → build (params_for b f n) ≡ ok image_ref
        → Ran (handle (give_up P b now) (finish P b n image_ref now db))
    finish-Ran f n image_ref found next done_by = go (finish-Finished n image_ref)
      where
        go :
            {r : Result (Unit {0}) × Database}
            → Finished n image_ref r
            → Ran (handle (give_up P b now) r)
        go (committed_all id created_at free there e) =
            rw e (made f n image_ref id created_at found next done_by free there refl)
        go (rolled_back m e) = rw e (give_up-Ran (failure m))

    image-Ran :
        (f : FunctionRecord) (n : ℕ)
        → find (λ g. g.id == b.function_id) db.functions ≡ some f
        → IsNext b.function_id n db.versions
        → Ran (handle (give_up P b now) (carry_out P build now b (params_for b f n) db))
    unfolding carry_out
    image-Ran f n found next = go (build (params_for b f n)) refl
      where
        go :
            (r : Result String)
            → build (params_for b f n) ≡ r
            → Ran (
                handle (give_up P b now) (resume (λ image_ref. finish P b n image_ref now) (r, db)))
        go (ok image_ref) e = finish-Ran f n image_ref found next e
        go (err x) e = give_up-Ran x

    planned-Ran :
        (a : Answer (Option FunctionRecord))
        → Finds (λ g. g.id == b.function_id) db.functions a
        → Ran (
            handle
              (give_up P b now)
              (resume (carry_out P build now b) (resume (planned P b) (unwrap a, db))))
    unfolding planned next_version_number
    planned-Ran (done none) e = give_up-Ran (failure "No Function found")
    planned-Ran (done (some f)) e =
        go (P.latest_version b.function_id db) (real.version_finds b.function_id db)
      where
        go :
            (a : Answer (Option FunctionVersion))
            → FindsLatest b.function_id db.versions a
            → Ran (
                handle (give_up P b now) (
                  resume (carry_out P build now b) (
                    resume
                      (λ n. return (params_for b f n))
                      (resume (λ latest. return (next_after P latest)) (unwrap a, db)))))
        go (done latest) h =
            image-Ran f (next_after P latest) (sym e)
              (next_after-IsNext P b.function_id db.versions latest h)
        go (fail q) h = give_up-Ran (failure (message q))
    planned-Ran (fail q) e = give_up-Ran (failure (message q))

    pub run_build-Ran : Ran (run_build P build now b db)
    unfolding run_build plan
    run_build-Ran =
        planned-Ran (P.function_by_id b.function_id db) (real.function_finds_id b.function_id db)
