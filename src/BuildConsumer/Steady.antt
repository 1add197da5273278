-- ===== src/BuildConsumer/Steady.antt =====
-- A message that names a build that is there, on a database that answers: its build is finished.
use mathlib.Core.List.{Memᴰ}
use mini_serverless_cloud_pl.Base.{
  any, find, find_sound, any_of_find, any_of_mem, any-rewritten, Exception, Result, ok, err, ℕ,
  String, ◌≡◌, refl, ◌∙◌, subst, ◌⊎◌, inl, inr, true, Option, none, some, arith,
}
use mini_serverless_cloud_pl.Schema.{Build, Database}
use mini_serverless_cloud_pl.Prisma.{QueryError, done, fail, Prisma, IsPrisma}
use mini_serverless_cloud_pl.Build.{BuildExecutor, succeeded, gave_up, has_id, run_build}
use mini_serverless_cloud_pl.Build.Runs.{run_build-Ran, Ran}
use mini_serverless_cloud_pl.Stream.{Message}
use mini_serverless_cloud_pl.BuildConsumer.{build_id_of, handle_message, Work}
use mini_serverless_cloud_pl.BuildConsumer.Redelivery.{
  acked_by, IsRow, IsDone, handle_message-Handled, Handled,
}
use mini_serverless_cloud_pl.BuildConsumer.Idempotence.{run_build-IsDone, handle_message-IsDone}

-- A database that answers the query for a build, and the update of one that is there.
pub record IsSteady (P : Prisma) : Type 0 where
  pub finds : (id : ℕ) (db : Database) → (o : Option Build) × (P.build_by_id id db ≡ done o)
  pub updates :
      (id : ℕ) (change : Build → Build) (db : Database)
      → any (has_id id) db.builds ≡ true
      → (db' : Database) × (P.build_update id change db ≡ done db')

abbrev pub HasBuild : ℕ → Database → Type 0
HasBuild id db = any (has_id id) db.builds ≡ true

-- A message is acknowledged, and its build `SUCCESS` or `FAILED`.
abbrev pub IsCompleted : String → ℕ → Work → Type 0
IsCompleted message_id id w = Memᴰ message_id w.acked × ((b : Build) × IsDone id b w.database)

module _ (P : Prisma) (build : BuildExecutor) (prisma : IsPrisma P) where
  run_build-HasBuild :
      (now id : ℕ) (b : Build) (db : Database)
      → HasBuild id db
      → HasBuild id (run_build P build now b db).1
  run_build-HasBuild now id b db there = go (run_build-Ran P build now b db prisma)
    where
      go : {r : Result (Unit {0}) × Database} → Ran P build now b db r → HasBuild id r.1
      go (Ran.made f n image_ref k created_at found next built free row q) = rw q (
          any-rewritten (has_id id) (has_id b.id) (succeeded image_ref now) db.builds (λ x. refl)
          ∙ there)
      go (Ran.marked_failed m row q) =
          rw q
            (any-rewritten (has_id id) (has_id b.id) (gave_up m now) db.builds (λ x. refl) ∙ there)
      go (Ran.thrown x m fails said q) = rw q there

  pub handle_message-HasBuild :
      (now : ℕ) (xack : Result (Unit {0})) (m : Message) (id : ℕ) (w : Work)
      → HasBuild id w.database
      → HasBuild id (handle_message P build now xack m.0 m.1 w).1.database
  handle_message-HasBuild now xack m id w there =
      go (handle_message-Handled P build now prisma xack m.0 m.1 w)
    where
      go :
          {r : Result (Unit {0}) × Work}
          → Handled P build now xack m.0 m.1 w r
          → HasBuild id r.1.database
      go (Handled.unreadable why q) = rw q there
      go (Handled.skipped k b named finished q) = rw q there
      go (Handled.ran k b db' named row unfinished run q) =
          rw q (subst (λ r. HasBuild id r.1) run (run_build-HasBuild now id b w.database there))
      go (Handled.crashed k b x db' named row unfinished run q) =
          rw q (subst (λ r. HasBuild id r.1) run (run_build-HasBuild now id b w.database there))

  -- What is completed stays so, whatever is handled later.
  pub handle_message-IsCompleted :
      (now : ℕ) (xack : Result (Unit {0})) (m : Message) (message_id : String) (id : ℕ) (w : Work)
      → IsCompleted message_id id w
      → IsCompleted message_id id (handle_message P build now xack m.0 m.1 w).1
  handle_message-IsCompleted now xack m message_id id w (there, (b, finished)) = (
    go (handle_message-Handled P build now prisma xack m.0 m.1 w),
    (b, handle_message-IsDone P build now prisma xack m.0 m.1 w id b finished),
  )
    where
      answered : (answer : Result (Unit {0})) → Memᴰ message_id (acked_by answer m.0 w.acked)
      answered (ok u) = Memᴰ.tail there
      answered (err x) = there

      go :
          {r : Result (Unit {0}) × Work}
          → Handled P build now xack m.0 m.1 w r
          → Memᴰ message_id r.1.acked
      go (Handled.unreadable why q) = rw q there
      go (Handled.skipped k c named row q) = rw q (answered xack)
      go (Handled.ran k c db' named row unfinished run q) = rw q (answered xack)
      go (Handled.crashed k c x db' named row unfinished run q) = rw q there

  -- A run returns where the update answers that marks its build as failed.
  run_build-returns :
      (now id : ℕ) (b : Build) (db : Database) (x : Exception) (db' : Database)
      → IsSteady P
      → IsRow id b db
      → run_build P build now b db ≡ (err x, db')
      → ⊥
  run_build-returns now id b db x db' steady row e = go (run_build-Ran P build now b db prisma) e
    where
      there : HasBuild b.id db
      there =
          let (hit, m) = find_sound (has_id id) db.builds b row in
          any_of_mem (has_id b.id) m (ground arith)

      go : {r : Result (Unit {0}) × Database} → Ran P build now b db r → r ≡ (err x, db') → ⊥
      go (Ran.made f n image_ref k created_at found next built free present q) e₁ = cc
      go (Ran.marked_failed m present q) e₁ = cc
      go (Ran.thrown y m fails said q) e₁ =
          let (db₂, answered) = steady.updates b.id (gave_up m now) db there in cc

  -- A message that names a build that is there is completed at once, however the build goes.
  pub handle_message-completes :
      (now : ℕ) (m : Message) (id : ℕ) (w : Work)
      → IsSteady P
      → build_id_of m.1 ≡ some id
      → HasBuild id w.database
      → IsCompleted m.0 id (handle_message P build now (ok tt) m.0 m.1 w).1
  handle_message-completes now m id w steady name there =
      go (handle_message-Handled P build now prisma (ok tt) m.0 m.1 w)
    where
      missing :
          (find (has_id id) w.database.builds ≡ none)
            ⊎ ((q : QueryError) × (P.build_by_id id w.database ≡ fail q))
          → ⊥
      missing (inl gone) = let not_there = any_of_find (has_id id) w.database.builds gone in cc
      missing (inr (q, said)) = let (o, e) = steady.finds id w.database in cc

      go :
          {r : Result (Unit {0}) × Work}
          → Handled P build now (ok tt) m.0 m.1 w r
          → IsCompleted m.0 id r.1
      go (Handled.unreadable why q) = absurd (missing (why id name))
      go (Handled.skipped k c named finished q) =
          let same : k ≡ id = cc in
          rw q (Memᴰ.head refl, (c, subst (λ j. IsDone j c w.database) same finished))
      go (Handled.ran k c db' named row unfinished run q) =
          let same : k ≡ id = cc in
          let (d, finished) = run_build-IsDone P build now prisma k c w.database db' row run in
          rw q (Memᴰ.head refl, (d, subst (λ j. IsDone j d db') same finished))
      go (Handled.crashed k c x db' named row unfinished run q) =
          absurd (run_build-returns now k c w.database x db' steady row run)
