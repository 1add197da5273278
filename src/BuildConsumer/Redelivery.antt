-- ===== src/BuildConsumer/Redelivery.antt =====
-- At-least-once delivery: a message may come again, and then its build is finished already.
use mini_serverless_cloud_pl.Base.{
  Bool-cases, find, resume, return, handle, Exception, Result, ok, err, ℕ, String, ◌≡◌, refl, sym,
  ◌⊎◌, inl, inr, true, false, Option, none, some, List, ◌∷◌,
}
use mini_serverless_cloud_pl.Schema.{Build, Database}
use mini_serverless_cloud_pl.Prisma.{
  unwrap, Finds, QueryError, Answer, done, fail, Prisma, IsPrisma,
}
use mini_serverless_cloud_pl.Build.{BuildExecutor, has_id, run_build}
use mini_serverless_cloud_pl.BuildConsumer.{
  is_finished, with_database, build_id_of, required_build, find_build, run_unless_finished,
  handle_message, Work, acknowledge,
}

-- The acknowledged messages after Redis has answered to `XACK`.
abbrev pub acked_by : Result (Unit {0}) → String → List String → List String
acked_by (ok _) message_id acked = message_id ∷ acked
acked_by (err x) message_id acked = acked

-- The row of a build, and that it is `SUCCESS` or `FAILED`.
abbrev pub IsRow : ℕ → Build → Database → Type 0
IsRow id b db = find (has_id id) db.builds ≡ some b

abbrev pub IsDone : ℕ → Build → Database → Type 0
IsDone id b db = IsRow id b db × (is_finished b.status ≡ true)

module _ (P : Prisma) (build : BuildExecutor) (now : ℕ) where
  -- No build is named, or one that is not there, or the query for it fails.
  abbrev pub IsMissing : Option ℕ → Database → Type 0
  IsMissing o db =
      (id : ℕ)
      → o ≡ some id
      → (find (has_id id) db.builds ≡ none) ⊎ ((q : QueryError) × (P.build_by_id id db ≡ fail q))

  -- What the handling of a message does to the work that it finds.
  pub data Handled (xack : Result (Unit {0})) (message_id : String) (fields : List String)
      (w : Work) (r : Result (Unit {0}) × Work) : Type 0 where
    unreadable :
        IsMissing (build_id_of fields) w.database
        → r ≡ (ok tt, w)
        → Handled xack message_id fields w r
    skipped :
        (id : ℕ) (b : Build)
        → build_id_of fields ≡ some id
        → IsDone id b w.database
        → r ≡ (ok tt, record w { acked = acked_by xack message_id w.acked })
        → Handled xack message_id fields w r
    ran :
        (id : ℕ) (b : Build) (db' : Database)
        → build_id_of fields ≡ some id
        → IsRow id b w.database
        → is_finished b.status ≡ false
        → run_build P build now b w.database ≡ (ok tt, db')
        → r ≡ (ok tt, record { database = db'; acked = acked_by xack message_id w.acked })
        → Handled xack message_id fields w r
    crashed :
        (id : ℕ) (b : Build) (x : Exception) (db' : Database)
        → build_id_of fields ≡ some id
        → IsRow id b w.database
        → is_finished b.status ≡ false
        → run_build P build now b w.database ≡ (err x, db')
        → r ≡ (ok tt, record w { database = db' })
        → Handled xack message_id fields w r

  module _ (real : IsPrisma P) (xack : Result (Unit {0})) (message_id : String)
      (fields : List String) (w : Work) where
    find_build-cases :
        (o : Option ℕ)
        → ((id : ℕ) × (b : Build) × (o ≡ some id)
            × IsRow id b w.database
            × (find_build P build now o w.database ≡ (ok b, w.database)))
          ⊎ ((x : Exception) × IsMissing o w.database
              × (find_build P build now o w.database ≡ (err x, w.database)))
    unfolding find_build required_build
    find_build-cases none = inr (_, (λ id e. cc), refl)
    find_build-cases (some id) =
        go (P.build_by_id id w.database) refl (real.build_finds id w.database)
      where
        named :
            (k : ℕ)
            → some id ≡ some k
            → find (has_id id) w.database.builds ≡ none
            → find (has_id k) w.database.builds ≡ none
        named k e f = let same : id ≡ k = cc in rw (← same) f

        failed_at :
            (k : ℕ) {q : QueryError}
            → some id ≡ some k
            → P.build_by_id id w.database ≡ fail q
            → P.build_by_id k w.database ≡ fail q
        failed_at k e f = let same : id ≡ k = cc in rw (← same) f

        go :
            (a : Answer (Option Build))
            → P.build_by_id id w.database ≡ a
            → Finds (has_id id) w.database.builds a
            → ((k : ℕ) × (b : Build) × (some id ≡ some k)
                × IsRow k b w.database
                × (resume (required_build P build now) (unwrap a, w.database) ≡ (ok b, w.database)))
              ⊎ ((x : Exception) × IsMissing (some id) w.database
                  × (resume (required_build P build now) (unwrap a, w.database)
                      ≡ (err x, w.database)))
        go (done none) said f = inr (_, (λ k e. inl (named k e (sym f))), refl)
        go (done (some b)) said f = inl (id, b, refl, sym f, refl)
        go (fail q) said f = inr (_, (λ k e. inr (q, failed_at k e said)), refl)

    acknowledge_eq :
        (answer : Result (Unit {0})) (v : Work)
        → handle (λ _. return tt) (acknowledge P build now answer message_id v)
          ≡ (ok tt, record v { acked = acked_by answer message_id v.acked })
    unfolding acknowledge
    acknowledge_eq (ok u) v = refl
    acknowledge_eq (err x) v = refl

    found-Handled :
        (id : ℕ) (b : Build)
        → build_id_of fields ≡ some id
        → IsRow id b w.database
        → Handled xack message_id fields w (
            handle
              (λ _. return tt)
              (resume
                (λ _. acknowledge P build now xack message_id)
                (with_database w (run_unless_finished P build now b w.database))))
    unfolding run_unless_finished
    found-Handled id b named row = elim (Bool-cases (is_finished b.status)) [
      | inl finished ↦ rw finished (skipped id b named (row, finished) (acknowledge_eq xack w))
      | inr unfinished ↦ rw unfinished (go (run_build P build now b w.database) refl unfinished)
    ]
      where
        go :
            (r : Result (Unit {0}) × Database)
            → run_build P build now b w.database ≡ r
            → is_finished b.status ≡ false
            → Handled xack message_id fields w (
                handle
                  (λ _. return tt)
                  (resume (λ _. acknowledge P build now xack message_id) (with_database w r)))
        go (ok u, db') e unfinished =
            ran id b db' named row unfinished e (acknowledge_eq xack (record w { database = db' }))
        go (err x, db') e unfinished = crashed id b x db' named row unfinished e refl

    pub handle_message-Handled :
        Handled xack message_id fields w (handle_message P build now xack message_id fields w)
    unfolding handle_message
    handle_message-Handled = elim (find_build-cases (build_id_of fields)) [
      | inl (id, b, named, row, e) ↦ rw e (found-Handled id b named row)
      | inr (x, why, e) ↦ rw e (unreadable why refl)
    ]

    -- Whatever the build does, the handling does not throw.
    pub handle_message-ok : (handle_message P build now xack message_id fields w).0 ≡ ok tt
    handle_message-ok = go handle_message-Handled
      where
        go : {r : Result (Unit {0}) × Work} → Handled xack message_id fields w r → r.0 ≡ ok tt
        go (Handled.unreadable why q) = rw q refl
        go (Handled.skipped id b named row q) = rw q refl
        go (Handled.ran id b db' named row unfinished run q) = rw q refl
        go (Handled.crashed id b x db' named row unfinished run q) = rw q refl
