-- ===== src/Functions/Recording.antt =====
-- The history of invocations: what is recorded when, and that recording is a soft dependency.
use mini_serverless_cloud_pl.Base.{
  sub_ℕ, ℤ, Exception, service_unavailable, Result, ok, err, ℕ, String, ◌≡◌, refl, ap, ◌∙◌, ◌≢◌,
  ◌⊎◌, inl, inr, false, Option, none, some, [], ◌∷◌, ◌++◌,
}
use mini_serverless_cloud_pl.Execution.{duration_of, ExecutionOutcome, success, error, timeout}
use mini_serverless_cloud_pl.Schema.{
  FunctionRecord, FunctionVersion, InvocationStatus, Invocation, Database,
}
use mini_serverless_cloud_pl.Prisma.{Prisma, IsPrisma}
use mini_serverless_cloud_pl.Functions.{status_of, error_of, get, invoke, Surroundings}
use mini_serverless_cloud_pl.Functions.Invoke.{job_for, Recorded, IsNewest, invoke-Invoked, Invoked}
use mini_serverless_cloud_pl.Functions.Tenancy.{get_sound, get-ne-unavailable}

-- The history of an outcome: the insert is of its own status, duration and error.
abbrev pub RecordedOutcome :
    {V : Type 0}
    → Prisma
    → FunctionRecord
    → FunctionVersion
    → ℕ
    → ExecutionOutcome V
    → Database
    → Database
    → Type 0
RecordedOutcome P f v request_id (success result duration) db db' =
    Recorded P f v request_id InvocationStatus.success duration none db db'
RecordedOutcome P f v request_id (error m duration) db db' =
    Recorded P f v request_id InvocationStatus.error duration (some m) db db'
RecordedOutcome P f v request_id (timeout duration) db db' =
    Recorded P f v request_id InvocationStatus.timeout duration (some "Function timed out") db db'

module _ (P : Prisma) {V : Type 0} (s : Surroundings V) (user_id : ℕ) (name : String) (event : V)
    (db : Database) where
  -- A 503 of the platform comes with a `NO_WORKER` row, unless the insert of that row fails: no worker
  -- had room, or the dispatcher threw, and the row's error says which of the two. (A capacity check
  -- that throws a 503 itself is passed on.)
  pub invoke-unavailable :
      IsPrisma P
      → (m : String) (db' : Database) → s.has_spare_capacity ≢ err (service_unavailable m)
      → invoke P s user_id name event db ≡ (err (service_unavailable m), db')
      → (f : FunctionRecord) × (v : FunctionVersion) × (reason : String) × IsNewest f v db
        × (((s.has_spare_capacity ≡ ok false) × (reason ≡ "No healthy worker had spare capacity"))
            ⊎ ((x : Exception) × (s.dispatch (job_for f v event) ≡ err x)
                × (reason ≡ "No worker responded within the dispatch window")))
        × Recorded P f v s.request_id InvocationStatus.no_worker
            (sub_ℕ s.now s.start)
            (some reason)
            db
            db'
  invoke-unavailable real m db' sound e = go (invoke-Invoked P s user_id name event db real) e
    where
      go :
          {r : Result (ExecutionOutcome V) × Database}
          → Invoked P s user_id name event db r
          → r ≡ (err (service_unavailable m), db')
          → (f : FunctionRecord) × (v : FunctionVersion) × (reason : String) × IsNewest f v db
            × (((s.has_spare_capacity ≡ ok false)
                  × (reason ≡ "No healthy worker had spare capacity"))
                ⊎ ((x : Exception) × (s.dispatch (job_for f v event) ≡ err x)
                    × (reason ≡ "No worker responded within the dispatch window")))
            × Recorded P f v s.request_id InvocationStatus.no_worker
                (sub_ℕ s.now s.start)
                (some reason)
                db
                db'
      go (Invoked.answered _ _ _ _ _ _ _ _ _ q) e₁ = cc
      go (Invoked.unknown x u q) e₁ =
          let same : x ≡ service_unavailable m = cc in
          absurd (get-ne-unavailable P real user_id name m db db (rw same at u))
      go (Invoked.broken _ q) e₁ = cc
      go (Invoked.unbuilt _ _ _ _ q) e₁ = cc
      go (Invoked.unchecked x u q) e₁ =
          let same : x ≡ service_unavailable m = cc in absurd (sound (rw same at u))
      go (Invoked.saturated f v _ db₁ found newest full kept q) e₁ =
          let same_db : db₁ ≡ db' = cc in rw (← same_db) (f, v, _, newest, inl (full, refl), kept)
      go (Invoked.unanswered f v _ x db₁ found newest spare sent kept q) e₁ =
          let same_db : db₁ ≡ db' = cc in
          rw (← same_db) (f, v, _, newest, inr (x, sent, refl), kept)

  -- Whatever it answers, an invocation adds at most one row to the history, of a function of the
  -- caller's with that name, and changes nothing else in the database.
  pub invoke_appends :
      IsPrisma P
      → ((invoke P s user_id name event db).1 ≡ db)
        ⊎ ((f : FunctionRecord) × (row : Invocation) × (f.user_id ≡ user_id)
            × (f.name ≡ name)
            × (row.function_id ≡ f.id)
            × ((invoke P s user_id name event db).1
                ≡ record db { invocations = db.invocations ++ row ∷ [] }))
  invoke_appends real = go (invoke-Invoked P s user_id name event db real)
    where
      Adds : Database → Type 0
      Adds db' =
          (db' ≡ db)
          ⊎ ((f : FunctionRecord) × (row : Invocation) × (f.user_id ≡ user_id)
              × (f.name ≡ name)
              × (row.function_id ≡ f.id)
              × (db' ≡ record db { invocations = db.invocations ++ row ∷ [] }))

      adds :
          (f : FunctionRecord) (v : FunctionVersion) (status : InvocationStatus) (d : ℤ)
          (m : Option String) (db' : Database) {r : Result (ExecutionOutcome V)}
          {q : Result (ExecutionOutcome V) × Database}
          → get P user_id name db ≡ (ok f, db)
          → Recorded P f v s.request_id status d m db db'
          → q ≡ (r, db')
          → Adds q.1
      adds f v status d m db' found (inl (q, said, same)) e = inl (ap (λ r. r.1) e ∙ same)
      adds f v status d m db' found (inr (id, now, same)) e =
          let (mine, named, _, _) = get_sound P real user_id name db db f found in
          inr (f, _, mine, named, refl, ap (λ r. r.1) e ∙ same)

      go :
          {r : Result (ExecutionOutcome V) × Database}
          → Invoked P s user_id name event db r
          → Adds r.1
      go (Invoked.answered f v o db' found _ _ _ kept q) =
          adds f v (status_of o) (duration_of o) (error_of o) db' found kept q
      go (Invoked.unknown _ _ q) = inl (ap (λ r. r.1) q)
      go (Invoked.broken _ q) = inl (ap (λ r. r.1) q)
      go (Invoked.unbuilt _ _ _ _ q) = inl (ap (λ r. r.1) q)
      go (Invoked.unchecked _ _ q) = inl (ap (λ r. r.1) q)
      go (Invoked.saturated f v _ db' found _ _ kept q) = adds f v _ _ _ db' found kept q
      go (Invoked.unanswered f v _ _ db' found _ _ _ kept q) = adds f v _ _ _ db' found kept q
