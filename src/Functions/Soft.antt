-- ===== src/Functions/Soft.antt =====
-- Recording an invocation is a soft dependency: its failure never reaches the caller.
use mini_serverless_cloud_pl.Base.{
  template, sub_ℕ, ℤ, Action, resume, ◌>>=◌, handle, Exception, conflict, service_unavailable,
  failure, Result, ok, err, ℕ, String, ◌≡◌, refl, sym, ◌∙◌, Bool, true, false, Option, none, some,
  [], ◌∷◌,
}
use mini_serverless_cloud_pl.Execution.{duration_of, ExecutionOutcome}
use mini_serverless_cloud_pl.Schema.{
  FunctionRecord, FunctionVersion, InvocationStatus, Invocation, Database,
}
use mini_serverless_cloud_pl.Prisma.{message, unwrap, Answer, done, fail, Prisma}
use mini_serverless_cloud_pl.Functions.{
  query, status_of, error_of, required, get, record_invocation, invoke, Surroundings, recorded,
  unavailable, attempt, guarded, run_latest,
}
use mini_serverless_cloud_pl.Functions.Invoke.{job_for}

-- The answer after an action that always succeeds is that of what follows it.
after_ok :
    {A B : Type 0} (r : Result A × Database) (a : A) (k : A → Action Database B) (b : Result B)
    → r.0 ≡ ok a
    → ((db : Database) → (k a db).0 ≡ b)
    → (resume k r).0 ≡ b
after_ok (ok x, db) a k b e h = let same : x ≡ a = cc in rw same (h db)
after_ok (err x, db) a k b e h = cc

handled_ok :
    {A B : Type 0} (r : Result A × Database) (a : A) (k : A → Action Database B)
    (h : Exception → Action Database B) (b : B)
    → r.0 ≡ ok a
    → ((db : Database) → k a db ≡ (ok b, db))
    → (handle h (resume k r)).0 ≡ ok b
handled_ok (ok x, db) a k h b e l = let same : x ≡ a = cc in rw same (rw (l db))
handled_ok (err x, db) a k h b e l = cc

module _ {V : Type 0} (s : Surroundings V) (name : String) (event : V) where
  -- The answers, with the recording left out.
  verdict : Result (ExecutionOutcome V) → Result (ExecutionOutcome V)
  verdict (ok o) = ok o
  verdict (err x) =
      err (service_unavailable (template ("No worker was available to run \"" ∷ name ∷ "\"" ∷ [])))

  guard_answer : FunctionRecord → FunctionVersion → Result Bool → Result (ExecutionOutcome V)
  guard_answer f v (err x) = err x
  guard_answer f v (ok true) = verdict (s.dispatch (job_for f v event))
  guard_answer f v (ok false) = err (
      service_unavailable
        (template ("No worker has spare capacity to run \"" ∷ name ∷ "\" right now" ∷ [])))

  latest_answer : FunctionRecord → Answer (Option FunctionVersion) → Result (ExecutionOutcome V)
  latest_answer f (done none) = err (
      conflict (
        template (
          "Function \"" ∷ name ∷ "\" has no built version yet - upload one via POST /functions/"
          ∷ name ∷ "/versions first" ∷ [])))
  latest_answer f (done (some v)) = guard_answer f v s.has_spare_capacity
  latest_answer f (fail x) = err (failure (message x))

module _ (P : Prisma) {V : Type 0} (s : Surroundings V) (name : String) (event : V) where
  record_ok :
      (f v : ℕ) (status : InvocationStatus) (d : ℤ) (m : Option String) (db : Database)
      → (record_invocation P f v s.request_id status d m db).0 ≡ ok tt
  unfolding record_invocation recorded
  record_ok f v status d m db = go (P.invocation_create f v s.request_id status d m db)
    where
      go : (a : Answer (Invocation × Database)) → (recorded P db a).0 ≡ ok tt
      go (done (row, db')) = refl
      go (fail x) = refl

  unavailable_answer :
      (f : FunctionRecord) (v : FunctionVersion) (reason answer : String) (db : Database)
      → (unavailable P s {A = ExecutionOutcome V} f v reason answer db).0
        ≡ err (service_unavailable answer)
  unfolding unavailable
  unavailable_answer f v reason answer db =
      after_ok
        (record_invocation P f.id v.id s.request_id InvocationStatus.no_worker (sub_ℕ s.now s.start)
          (some reason) db)
        tt _ (err (service_unavailable answer))
        (record_ok f.id v.id InvocationStatus.no_worker _ _ db) (λ db'. refl)

  found_answer : Result FunctionRecord × Database → Result (ExecutionOutcome V)
  found_answer (ok f, db) = latest_answer s name event f (P.latest_version f.id db)
  found_answer (err x, db) = err x

  attempt_answer :
      (f : FunctionRecord) (v : FunctionVersion) (db : Database)
      → (attempt P s name f v event db).0 ≡ verdict s name event (s.dispatch (job_for f v event))
  unfolding attempt verdict
  attempt_answer f v db = go (s.dispatch (job_for f v event)) refl
    where
      go :
          (r : Result (ExecutionOutcome V))
          → s.dispatch (job_for f v event) ≡ r
          → (attempt P s name f v event db).0 ≡ verdict s name event r
      go (ok o) e = rw e (
          handled_ok
            (record_invocation P f.id v.id s.request_id (status_of o) (duration_of o) (error_of o)
              db)
            tt _ _ o (record_ok f.id v.id (status_of o) (duration_of o) (error_of o) db)
            (λ db'. refl))
      go (err x) e = rw e (unavailable_answer f v _ _ db)

  guarded_answer :
      (f : FunctionRecord) (v : FunctionVersion) (db : Database) (r : Result Bool)
      → (resume (guarded P s name f v event) (r, db)).0 ≡ guard_answer s name event f v r
  unfolding guarded guard_answer
  guarded_answer f v db (err x) = refl
  guarded_answer f v db (ok true) = attempt_answer f v db
  guarded_answer f v db (ok false) = unavailable_answer f v _ _ db

  run_latest_answer :
      (f : FunctionRecord) (db : Database) (a : Answer (Option FunctionVersion))
      → (resume (run_latest P s name f event) (unwrap a, db)).0 ≡ latest_answer s name event f a
  unfolding run_latest latest_answer
  run_latest_answer f db (done none) = refl
  run_latest_answer f db (done (some v)) = guarded_answer f v db s.has_spare_capacity
  run_latest_answer f db (fail x) = refl

  invoke_answer :
      (user_id : ℕ) (db : Database)
      → (invoke P s user_id name event db).0 ≡ found_answer (get P user_id name db)
  unfolding invoke found_answer
  invoke_answer user_id db = go (get P user_id name db)
    where
      go :
          (r : Result FunctionRecord × Database)
          → (resume
              (λ f. query (P.latest_version f.id) >>= λ latest. run_latest P s name f event latest)
              r).0
            ≡ found_answer r
      go (ok f, db') = run_latest_answer f db' (P.latest_version f.id db')
      go (err x, db') = refl

-- Whatever the insert into the history does, fail or succeed, the caller gets the same answer.
pub invoke_soft :
    (P : Prisma) {V : Type 0} (s : Surroundings V) (name : String) (event : V) (user_id : ℕ)
    (db : Database)
    (create : ℕ
      → ℕ
      → ℕ
      → InvocationStatus
      → ℤ
      → Option String
      → Database
      → Answer (Invocation × Database))
    → (invoke (record P { invocation_create = create }) s user_id name event db).0
      ≡ (invoke P s user_id name event db).0
unfolding get required found_answer latest_answer guard_answer verdict
invoke_soft P s name event user_id db create =
    invoke_answer (record P { invocation_create = create }) s name event user_id db
    ∙ go (get P user_id name db)
    ∙ sym (invoke_answer P s name event user_id db)
  where
    go :
        (r : Result FunctionRecord × Database)
        → found_answer (record P { invocation_create = create }) s name event r
          ≡ found_answer P s name event r
    go (ok f, db') = refl
    go (err x, db') = refl
