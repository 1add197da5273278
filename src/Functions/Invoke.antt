-- ===== src/Functions/Invoke.antt =====
-- What an invocation answers and records, on every branch.
use mini_serverless_cloud_pl.Base.{
  ◌==◌, template, sub_ℕ, ℤ, any, resume, ◌>>=◌, Exception, conflict, service_unavailable, failure,
  Result, ok, err, ℕ, String, ◌≡◌, refl, sym, ap, ◌∙◌, ◌⊎◌, inl, inr, Bool, true, false, Option,
  none, some, [], ◌∷◌, ◌++◌,
}
use mini_serverless_cloud_pl.Execution.{duration_of, ExecutionOutcome}
use mini_serverless_cloud_pl.Schema.{
  is_of, FunctionRecord, FunctionVersion, InvocationStatus, Invocation, Database,
}
use mini_serverless_cloud_pl.Prisma.{
  message, unwrap, new_invocation, FindsLatest, Creates, QueryError, Answer, done, fail, Prisma,
  IsPrisma,
}
use mini_serverless_cloud_pl.Functions.{
  query, status_of, error_of, required, get, record_invocation, invoke, InvocationJob, Surroundings,
  recorded, unavailable, attempt, guarded, run_latest,
}

-- The job that the dispatcher is handed.
abbrev pub job_for : {V : Type 0} → FunctionRecord → FunctionVersion → V → InvocationJob V
job_for f v event = record {
  image_tag = v.image_tag;
  event = event;
  timeout_ms = f.timeout_ms;
  memory_mb = f.memory_mb;
}

-- One row was added to the history, or the insert of that row failed and nothing changed.
abbrev pub Recorded :
    Prisma
    → FunctionRecord
    → FunctionVersion
    → ℕ
    → InvocationStatus
    → ℤ
    → Option String
    → Database
    → Database
    → Type 0
Recorded P f v request_id status duration_ms error_message db db' =
    ((q : QueryError) × (P.invocation_create f.id v.id request_id status duration_ms error_message
          db
        ≡ fail q)
      × (db' ≡ db))
    ⊎ ((id : ℕ) × (now : ℕ) × (db' ≡ record db {
      invocations =
          db.invocations
          ++ new_invocation f.id v.id request_id status duration_ms error_message id now ∷ [];
    }))

-- The newest version of a function.
abbrev pub IsNewest : FunctionRecord → FunctionVersion → Database → Type 0
IsNewest f v db = FindsLatest f.id db.versions (done (some v))

module _ (P : Prisma) {V : Type 0} (s : Surroundings V) (user_id : ℕ) (name : String) (event : V)
    (db : Database) where
  pub data Invoked (r : Result (ExecutionOutcome V) × Database) : Type 0 where
    unknown : (e : Exception) → get P user_id name db ≡ (err e, db) → r ≡ (err e, db) → Invoked r
    broken : (m : String) → r ≡ (err (failure m), db) → Invoked r
    unbuilt :
        (f : FunctionRecord) (m : String)
        → get P user_id name db ≡ (ok f, db)
        → any (is_of f.id) db.versions ≡ false
        → r ≡ (err (conflict m), db)
        → Invoked r
    unchecked : (e : Exception) → s.has_spare_capacity ≡ err e → r ≡ (err e, db) → Invoked r
    saturated :
        (f : FunctionRecord) (v : FunctionVersion) (m : String) (db' : Database)
        → get P user_id name db ≡ (ok f, db)
        → IsNewest f v db
        → s.has_spare_capacity ≡ ok false
        → Recorded P f v s.request_id InvocationStatus.no_worker
            (sub_ℕ s.now s.start)
            (some "No healthy worker had spare capacity")
            db
            db'
        → r ≡ (err (service_unavailable m), db')
        → Invoked r
    unanswered :
        (f : FunctionRecord) (v : FunctionVersion) (m : String) (e : Exception) (db' : Database)
        → get P user_id name db ≡ (ok f, db)
        → IsNewest f v db
        → s.has_spare_capacity ≡ ok true
        → s.dispatch (job_for f v event) ≡ err e
        → Recorded P f v s.request_id InvocationStatus.no_worker
            (sub_ℕ s.now s.start)
            (some "No worker responded within the dispatch window")
            db
            db'
        → r ≡ (err (service_unavailable m), db')
        → Invoked r
    answered :
        (f : FunctionRecord) (v : FunctionVersion) (o : ExecutionOutcome V) (db' : Database)
        → get P user_id name db ≡ (ok f, db)
        → IsNewest f v db
        → s.has_spare_capacity ≡ ok true
        → s.dispatch (job_for f v event) ≡ ok o
        → Recorded P f v s.request_id (status_of o) (duration_of o) (error_of o) db db'
        → r ≡ (ok o, db')
        → Invoked r

  module _ (real : IsPrisma P) where
    record_lem :
        (f : FunctionRecord) (v : FunctionVersion) (status : InvocationStatus) (duration_ms : ℤ)
        (error_message : Option String)
        → (db' : Database) × (record_invocation P f.id v.id s.request_id status duration_ms
              error_message db
            ≡ (ok tt, db'))
          × Recorded P f v s.request_id status duration_ms error_message db db'
    unfolding record_invocation recorded
    record_lem f v status duration_ms error_message =
        go (P.invocation_create f.id v.id s.request_id status duration_ms error_message db) refl
          (real.invocation_creates f.id v.id s.request_id status duration_ms error_message db)
      where
        go :
            (a : Answer (Invocation × Database))
            → P.invocation_create f.id v.id s.request_id status duration_ms error_message db ≡ a
            → Creates
                (λ r. r.id)
                (new_invocation f.id v.id s.request_id status duration_ms error_message)
                (λ i. i.request_id == s.request_id)
                db.invocations
                (λ rows. record db { invocations = rows })
                a
            → (db' : Database) × (recorded P db a ≡ (ok tt, db'))
              × Recorded P f v s.request_id status duration_ms error_message db db'
        go (done (row, db')) said (now, same, fresh, free, stored) = (
          db',
          refl,
          inr (
            row.id,
            now,
            stored ∙ ap (λ i. record db { invocations = db.invocations ++ i ∷ [] }) same,
          ),
        )
        go (fail q) said c = (db, refl, inl (q, said, refl))

    unavailable_lem :
        (f : FunctionRecord) (v : FunctionVersion) (reason answer : String)
        → (db' : Database) × (unavailable P s {A = ExecutionOutcome V} f v reason answer db
            ≡ (err (service_unavailable answer), db'))
          × Recorded P f v s.request_id InvocationStatus.no_worker
              (sub_ℕ s.now s.start)
              (some reason)
              db
              db'
    unfolding unavailable
    unavailable_lem f v reason answer =
        let (db', e, r) =
          record_lem f v InvocationStatus.no_worker (sub_ℕ s.now s.start) (some reason) in
        (db', rw e, r)

    module _ (f : FunctionRecord) (v : FunctionVersion) (found : get P user_id name db ≡ (ok f, db))
        (newest : IsNewest f v db) where
      attempt-Invoked : s.has_spare_capacity ≡ ok true → Invoked (attempt P s name f v event db)
      unfolding attempt
      attempt-Invoked spare = go (s.dispatch (job_for f v event)) refl
        where
          go :
              (r : Result (ExecutionOutcome V))
              → s.dispatch (job_for f v event) ≡ r
              → Invoked (attempt P s name f v event db)
          go (ok o) e =
              let (db', kept, r) = record_lem f v (status_of o) (duration_of o) (error_of o) in
              answered f v o db' found newest spare e r (rw e (rw kept))
          go (err x) e =
              let reason : String = "No worker responded within the dispatch window" in
              let answer = template ("No worker was available to run \"" ∷ name ∷ "\"" ∷ []) in
              let (db', kept, r) = unavailable_lem f v reason answer in
              unanswered f v answer x db' found newest spare e r (rw e kept)

      guarded-Invoked :
          (r : Result Bool)
          → s.has_spare_capacity ≡ r
          → Invoked (resume (guarded P s name f v event) (r, db))
      unfolding guarded
      guarded-Invoked (err x) e = unchecked x e refl
      guarded-Invoked (ok true) e = attempt-Invoked e
      guarded-Invoked (ok false) e =
          let reason : String = "No healthy worker had spare capacity" in
          let answer =
            template ("No worker has spare capacity to run \"" ∷ name ∷ "\" right now" ∷ []) in
          let (db', kept, r) = unavailable_lem f v reason answer in
          saturated f v answer db' found newest e r kept

    newest-Invoked :
        (f : FunctionRecord) (a : Answer (Option FunctionVersion))
        → get P user_id name db ≡ (ok f, db)
        → FindsLatest f.id db.versions a
        → Invoked (resume (run_latest P s name f event) (unwrap a, db))
    unfolding run_latest
    newest-Invoked f (done none) found none_left = unbuilt f _ found none_left refl
    newest-Invoked f (done (some v)) found newest =
        guarded-Invoked f v found newest s.has_spare_capacity refl
    newest-Invoked f (fail x) found newest = broken (message x) refl

    get_keeps : (get P user_id name db).1 ≡ db
    unfolding get required
    get_keeps = go (P.function_by_name user_id name db)
      where
        go : (a : Answer (Option FunctionRecord)) → (resume (required P name) (unwrap a, db)).1 ≡ db
        go (done none) = refl
        go (done (some f)) = refl
        go (fail x) = refl

    -- Every call of `invoke` ends in one of the ways above.
    pub invoke-Invoked : Invoked (invoke P s user_id name event db)
    unfolding invoke
    invoke-Invoked = go (get P user_id name db) refl
      where
        go :
            (r : Result FunctionRecord × Database)
            → get P user_id name db ≡ r
            → Invoked (
                resume
                  (λ f.
                    query (P.latest_version f.id) >>= λ latest. run_latest P s name f event latest)
                  r)
        go (ok f, db₁) e =
            let same : db₁ ≡ db = ap (λ r. r.1) (sym e) ∙ get_keeps in
            rw same (
              newest-Invoked f (P.latest_version f.id db) (rw same at e)
                (real.version_finds f.id db))
        go (err x, db₁) e =
            let same : db₁ ≡ db = ap (λ r. r.1) (sym e) ∙ get_keeps in
            rw same (unknown x (rw same at e) refl)
