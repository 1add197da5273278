-- ===== src/Functions.antt =====
-- functions/functions.service.ts and functions/functions.controller.ts: the functions of each
-- account, and their invocation. The database is the state of an action; what the redis-backed
-- services answer to one invocation is its `Surroundings`.
pub mod Tenancy
pub mod Invoke
pub mod Recording
pub mod Soft
pub mod Accounts
pub mod History
pub mod Listings
pub mod Validation
mod Tests
use mini_serverless_cloud_pl.Base.{
  if◌then◌else◌, or_else, template, sub_ℕ, ℤ, Action, ◌>>=◌, ◌>>◌, return, throw, try_catch,
  not_found, conflict, service_unavailable, failure, Result, ok, err, ℕ, String, Bool, Option, none,
  some, [], ◌∷◌,
}
use mini_serverless_cloud_pl.Execution.{duration_of, ExecutionOutcome, success, error, timeout}
use mini_serverless_cloud_pl.Schema.{FunctionRecord, FunctionVersion, InvocationStatus, Database}
use mini_serverless_cloud_pl.Prisma.{unwrap, p2002, p2025, other, Answer, done, fail, Prisma}

pub record RegisterFunctionDto : Type 0 where
  pub name : String
  pub memory_mb : Option ℕ
  pub timeout_ms : Option ℕ

pub record InvocationJob (V : Type 0) : Type 0 where
  pub image_tag : String
  pub event : V
  pub timeout_ms : ℕ
  pub memory_mb : ℕ

-- What one call of `invoke` gets from outside the database: the readings of the clock before the
-- capacity check and before the row is written, a random request id, and the two other services.
pub record Surroundings (V : Type 0) : Type 0 where
  pub start : ℕ
  pub now : ℕ
  pub request_id : ℕ
  pub has_spare_capacity : Result Bool
  pub dispatch : InvocationJob V → Result (ExecutionOutcome V)

-- A query that only reads.
abbrev pub query : {A : Type 0} → (Database → Answer A) → Action Database A
query q db = (unwrap (q db), db)

abbrev pub not_found_message : String → String
not_found_message name = template ("Function \"" ∷ name ∷ "\" not found" ∷ [])

-- What the row of an invocation that came back says of its outcome.
abbrev pub status_of : {V : Type 0} → ExecutionOutcome V → InvocationStatus
status_of (success result d) = InvocationStatus.success
status_of (timeout d) = InvocationStatus.timeout
status_of (error e d) = InvocationStatus.error

abbrev pub error_of : {V : Type 0} → ExecutionOutcome V → Option String
error_of (success result d) = none
error_of (timeout d) = some "Function timed out"
error_of (error e d) = some e

module _ (P : Prisma) where
  unfoldable pub created :
      String → Database → Answer (FunctionRecord × Database) → Result FunctionRecord × Database
  created name db (done (row, db')) = (ok row, db')
  created name db (fail (p2002 m)) =
      (err (conflict (template ("Function \"" ∷ name ∷ "\" already exists" ∷ []))), db)
  created name db (fail (p2025 m)) = (err (failure m), db)
  created name db (fail (other m)) = (err (failure m), db)

  unfoldable pub register : ℕ → RegisterFunctionDto → Action Database FunctionRecord
  unfolding created
  register user_id dto db = created dto.name db (
      P.function_create user_id dto.name (or_else dto.memory_mb 128) (or_else dto.timeout_ms 3000)
        db)

  unfoldable pub required : String → Option FunctionRecord → Action Database FunctionRecord
  required name none = throw (not_found (not_found_message name))
  required name (some record_found) = return record_found

  unfoldable pub get : ℕ → String → Action Database FunctionRecord
  unfolding required
  get user_id name = do found ← query (P.function_by_name user_id name); required name found

  removed : String → Database → Answer Database → Result (Unit {0}) × Database
  removed name db (done db') = (ok tt, db')
  removed name db (fail (p2002 m)) = (err (failure m), db)
  removed name db (fail (p2025 m)) = (err (not_found (not_found_message name)), db)
  removed name db (fail (other m)) = (err (failure m), db)

  pub remove : ℕ → String → Action Database (Unit {0})
  unfolding removed
  remove user_id name db = removed name db (P.function_delete user_id name db)

  -- A failure to write the row is swallowed.
  recorded : {A : Type 0} → Database → Answer (A × Database) → Result (Unit {0}) × Database
  recorded db (done (row, db')) = (ok tt, db')
  recorded db (fail e) = (ok tt, db)

  pub record_invocation :
      ℕ → ℕ → ℕ → InvocationStatus → ℤ → Option String → Action Database (Unit {0})
  unfolding recorded
  record_invocation function_id version_id request_id status duration_ms error_message db =
      recorded db
        (P.invocation_create function_id version_id request_id status duration_ms error_message db)

  module _ {V : Type 0} (s : Surroundings V) where
    -- The `NO_WORKER` row, then the 503.
    unavailable :
        {A : Type 0} → FunctionRecord → FunctionVersion → String → String → Action Database A
    unavailable f v reason answer = do
      record_invocation f.id v.id s.request_id InvocationStatus.no_worker (sub_ℕ s.now s.start)
          (some reason)
      throw (service_unavailable answer)

    -- The `try` block around the dispatch, and its `catch`.
    attempt : String → FunctionRecord → FunctionVersion → V → Action Database (ExecutionOutcome V)
    unfolding unavailable
    attempt name f v event =
        try_catch
          (do
            outcome ← λ db. (
              s.dispatch (record {
                image_tag = v.image_tag;
                event = event;
                timeout_ms = f.timeout_ms;
                memory_mb = f.memory_mb;
              }),
              db,
            )
            record_invocation f.id v.id s.request_id (status_of outcome) (duration_of outcome)
                (error_of outcome)
            return outcome)
          (λ _.
            unavailable f v "No worker responded within the dispatch window"
              (template ("No worker was available to run \"" ∷ name ∷ "\"" ∷ [])))

    -- The backpressure test.
    guarded :
        String → FunctionRecord → FunctionVersion → V → Bool → Action Database (ExecutionOutcome V)
    unfolding attempt
    guarded name f v event spare =
        if spare
        then attempt name f v event
        else unavailable f v "No healthy worker had spare capacity"
            (template ("No worker has spare capacity to run \"" ∷ name ∷ "\" right now" ∷ []))

    run_latest :
        String → FunctionRecord → V → Option FunctionVersion → Action Database (ExecutionOutcome V)
    unfolding guarded
    run_latest name f event none = throw (
        conflict (
          template (
            "Function \"" ∷ name ∷ "\" has no built version yet - upload one via POST /functions/"
            ∷ name ∷ "/versions first" ∷ [])))
    run_latest name f event (some v) = do
      spare ← λ db. (s.has_spare_capacity, db)
      guarded name f v event spare

    pub invoke : ℕ → String → V → Action Database (ExecutionOutcome V)
    unfolding run_latest
    invoke user_id name event = do
      f ← get user_id name
      latest ← query (P.latest_version f.id)
      run_latest name f event latest

-- The response of `POST /functions/:name/invoke`.
pub data InvokeBody (V : Type 0) : Type 0 where
  returned : V → ℤ → InvokeBody V
  failed : String → ℤ → InvokeBody V

pub record InvokeResponse (V : Type 0) : Type 0 where
  pub status : ℕ
  pub function_error : Option String
  pub body : InvokeBody V

pub respond : {V : Type 0} → ExecutionOutcome V → InvokeResponse V
respond (success result d) = record {
  status = 200;
  function_error = none;
  body = returned result d;
}
respond (timeout d) = record {
  status = 200;
  function_error = some "Timeout";
  body = failed "Function timed out" d;
}
respond (error e d) = record { status = 200; function_error = some "Unhandled"; body = failed e d }

pub invoke_endpoint :
    Prisma → {V : Type 0} → Surroundings V → ℕ → String → V → Action Database (InvokeResponse V)
unfolding invoke respond
invoke_endpoint P s user_id name event = do
  outcome ← invoke P s user_id name event
  return (respond outcome)
