-- ===== src/Worker.antt =====
-- worker/worker.service.ts: what a worker does with a message of the invocation stream, and which
-- messages of other workers it takes over. The container executor is a parameter.
pub mod Jobs
pub mod Reclaim
pub mod EcrLogin
pub mod Life
pub mod RoundTrip
mod Tests
use mini_serverless_cloud_pl.Base.{
  or_else, ℤ, pos, any, keep, number, Action, ◌>>=◌, ◌>>◌, return, failure, Result, ok, err, ℕ, ◌+◌,
  ◌-◌, String, Bool, ◌&&◌, not, Option, none, some, List, [], ◌∷◌, str_eq,
}
use mini_serverless_cloud_pl.Execution.{duration_of, ExecutionOutcome, success, error, timeout}
use mini_serverless_cloud_pl.Registry.{WorkerStatus}
use mini_serverless_cloud_pl.BuildConsumer.{field_of}
use mini_serverless_cloud_pl.Build.{message_of}
use mini_serverless_cloud_pl.Dispatch.{result_channel, Json}

-- `executeVersionedFunction` at an image, an event, and the limits as `Number` reads them (`none` for
-- `NaN`); it may throw.
abbrev pub Executor : Type 0 → Type 0
Executor V = Option String → V → Option ℕ → Option ℕ → Result (ExecutionOutcome V)

-- The gauge of the jobs that run, the counter of the statuses, the durations observed, the replies
-- published and the messages acknowledged.
pub record WorkerState (V : Type 0) : Type 0 where
  pub in_flight : ℕ
  pub counted : List String
  pub observed : List ℤ
  pub replies : List (String × String)
  pub acked : List String

abbrev pub status_text : {V : Type 0} → ExecutionOutcome V → String
status_text (success r d) = "success"
status_text (error m d) = "error"
status_text (timeout d) = "timeout"

abbrev pub entered : {V : Type 0} → WorkerState V → WorkerState V
entered s = record s { in_flight = s.in_flight + 1 }

-- `this.inFlight--` after `this.inFlight++`.
abbrev pub left_again : {V : Type 0} → WorkerState V → WorkerState V
left_again s = record s { in_flight = s.in_flight - 1 }

-- `Number` of a field: a field that is missing is `NaN`. The dispatcher writes decimal numerals; the
-- other spellings that `Number` reads count as `NaN` here.
abbrev pub number_of : Option String → Option ℕ
number_of none = none
number_of (some s) = number s

module _ {V : Type 0} (J : Json V) (execute : Executor V) where
  -- The body of the `try`; `JSON.parse(undefined)` throws as well.
  parsed : Option String → Option V
  parsed none = none
  parsed (some s) = J.parse s

  execution : List String → Option V → Result (ExecutionOutcome V)
  execution fields none = err (failure "Unexpected token in JSON")
  execution fields (some event) =
      execute (field_of "imageTag" fields) event (number_of (field_of "timeoutMs" fields))
        (number_of (field_of "memoryMb" fields))

  -- The `catch`.
  caught : Result (ExecutionOutcome V) → ExecutionOutcome V
  caught (ok o) = o
  caught (err x) = error (message_of x) (pos 0)

  pub outcome_of : List String → ExecutionOutcome V
  unfolding caught execution parsed
  outcome_of fields = caught (execution fields (parsed (field_of "event" fields)))

  finished : ExecutionOutcome V → WorkerState V → WorkerState V
  finished o s =
      let out = left_again (entered s) in
      record out { counted = status_text o ∷ out.counted; observed = duration_of o ∷ out.observed }

  -- `undefined` in a template literal.
  channel_of : List String → String
  channel_of fields = result_channel (or_else (field_of "correlationId" fields) "undefined")

  publish : Result (Unit {0}) → List String → ExecutionOutcome V → Action (WorkerState V) (Unit {0})
  unfolding channel_of
  publish (ok _) fields o s =
      (ok tt, record s { replies = (channel_of fields, J.stringify_outcome o) ∷ s.replies })
  publish (err x) fields o s = (err x, s)

  acknowledge : Result (Unit {0}) → String → Action (WorkerState V) (Unit {0})
  acknowledge (ok _) message_id s = (ok tt, record s { acked = message_id ∷ s.acked })
  acknowledge (err x) message_id s = (err x, s)

  -- `published` and `xack` are what Redis answers.
  pub handle_message :
      Result (Unit {0})
      → Result (Unit {0})
      → String
      → List String
      → Action (WorkerState V) (Unit {0})
  unfolding outcome_of finished publish acknowledge
  handle_message published xack message_id fields = do
    λ s. (ok tt, finished (outcome_of fields) s)
    publish published fields (outcome_of fields)
    acknowledge xack message_id

-- A stale message: its id and the worker that it was delivered to.
abbrev pub PendingEntry : Type 0
PendingEntry = String × String

abbrev pub is_alive : List WorkerStatus → String → Bool
is_alive workers owner = any (λ w. w.healthy && str_eq w.worker_id owner) workers

-- The entries that the two `continue`s of the loop leave: neither the worker's own nor a healthy one's.
abbrev pub to_reclaim : String → List WorkerStatus → List PendingEntry → List PendingEntry
to_reclaim worker_id workers entries =
    keep (λ e. not (str_eq e.1 worker_id) && not (is_alive workers e.1)) entries

module _ {V : Type 0} (J : Json V) (execute : Executor V) where
  -- The messages that one `XCLAIM` gives, or those of one `XREADGROUP`.
  pub handle_all :
      Result (Unit {0})
      → Result (Unit {0})
      → List (String × List String)
      → Action (WorkerState V) (Unit {0})
  unfolding handle_message
  handle_all published xack [] = return tt
  handle_all published xack ((message_id, fields) ∷ messages) = do
    handle_message J execute published xack message_id fields
    handle_all published xack messages

  -- The loop over the entries, with what `XCLAIM` answers for each.
  pub claim_each :
      Result (Unit {0})
      → Result (Unit {0})
      → (String → Result (List (String × List String)))
      → List PendingEntry
      → Action (WorkerState V) (Unit {0})
  unfolding handle_all
  claim_each published xack xclaim [] = return tt
  claim_each published xack xclaim ((message_id, owner) ∷ entries) = do
    claimed ← λ s. (xclaim message_id, s)
    handle_all published xack claimed
    claim_each published xack xclaim entries

  -- Without a stale message the registry is not asked.
  reclaim_entries :
      String
      → Result (List WorkerStatus)
      → Result (Unit {0})
      → Result (Unit {0})
      → (String → Result (List (String × List String)))
      → List PendingEntry
      → Action (WorkerState V) (Unit {0})
  unfolding claim_each
  reclaim_entries worker_id listed published xack xclaim [] = return tt
  reclaim_entries worker_id listed published xack xclaim (e ∷ entries) = do
    workers ← λ s. (listed, s)
    claim_each published xack xclaim (to_reclaim worker_id workers (e ∷ entries))

  -- `reclaimFromDeadWorkers`, with what `XPENDING` and the registry answer.
  pub reclaim_from_dead_workers :
      String
      → Result (List PendingEntry)
      → Result (List WorkerStatus)
      → Result (Unit {0})
      → Result (Unit {0})
      → (String → Result (List (String × List String)))
      → Action (WorkerState V) (Unit {0})
  unfolding reclaim_entries
  reclaim_from_dead_workers worker_id pending listed published xack xclaim = do
    entries ← λ s. (pending, s)
    reclaim_entries worker_id listed published xack xclaim entries
