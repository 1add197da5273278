-- ===== src/Dispatch.antt =====
-- invocation/invocation-dispatch.service.ts: the message that a dispatch puts into the stream, and the
-- promises that wait for a reply. A promise is settled by the first reply or by its timer.
pub mod Waiters
pub mod Calls
mod Tests
use mini_serverless_cloud_pl.Base.{
  if◌then◌else◌, template, any, keep, show, failure, Result, ok, err, String, Bool, not, Option,
  none, some, List, [], ◌∷◌, str_eq,
}
use mini_serverless_cloud_pl.Execution.{ExecutionOutcome}
use mini_serverless_cloud_pl.Functions.{InvocationJob}

-- JSON: `JSON.stringify(event)` and `JSON.parse` of it (`none` where it throws), `event ?? {}`, and the
-- same for outcomes.
pub record Json (V : Type 0) : Type 0 where
  pub or_empty : V → V
  pub stringify : V → String
  pub parse : String → Option V
  pub stringify_outcome : ExecutionOutcome V → String
  pub parse_outcome : String → Option (ExecutionOutcome V)

-- `invocationResultChannel`.
abbrev pub result_channel : String → String
result_channel correlation_id = template ("invocation-result:" ∷ correlation_id ∷ [])

module _ {V : Type 0} (J : Json V) where
  -- The fields of the `XADD`.
  abbrev pub job_fields : String → InvocationJob V → List String
  job_fields correlation_id job =
      "correlationId"
      ∷ correlation_id
      ∷ "imageTag"
      ∷ job.image_tag
      ∷ "event"
      ∷ J.stringify (J.or_empty job.event)
      ∷ "timeoutMs"
      ∷ show job.timeout_ms
      ∷ "memoryMb"
      ∷ show job.memory_mb
      ∷ []

-- The channels that have a waiter, and the promises that are settled, the last one first.
pub record Dispatcher (V : Type 0) : Type 0 where
  pub waiters : List String
  pub settled : List (String × Result (ExecutionOutcome V))

pub data Event : Type 0 where
  waits : String → Event
  message : String → String → Event
  expires : String → Event

abbrev pub is_channel : String → String → Bool
is_channel channel c = str_eq c channel

-- `waiters.set`.
abbrev pub add_waiter : String → List String → List String
add_waiter channel waiters = if any (is_channel channel) waiters then waiters else channel ∷ waiters

-- `waiters.delete`.
abbrev pub drop_waiter : String → List String → List String
drop_waiter channel waiters = keep (λ c. not (is_channel channel c)) waiters

module _ {V : Type 0} (J : Json V) where
  -- A reply that is no JSON throws in the listener, after the waiter is gone.
  settled_by : String → Option (ExecutionOutcome V) → Dispatcher V → Dispatcher V
  settled_by channel none d = record d { waiters = drop_waiter channel d.waiters }
  settled_by channel (some o) d = record {
    waiters = drop_waiter channel d.waiters;
    settled = (channel, ok o) ∷ d.settled;
  }

  pub on_event : Event → Dispatcher V → Dispatcher V
  unfolding settled_by
  on_event (waits channel) d = record d { waiters = add_waiter channel d.waiters }
  on_event (message channel text) d =
      if any (is_channel channel) d.waiters then settled_by channel (J.parse_outcome text) d else d
  on_event (expires channel) d =
      if any (is_channel channel) d.waiters
      then record {
        waiters = drop_waiter channel d.waiters;
        settled = (channel, err (failure "No worker responded in time")) ∷ d.settled;
      }
      else d

  pub on_events : List Event → Dispatcher V → Dispatcher V
  unfolding on_event
  on_events [] d = d
  on_events (e ∷ es) d = on_events es (on_event e d)

abbrev pub no_waiters : {V : Type 0} → Dispatcher V
no_waiters = record { waiters = []; settled = [] }
