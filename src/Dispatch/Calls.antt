-- ===== src/Dispatch/Calls.antt =====
-- invocation/invocation-dispatch.service.ts: one call of `dispatch` from its promise to its `finally`.
pub mod Settling
pub mod Replies
use mini_serverless_cloud_pl.Base.{find, Result, ok, err, String, Option, none, some, List, ◌∷◌}
use mini_serverless_cloud_pl.Execution.{ExecutionOutcome}
use mini_serverless_cloud_pl.Functions.{InvocationJob}
use mini_serverless_cloud_pl.Dispatch.{
  result_channel, job_fields, is_channel, drop_waiter, on_event, on_events, Json, Dispatcher, Event,
  waits,
}

-- The promises, the channels that the subscriber listens to, and the fields of the messages added.
pub record Session (V : Type 0) : Type 0 where
  pub dispatcher : Dispatcher V
  pub subscribed : List String
  pub added : List (List String)

-- What Redis answers to the three commands of a call.
pub record Links : Type 0 where
  pub subscribe : Result (Unit {0})
  pub xadd : Result (Unit {0})
  pub unsubscribe : Result (Unit {0})

abbrev pub promise_of :
    {V : Type 0}
    → Option (String × Result (ExecutionOutcome V))
    → Option (Result (ExecutionOutcome V))
promise_of none = none
promise_of (some s) = some s.1

module _ {V : Type 0} (J : Json V) (links : Links) (channel : String) where
  -- What the promise is settled with: `none` while it is pending.
  abbrev pub awaited : Dispatcher V → Option (Result (ExecutionOutcome V))
  awaited d = promise_of (find (λ s. is_channel channel s.0) d.settled)

  -- The `finally`: an error of its own takes the place of the result.
  closed :
      Result (Unit {0})
      → Result (ExecutionOutcome V)
      → Session V
      → Result (ExecutionOutcome V) × Session V
  closed (ok _) r s = (r, record s { subscribed = drop_waiter channel s.subscribed })
  closed (err x) r s = (err x, s)

  settles :
      Option (Result (ExecutionOutcome V))
      → Session V
      → Option (Result (ExecutionOutcome V)) × Session V
  unfolding closed
  settles none s = (none, s)
  settles (some r) s = let (q, t) = closed links.unsubscribe r s in (some q, t)

  -- After the `XADD`: `es` are the replies and timers until the call returns.
  after_xadd :
      Result (Unit {0})
      → List String
      → List Event
      → Session V
      → Option (Result (ExecutionOutcome V)) × Session V
  unfolding settles on_events
  after_xadd (err x) fields es s = settles (some (err x)) s
  after_xadd (ok _) fields es s =
      let waited = on_events J es s.dispatcher in
      settles (awaited waited) (record s { dispatcher = waited; added = fields ∷ s.added })

  after_subscribe :
      Result (Unit {0})
      → List String
      → List Event
      → Session V
      → Option (Result (ExecutionOutcome V)) × Session V
  unfolding after_xadd
  after_subscribe (err x) fields es s = (some (err x), s)
  after_subscribe (ok _) fields es s =
      after_xadd links.xadd fields es (record s { subscribed = channel ∷ s.subscribed })

-- The result of a call, `none` if it has not returned by then, and what it leaves.
pub dispatch :
    {V : Type 0}
    → Json V
    → Links
    → String
    → InvocationJob V
    → List Event
    → Session V
    → Option (Result (ExecutionOutcome V)) × Session V
unfolding on_event after_subscribe
dispatch J links correlation_id job es s =
    let channel = result_channel correlation_id in
    after_subscribe J links channel links.subscribe (job_fields J correlation_id job) es
      (record s { dispatcher = on_event J (waits channel) s.dispatcher })
