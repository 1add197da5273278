-- ===== src/Dispatch/Tests.antt =====
-- The dispatcher at one call, whose timer fires before any reply.
use mathlib.Core.List.{Memᴰ}
use mini_serverless_cloud_pl.Base.{
  pos, any, Result, ok, String, ◌≡◌, refl, false, some, List, [], ◌∷◌,
}
use mini_serverless_cloud_pl.Execution.{ExecutionOutcome, timeout}
use mini_serverless_cloud_pl.Dispatch.{is_channel, no_waiters, Json, Event, expires}
use mini_serverless_cloud_pl.Functions.{InvocationJob}
use mini_serverless_cloud_pl.Dispatch.Calls.{dispatch, Session}
use mini_serverless_cloud_pl.Dispatch.Calls.Settling.{dispatch-returns}
use mini_serverless_cloud_pl.Dispatch.Calls.Replies.{all_ok}

abbrev texts : Json String
texts = record {
  or_empty = λ s. s;
  stringify = λ s. s;
  parse = λ s. some s;
  stringify_outcome = λ o. "{}";
  parse_outcome = λ s. some (timeout (pos 5));
}

abbrev job : InvocationJob String
job = record { image_tag = "hello:1"; event = "{}"; timeout_ms = 3000; memory_mb = 128 }

abbrev session : Session String
session = record { dispatcher = no_waiters; subscribed = []; added = [] }

abbrev late : List Event
late = expires "invocation-result:c1" ∷ []

dispatch-returns_example :
    (r : Result (ExecutionOutcome String)) × ((dispatch texts all_ok "c1" job late session).0
      ≡ some r)
    × (all_ok.subscribe ≡ ok tt
        → all_ok.unsubscribe ≡ ok tt
        → any
            (is_channel "invocation-result:c1")
            (dispatch texts all_ok "c1" job late session).1.subscribed
          ≡ false)
dispatch-returns_example =
    dispatch-returns texts all_ok "c1" job late session (tt, tt) (Memᴰ.head refl)
