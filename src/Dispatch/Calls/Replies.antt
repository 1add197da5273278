-- ===== src/Dispatch/Calls/Replies.antt =====
-- A reply on a call's channel is the call's result, whatever other calls do meanwhile.
use mini_serverless_cloud_pl.Base.{
  Bool-cases, All, any, find, ok, String, ◌≡◌, refl, inl, inr, true, false, Option, none, some,
  List, [], ◌∷◌, ◌++◌, arith, eq_refl,
}
use mini_serverless_cloud_pl.Execution.{ExecutionOutcome}
use mini_serverless_cloud_pl.Functions.{InvocationJob}
use mini_serverless_cloud_pl.Dispatch.{
  result_channel, job_fields, is_channel, on_event, on_events, Json, Dispatcher, Event, waits,
  message, expires, settled_by,
}
use mini_serverless_cloud_pl.Dispatch.Calls.{
  promise_of, dispatch, Session, Links, closed, settles, after_xadd, after_subscribe,
}
use mini_serverless_cloud_pl.Dispatch.Calls.Settling.{any-drop_other}

-- An event of another call: it does not concern the channel.
abbrev pub IsElsewhere : String → Event → Type 0
IsElsewhere channel (waits c) = is_channel channel c ≡ false
IsElsewhere channel (message c text) = is_channel channel c ≡ false
IsElsewhere channel (expires c) = is_channel channel c ≡ false

module _ {V : Type 0} (J : Json V) (channel : String) where
  -- A waiter stays while other calls come and go.
  on_event-elsewhere :
      (e : Event) (d : Dispatcher V)
      → IsElsewhere channel e
      → any (is_channel channel) d.waiters ≡ true
      → any (is_channel channel) (on_event J e d).waiters ≡ true
  unfolding on_event settled_by
  on_event-elsewhere (waits c) d other waiting = elim (Bool-cases (any (is_channel c) d.waiters)) [
    | inl hit ↦ rw hit waiting
    | inr miss ↦ rw miss (ground arith)
  ]
  on_event-elsewhere (message c text) d other waiting =
      elim (Bool-cases (any (is_channel c) d.waiters)) [
        | inl hit ↦ rw hit (go (J.parse_outcome text))
        | inr miss ↦ rw miss waiting
      ]
    where
      go :
          (o : Option (ExecutionOutcome V))
          → any (is_channel channel) (settled_by J c o d).waiters ≡ true
      go none = any-drop_other J channel c d.waiters other waiting
      go (some o) = any-drop_other J channel c d.waiters other waiting
  on_event-elsewhere (expires c) d other waiting =
      elim (Bool-cases (any (is_channel c) d.waiters)) [
        | inl hit ↦ rw hit (any-drop_other J channel c d.waiters other waiting)
        | inr miss ↦ rw miss waiting
      ]

  on_events-replied :
      (others : List Event) (text : String) (o : ExecutionOutcome V) (d : Dispatcher V)
      → All (IsElsewhere channel) others
      → J.parse_outcome text ≡ some o
      → any (is_channel channel) d.waiters ≡ true
      → promise_of (
          find
            (λ s. is_channel channel s.0)
            (on_events J (others ++ message channel text ∷ []) d).settled)
        ≡ some (ok o)
  unfolding on_events on_event settled_by
  on_events-replied [] text o d _ parses waiting = rw (waiting, parses) (rw (eq_refl channel) refl)
  on_events-replied (e ∷ others) text o d (h, hs) parses waiting =
      on_events-replied others text o (on_event J e d) hs parses (on_event-elsewhere e d h waiting)

  waits-waiting :
      (d : Dispatcher V) → any (is_channel channel) (on_event J (waits channel) d).waiters ≡ true
  unfolding on_event
  waits-waiting d = elim (Bool-cases (any (is_channel channel) d.waiters)) [
    | inl hit ↦ rw hit hit
    | inr miss ↦ rw miss (rw (eq_refl channel) refl)
  ]

-- Every command is answered.
abbrev pub all_ok : Links
all_ok = record { subscribe = ok tt; xadd = ok tt; unsubscribe = ok tt }

module _ {V : Type 0} (J : Json V) (correlation_id : String) (job : InvocationJob V) where
  -- A call whose reply comes before its timer, after any events of other calls, has added its job to the
  -- stream and returns what the reply stands for.
  pub dispatch-replied :
      (others : List Event) (text : String) (o : ExecutionOutcome V) (s : Session V)
      → All (IsElsewhere (result_channel correlation_id)) others
      → J.parse_outcome text ≡ some o
      → let es = others ++ message (result_channel correlation_id) text ∷ [] in
        ((dispatch J all_ok correlation_id job es s).0 ≡ some (ok o))
        × ((dispatch J all_ok correlation_id job es s).1.added
            ≡ job_fields J correlation_id job ∷ s.added)
  unfolding dispatch after_subscribe after_xadd settles closed
  dispatch-replied others text o s elsewhere parses =
      let replied =
        on_events-replied J (result_channel correlation_id) others text o
          (on_event J (waits (result_channel correlation_id)) s.dispatcher) elsewhere parses
          (waits-waiting J (result_channel correlation_id) s.dispatcher) in
      (rw replied refl, rw replied refl)
