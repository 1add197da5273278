-- ===== src/Dispatch/Calls/Settling.antt =====
-- Every call returns, by a reply or by its timer.
use mathlib.Core.List.{Memᴰ}
use mini_serverless_cloud_pl.Base.{
  Bool-cases, All, any, find, any_of_find, failure, Result, ok, err, String, ◌≡◌, refl, subst, ◌⊎◌,
  inl, inr, Bool, true, false, Option, none, some, List, [], ◌∷◌, arith, eq_refl,
}
use mini_serverless_cloud_pl.Execution.{ExecutionOutcome}
use mini_serverless_cloud_pl.Dispatch.{
  result_channel, job_fields, is_channel, drop_waiter, on_event, on_events, Json, Dispatcher, Event,
  waits, message, expires, settled_by,
}
use mini_serverless_cloud_pl.Functions.{InvocationJob}
use mini_serverless_cloud_pl.Dispatch.Calls.{
  promise_of, awaited, dispatch, Session, Links, closed, settles, after_xadd, after_subscribe,
}
use mini_serverless_cloud_pl.Dispatch.Waiters.{is_channel-true}

module _ {V : Type 0} (J : Json V) (channel : String) where
  -- The replies on the channel are JSON, as the worker's are.
  abbrev pub IsReadable : Event → Type 0
  IsReadable (waits c) = Unit
  IsReadable (message c text) =
      is_channel channel c ≡ true → (o : ExecutionOutcome V) × (J.parse_outcome text ≡ some o)
  IsReadable (expires c) = Unit

  abbrev pub IsTimer : Event → Type 0
  IsTimer (waits c) = ⊥
  IsTimer (message c text) = ⊥
  IsTimer (expires c) = c ≡ channel

  abbrev is_waiting : Dispatcher V → Bool
  is_waiting d = any (is_channel channel) d.waiters

  abbrev is_settled : Dispatcher V → Bool
  is_settled d = any (λ s. is_channel channel s.0) d.settled

  -- The promise waits or is settled.
  abbrev IsTracked : Dispatcher V → Type 0
  IsTracked d = (is_waiting d ≡ true) ⊎ (is_settled d ≡ true)

  pub any-drop_other :
      (c : String) (ws : List String)
      → is_channel channel c ≡ false
      → any (is_channel channel) ws ≡ true
      → any (is_channel channel) (drop_waiter c ws) ≡ true
  any-drop_other c [] n h = cc
  any-drop_other c (w ∷ ws) n h = elim (Bool-cases (is_channel c w)) [
    | inl hit ↦
        let other : is_channel channel w ≡ false = rw (is_channel-true hit) n in
        rw hit (any-drop_other c ws n (rw other at h))
    | inr miss ↦ elim (Bool-cases (is_channel channel w)) [
      | inl mine ↦ rw miss (rw mine refl)
      | inr other ↦ rw miss (rw other (any-drop_other c ws n (rw other at h)))
    ]
  ]

  any-drop_self : (ws : List String) → any (is_channel channel) (drop_waiter channel ws) ≡ false
  any-drop_self [] = refl
  any-drop_self (w ∷ ws) = elim (Bool-cases (is_channel channel w)) [
    | inl hit ↦ rw hit (any-drop_self ws)
    | inr miss ↦ rw miss (rw miss (any-drop_self ws))
  ]

  settle-IsTracked :
      (c : String) (r : Result (ExecutionOutcome V)) (d : Dispatcher V)
      → IsTracked d
      → IsTracked (record { waiters = drop_waiter c d.waiters; settled = (c, r) ∷ d.settled })
  settle-IsTracked c r d tracked = elim (Bool-cases (is_channel channel c)) [
    | inl hit ↦ inr (rw hit refl)
    | inr miss ↦ elim tracked [
      | inl waiting ↦ inl (any-drop_other c d.waiters miss waiting)
      | inr done_with ↦ inr (rw miss done_with)
    ]
  ]

  on_event-IsTracked :
      (e : Event) (d : Dispatcher V) → IsReadable e → IsTracked d → IsTracked (on_event J e d)
  unfolding on_event settled_by
  on_event-IsTracked (waits c) d readable tracked =
      elim (Bool-cases (any (is_channel c) d.waiters)) [
        | inl hit ↦ rw hit tracked
        | inr miss ↦
            rw miss (elim tracked [ inl waiting ↦ inl (ground arith) | inr over ↦ inr over ])
      ]
  on_event-IsTracked (message c text) d readable tracked =
      elim (Bool-cases (any (is_channel c) d.waiters)) [
        | inl hit ↦ rw hit (go (J.parse_outcome text) refl)
        | inr miss ↦ rw miss tracked
      ]
    where
      go :
          (o : Option (ExecutionOutcome V))
          → J.parse_outcome text ≡ o
          → IsTracked (settled_by J c o d)
      go (some o) e = settle-IsTracked c (ok o) d tracked
      go none e = elim (Bool-cases (is_channel channel c)) [
        | inl mine ↦ let (o, parses) = readable mine in absurd (cc)
        | inr other ↦ elim tracked [
          | inl waiting ↦ inl (any-drop_other c d.waiters other waiting)
          | inr over ↦ inr over
        ]
      ]
  on_event-IsTracked (expires c) d readable tracked =
      elim (Bool-cases (any (is_channel c) d.waiters)) [
        | inl hit ↦
            rw hit (settle-IsTracked c (err (failure "No worker responded in time")) d tracked)
        | inr miss ↦ rw miss tracked
      ]

  waits-IsTracked : (d : Dispatcher V) → IsTracked (on_event J (waits channel) d)
  unfolding on_event
  waits-IsTracked d = elim (Bool-cases (any (is_channel channel) d.waiters)) [
    | inl hit ↦ inl (rw hit hit)
    | inr miss ↦ inl (rw miss (rw (eq_refl channel) refl))
  ]

  on_event-settled :
      (e : Event) (d : Dispatcher V) → is_settled d ≡ true → is_settled (on_event J e d) ≡ true
  unfolding on_event settled_by
  on_event-settled (waits c) d h = h
  on_event-settled (message c text) d h = elim (Bool-cases (any (is_channel c) d.waiters)) [
    | inl hit ↦ rw hit (go (J.parse_outcome text))
    | inr miss ↦ rw miss h
  ]
    where
      go : (o : Option (ExecutionOutcome V)) → is_settled (settled_by J c o d) ≡ true
      go none = h
      go (some o) = ground arith
  on_event-settled (expires c) d h = elim (Bool-cases (any (is_channel c) d.waiters)) [
    | inl hit ↦ rw hit (ground arith)
    | inr miss ↦ rw miss h
  ]

  on_events-settled :
      (es : List Event) (d : Dispatcher V)
      → is_settled d ≡ true
      → is_settled (on_events J es d) ≡ true
  unfolding on_events
  on_events-settled [] d h = h
  on_events-settled (e ∷ es) d h = on_events-settled es (on_event J e d) (on_event-settled e d h)

  timer-settled :
      (c : String) (d : Dispatcher V)
      → c ≡ channel
      → IsTracked d
      → is_settled (on_event J (expires c) d) ≡ true
  unfolding on_event
  timer-settled c d same tracked = rw same (elim (Bool-cases (is_waiting d)) [
    | inl hit ↦ rw hit (rw (eq_refl channel) refl)
    | inr miss ↦ rw miss (elim tracked [ inl waiting ↦ absurd (cc) | inr over ↦ over ])
  ])

  on_events-timer :
      (es : List Event) (d : Dispatcher V)
      → All IsReadable es
      → IsTracked d
      → Memᴰ (expires channel) es
      → is_settled (on_events J es d) ≡ true
  unfolding on_events
  on_events-timer [] d readable tracked m = elim m [ ]
  on_events-timer (e ∷ es) d (r, rs) tracked (Memᴰ.head same) =
      on_events-settled es (on_event J e d) (
        subst (λ x. is_settled (on_event J x d) ≡ true) same (timer-settled channel d refl tracked))
  on_events-timer (e ∷ es) d (r, rs) tracked (Memᴰ.tail m) =
      on_events-timer es (on_event J e d) rs (on_event-IsTracked e d r tracked) m

  awaited-some :
      (links : Links) (d : Dispatcher V)
      → is_settled d ≡ true
      → (r : Result (ExecutionOutcome V)) × (awaited J links channel d ≡ some r)
  awaited-some links d h = go (find (λ s. is_channel channel s.0) d.settled) refl
    where
      go :
          (o : Option (String × Result (ExecutionOutcome V)))
          → find (λ s. is_channel channel s.0) d.settled ≡ o
          → (r : Result (ExecutionOutcome V)) × (promise_of o ≡ some r)
      go (some s) e = (s.1, refl)
      go none e = let gone = any_of_find (λ s. is_channel channel s.0) d.settled e in absurd (cc)

module _ {V : Type 0} (J : Json V) (links : Links) (correlation_id : String)
    (job : InvocationJob V) where
  -- Every call returns once its timer has fired, whatever Redis answers to its commands and whatever
  -- replies and other timers come before, as long as the replies on its channel are JSON; and where the
  -- two commands on the subscription succeed, nothing listens to its channel any more.
  pub dispatch-returns :
      (es : List Event) (s : Session V)
      → All (IsReadable J (result_channel correlation_id)) es
      → Memᴰ (expires (result_channel correlation_id)) es
      → (r : Result (ExecutionOutcome V)) × ((dispatch J links correlation_id job es s).0 ≡ some r)
        × (links.subscribe ≡ ok tt
            → links.unsubscribe ≡ ok tt
            → any
                (is_channel (result_channel correlation_id))
                (dispatch J links correlation_id job es s).1.subscribed
              ≡ false)
  unfolding dispatch on_event after_subscribe after_xadd settles closed
  dispatch-returns es s readable timer = subscribing links.subscribe refl
    where
      channel : String
      channel = result_channel correlation_id

      begun : Session V
      begun = record s { dispatcher = on_event J (waits channel) s.dispatcher }

      Returns : Option (Result (ExecutionOutcome V)) × Session V → Type 0
      Returns q =
          (r : Result (ExecutionOutcome V)) × (q.0 ≡ some r)
          × (links.subscribe ≡ ok tt
              → links.unsubscribe ≡ ok tt
              → any (is_channel channel) q.1.subscribed ≡ false)

      closing :
          (u : Result (Unit {0})) (r : Result (ExecutionOutcome V)) (t : Session V)
          → u ≡ ok tt
          → any (is_channel channel) (closed J links channel u r t).1.subscribed ≡ false
      closing (ok _) r t e = any-drop_self J channel t.subscribed
      closing (err x) r t e = absurd (cc)

      settling :
          (r : Result (ExecutionOutcome V)) (t : Session V)
          → Returns (settles J links channel (some r) t)
      settling r t = (_, refl, (λ _ unsubscribed. closing links.unsubscribe r t unsubscribed))

      adding :
          (b : Result (Unit {0})) (t : Session V)
          → t.dispatcher ≡ begun.dispatcher
          → Returns (after_xadd J links channel b (job_fields J correlation_id job) es t)
      adding (err x) t same = settling (err x) t
      adding (ok _) t same =
          let over =
            on_events-timer J channel es t.dispatcher readable
              (rw same (waits-IsTracked J channel s.dispatcher)) timer in
          let (r, e) = awaited-some J channel links (on_events J es t.dispatcher) over in
          rw e (
            settling r (record t {
              dispatcher = on_events J es t.dispatcher;
              added = job_fields J correlation_id job ∷ t.added;
            }))

      subscribing :
          (a : Result (Unit {0}))
          → links.subscribe ≡ a
          → Returns (after_subscribe J links channel a (job_fields J correlation_id job) es begun)
      subscribing (err x) e = (err x, refl, (λ subscribed. absurd (cc)))
      subscribing (ok _) e =
          adding links.xadd (record begun { subscribed = channel ∷ begun.subscribed }) refl
