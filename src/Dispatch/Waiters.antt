-- ===== src/Dispatch/Waiters.antt =====
-- Each promise settles at most once, with a reply on its own channel or by its timer.
use mini_serverless_cloud_pl.Base.{
  if◌then◌else◌, Bool-cases, any, keep, failure, Result, ok, err, ℕ, ◌+◌, ◌≤◌, String, ◌≡◌, sym,
  subst, inl, inr, Bool, true, false, not, Option, none, some, List, [], ◌∷◌, arith, eq_iff,
}
use mini_serverless_cloud_pl.Execution.{ExecutionOutcome}
use mini_serverless_cloud_pl.Dispatch.{
  is_channel, add_waiter, drop_waiter, on_event, on_events, no_waiters, Json, Dispatcher, Event,
  waits, message, expires, settled_by,
}

abbrev pub count_of : {A : Type 0} → (A → Bool) → List A → ℕ
count_of p [] = 0
count_of p (x ∷ xs) = (if p x then 1 else 0) + count_of p xs

-- How often a channel is waited on in a sequence of events.
abbrev pub is_wait : String → Event → Bool
is_wait channel (waits c) = is_channel channel c
is_wait channel (message c text) = false
is_wait channel (expires c) = false

count_of-keep : {A : Type 0} (p q : A → Bool) (xs : List A) → count_of p (keep q xs) ≤ count_of p xs
count_of-keep p q [] = omega arith
count_of-keep p q (x ∷ xs) = elim (Bool-cases (q x)) [
  | inl hit ↦ rw hit (let ih = count_of-keep p q xs in omega arith)
  | inr miss ↦ rw miss (let ih = count_of-keep p q xs in omega arith)
]

count_of-drop_same :
    (channel : String) (ws : List String)
    → any (is_channel channel) ws ≡ true
    → count_of (is_channel channel) (drop_waiter channel ws) + 1 ≤ count_of (is_channel channel) ws
count_of-drop_same channel [] h = cc
count_of-drop_same channel (w ∷ ws) h = elim (Bool-cases (is_channel channel w)) [
  | inl hit ↦ rw hit (
      let k = count_of-keep (is_channel channel) (λ c. not (is_channel channel c)) ws in
      omega arith)
  | inr miss ↦
      rw miss (rw miss (let ih = count_of-drop_same channel ws (rw miss at h) in omega arith))
]

count_of-add :
    (channel c : String) (ws : List String)
    → count_of (is_channel channel) (add_waiter c ws)
      ≤ (if is_channel channel c then 1 else 0) + count_of (is_channel channel) ws
count_of-add channel c ws = elim (Bool-cases (any (is_channel c) ws)) [
  | inl hit ↦ rw hit (omega arith)
  | inr miss ↦ rw miss (omega arith)
]

pub is_channel-true : {c d : String} → is_channel c d ≡ true → d ≡ c
is_channel-true {c} {d} h = (eq_iff d c).0 h

module _ {V : Type 0} (J : Json V) (channel : String) where
  -- The settlements and the waiters of the channel.
  abbrev load : Dispatcher V → ℕ
  load d =
      count_of (λ s. is_channel channel s.0) d.settled + count_of (is_channel channel) d.waiters

  settle-load :
      (c : String) (r : Result (ExecutionOutcome V)) (d : Dispatcher V)
      → any (is_channel c) d.waiters ≡ true
      → load (record { waiters = drop_waiter c d.waiters; settled = (c, r) ∷ d.settled }) ≤ load d
  settle-load c r d waiting = elim (Bool-cases (is_channel channel c)) [
    | inl hit ↦
        let same : c ≡ channel = is_channel-true hit in
        let there : any (is_channel channel) d.waiters ≡ true =
          subst (λ k. any (is_channel k) d.waiters ≡ true) same waiting in
        let less : count_of (is_channel channel) (drop_waiter c d.waiters) + 1
            ≤ count_of (is_channel channel) d.waiters =
          subst
            (λ k.
              count_of (is_channel channel) (drop_waiter k d.waiters) + 1
              ≤ count_of (is_channel channel) d.waiters)
            (sym same) (count_of-drop_same channel d.waiters there) in
        rw hit (omega arith)
    | inr miss ↦
        let less = count_of-keep (is_channel channel) (λ k. not (is_channel c k)) d.waiters in
        rw miss (omega arith)
  ]

  on_event-load :
      (e : Event) (d : Dispatcher V)
      → load (on_event J e d) ≤ (if is_wait channel e then 1 else 0) + load d
  unfolding on_event settled_by
  on_event-load (waits c) d = let more = count_of-add channel c d.waiters in omega arith
  on_event-load (message c text) d = elim (Bool-cases (any (is_channel c) d.waiters)) [
    | inl waiting ↦ rw waiting (go (J.parse_outcome text) waiting)
    | inr gone ↦ rw gone (omega arith)
  ]
    where
      go :
          (o : Option (ExecutionOutcome V))
          → any (is_channel c) d.waiters ≡ true
          → load (settled_by J c o d) ≤ 0 + load d
      go none waiting =
          let less = count_of-keep (is_channel channel) (λ k. not (is_channel c k)) d.waiters in
          omega arith
      go (some o) waiting = let less = settle-load c (ok o) d waiting in omega arith
  on_event-load (expires c) d = elim (Bool-cases (any (is_channel c) d.waiters)) [
    | inl waiting ↦
        let less = settle-load c (err (failure "No worker responded in time")) d waiting in
        rw waiting (omega arith)
    | inr gone ↦ rw gone (omega arith)
  ]

  on_events-load :
      (es : List Event) (d : Dispatcher V)
      → load (on_events J es d) ≤ count_of (is_wait channel) es + load d
  unfolding on_events
  on_events-load [] d = omega arith
  on_events-load (e ∷ es) d =
      let first = on_event-load e d in let later = on_events-load es (on_event J e d) in omega arith

  -- A channel that is waited on once, as every dispatch has a channel of its own, has its promise
  -- settled at most once, whatever replies and timers come in whatever order.
  pub settled_once :
      (es : List Event)
      → count_of (is_wait channel) es ≤ 1
      → count_of (λ s. is_channel channel s.0) (on_events J es no_waiters).settled ≤ 1
  settled_once es fresh = let bound = on_events-load es no_waiters in omega arith
