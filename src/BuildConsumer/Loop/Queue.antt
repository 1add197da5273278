-- ===== src/BuildConsumer/Loop/Queue.antt =====
-- What the consumer promises of its queue, whatever the builds are: an abstract queue whose messages
-- move from waiting to delivered to acknowledged, and that the loop only moves by its steps.
use mathlib.Core.List.{Memᴰ}
use mini_serverless_cloud_pl.Base.{
  All, last_mem, resume, return, handle, Result, ok, err, ℕ, zero, suc, ◌+◌, String, ◌≡◌, refl, sym,
  ap, ◌∙◌, true, Option, List, [], ◌∷◌, ◌++◌, append_assoc,
}
use mini_serverless_cloud_pl.Prisma.{Prisma, IsPrisma}
use mini_serverless_cloud_pl.Build.{BuildExecutor}
use mini_serverless_cloud_pl.Stream.{
  Message, is_pending, moved, Claims, Group, Streams, Reads, IsStreams,
}
use mini_serverless_cloud_pl.BuildConsumer.{handle_message, Work}
use mini_serverless_cloud_pl.BuildConsumer.Redelivery.{
  acked_by, handle_message-Handled, handle_message-ok, Handled,
}
use mini_serverless_cloud_pl.BuildConsumer.Loop.{
  handle_next, handle_each, reclaim_abandoned_messages, read_and_process_once, pass, passes,
  Consumer, after_message, after_read, handle_response,
}

-- The queue: the group, and the ids acknowledged, the last one first.
pub record Queue : Type 0 where
  pub group : Group
  pub acked : List String

abbrev pub queue : Consumer → Queue
queue c = record { group = c.group; acked = c.work.acked }

-- The next message is delivered, or one that was delivered is acknowledged.
pub data Move (q : Queue) : Queue → Type 0 where
  delivers :
      (m : Message) (rest : List Message)
      → q.group.waiting ≡ m ∷ rest
      → Move q (record q { group = moved m rest q.group })
  acknowledges :
      (m : Message) → Memᴰ m q.group.delivered → Move q (record q { acked = m.0 ∷ q.acked })

pub data Moves (q : Queue) : Queue → Type 0 where
  stays : Moves q q
  then_move : {r s : Queue} → Moves q r → Move r s → Moves q s

pub trans-Moves : {q r s : Queue} → Moves q r → Moves r s → Moves q s
trans-Moves qr Moves.stays = qr
trans-Moves qr (Moves.then_move rs s) = Moves.then_move (trans-Moves qr rs) s

-- Nothing that moves loses a message or changes the order.
Move-order :
    {q r : Queue}
    → Move q r
    → r.group.delivered ++ r.group.waiting ≡ q.group.delivered ++ q.group.waiting
Move-order {q} (Move.delivers m rest e) =
    append_assoc q.group.delivered (m ∷ []) rest ∙ ap (λ ws. q.group.delivered ++ ws) (sym e)
Move-order (Move.acknowledges m there) = refl

pub Moves-order :
    {q r : Queue}
    → Moves q r
    → r.group.delivered ++ r.group.waiting ≡ q.group.delivered ++ q.group.waiting
Moves-order Moves.stays = refl
Moves-order (Moves.then_move qr s) = Move-order s ∙ Moves-order qr

-- What the reclaiming and the reading keep, a pass keeps, also where one of them throws.
pub pass-keeps :
    (P : Prisma) (build : BuildExecutor) (S : Streams) (clock : ℕ → ℕ) (J : Consumer → Type 0)
    → ((c : Consumer) → J c → J (reclaim_abandoned_messages P build S clock c).1)
    → ((c : Consumer) → J c → J (read_and_process_once P build S clock c).1)
    → (c : Consumer) → J c
    → J (pass P build S clock c)
unfolding pass
pass-keeps P build S clock J reclaim read c h =
    go (reclaim_abandoned_messages P build S clock c) (reclaim c h)
  where
    settle : (r : Result (Unit {0}) × Consumer) → J r.1 → J (handle (λ _. return tt) r).1
    settle (ok u, d) k = k
    settle (err x, d) k = k

    go :
        (r : Result (Unit {0}) × Consumer)
        → J r.1
        → J (handle (λ _. return tt) (resume (λ _. read_and_process_once P build S clock) r)).1
    go (ok u, d) k = settle (read_and_process_once P build S clock d) (read d k)
    go (err x, d) k = k

module _ (P : Prisma) (build : BuildExecutor) (S : Streams) (clock : ℕ → ℕ)
    (prisma : IsPrisma P) where
  handle_message-acked :
      (now : ℕ) (xack : Result (Unit {0})) (m : Message) (g : Group) (w : Work)
      → Memᴰ m g.delivered
      → Moves
          (record { group = g; acked = w.acked })
          (record { group = g; acked = (handle_message P build now xack m.0 m.1 w).1.acked })
  handle_message-acked now xack m g w there =
      go (handle_message-Handled P build now prisma xack m.0 m.1 w)
    where
      answered :
          (answer : Result (Unit {0}))
          → Moves
              (record { group = g; acked = w.acked })
              (record { group = g; acked = acked_by answer m.0 w.acked })
      answered (ok u) = Moves.then_move Moves.stays (Move.acknowledges m there)
      answered (err x) = Moves.stays

      go :
          {r : Result (Unit {0}) × Work}
          → Handled P build now xack m.0 m.1 w r
          → Moves (record { group = g; acked = w.acked }) (record { group = g; acked = r.1.acked })
      go (Handled.unreadable why q) = rw q Moves.stays
      go (Handled.skipped id b named row q) = rw q (answered xack)
      go (Handled.ran id b db' named row unfinished run q) = rw q (answered xack)
      go (Handled.crashed id b x db' named row unfinished run q) = rw q Moves.stays

  handle_next-Moves :
      (m : Message) (c : Consumer)
      → Memᴰ m c.group.delivered
      → Moves (queue c) (queue (handle_next P build S clock m c).1)
  unfolding handle_next after_message
  handle_next-Moves m c there =
      handle_message-acked (clock c.moment) (S.xack c.moment m.0) m c.group c.work there

  handle_next-ok : (m : Message) (c : Consumer) → (handle_next P build S clock m c).0 ≡ ok tt
  unfolding handle_next after_message
  handle_next-ok m c =
      handle_message-ok P build (clock c.moment) prisma (S.xack c.moment m.0) m.0 m.1 c.work

  -- The loop over the messages handles every one of them.
  pub handle_each-cons :
      (m : Message) (ms : List Message) (c : Consumer)
      → handle_each P build S clock (m ∷ ms) c
        ≡ handle_each P build S clock ms (handle_next P build S clock m c).1
  unfolding handle_each
  handle_each-cons m ms c = go (handle_next P build S clock m c) (handle_next-ok m c)
    where
      go :
          (r : Result (Unit {0}) × Consumer)
          → r.0 ≡ ok tt
          → resume (λ _. handle_each P build S clock ms) r ≡ handle_each P build S clock ms r.1
      go (ok u, d) e = refl
      go (err x, d) e = absurd (cc)

  pub handle_each-Moves :
      (ms : List Message) (c : Consumer)
      → All (λ m. Memᴰ m c.group.delivered) ms
      → ((handle_each P build S clock ms c).0 ≡ ok tt)
        × Moves (queue c) (queue (handle_each P build S clock ms c).1)
  unfolding handle_next after_message handle_each
  handle_each-Moves [] c there = (refl, Moves.stays)
  handle_each-Moves (m ∷ ms) c (h, hs) =
      let (fine, later) = handle_each-Moves ms (handle_next P build S clock m c).1 hs in
      rw (handle_each-cons m ms c) (fine, trans-Moves (handle_next-Moves m c h) later)

  module _ (streams : IsStreams S) where
    reclaim-Moves :
        (c : Consumer) → Moves (queue c) (queue (reclaim_abandoned_messages P build S clock c).1)
    unfolding reclaim_abandoned_messages
    reclaim-Moves c =
        go (S.xautoclaim c.moment c.work.acked c.group)
          (streams.claims c.moment c.work.acked c.group)
      where
        forget :
            (ms : List Message)
            → All (λ m. Memᴰ m c.group.delivered × (is_pending c.work.acked m ≡ true)) ms
            → All (λ m. Memᴰ m c.group.delivered) ms
        forget [] hs = tt
        forget (m ∷ ms) ((h, p), hs) = (h, forget ms hs)

        go :
            (answer : Result (List Message))
            → Claims c.work.acked c.group answer
            → Moves (queue c) (
                queue
                  (resume
                    (handle_each P build S clock)
                    (answer, record c { moment = c.moment + 1 })).1)
        go (ok ms) hs = (handle_each-Moves ms (record c { moment = c.moment + 1 }) (forget ms hs)).1
        go (err x) hs = Moves.stays

    read-Moves :
        (c : Consumer) → Moves (queue c) (queue (read_and_process_once P build S clock c).1)
    unfolding read_and_process_once after_read handle_response
    read-Moves c = go (S.xreadgroup c.moment c.group) (streams.reads c.moment c.group)
      where
        go :
            (answer : Result (Option (List Message)) × Group)
            → Reads c.group answer
            → Moves (queue c) (
                queue
                  (resume
                    (handle_response P build S clock)
                    (after_read P build S clock answer c)).1)
        go _ Reads.timed_out = Moves.stays
        go _ (Reads.given m rest e) =
            trans-Moves (Moves.then_move Moves.stays (Move.delivers m rest e))
              (handle_each-Moves (m ∷ [])
                (record c { group = moved m rest c.group; moment = c.moment + 1 })
                (last_mem c.group.delivered m, tt)).1
        go _ (Reads.unsent x) = Moves.stays
        go _ (Reads.unanswered x m rest e) = Moves.then_move Moves.stays (Move.delivers m rest e)

    -- Each pass of the loop, whatever Redis, the database and the builds do, is a sequence of steps of
    -- the queue.
    pub pass-Moves : (c : Consumer) → Moves (queue c) (queue (pass P build S clock c))
    pass-Moves c =
        pass-keeps P build S clock (λ d. Moves (queue c) (queue d))
          (λ d ms. trans-Moves ms (reclaim-Moves d)) (λ d ms. trans-Moves ms (read-Moves d)) c
          Moves.stays

    -- The loop refines the abstract queue: whatever the builds, the database and Redis do, a run of any
    -- length is a sequence of the queue's two moves, the delivery of the message that waits first and
    -- the acknowledgement of a message that has been delivered.
    pub passes-Moves : (n : ℕ) (c : Consumer) → Moves (queue c) (queue (passes P build S clock n c))
    unfolding passes
    passes-Moves zero c = Moves.stays
    passes-Moves (suc n) c = trans-Moves (pass-Moves c) (passes-Moves n (pass P build S clock c))

    -- However often the loop runs and whatever fails, the messages that have been delivered and those
    -- that wait are the messages of the stream in its order: none is lost, and none is skipped.
    pub passes-order :
        (n : ℕ) (c : Consumer)
        → (passes P build S clock n c).group.delivered ++ (passes P build S clock n c).group.waiting
          ≡ c.group.delivered ++ c.group.waiting
    passes-order n c = Moves-order (passes-Moves n c)
