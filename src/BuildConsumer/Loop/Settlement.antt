-- ===== src/BuildConsumer/Loop/Settlement.antt =====
-- What an acknowledgement says, over the whole life of the consumer.
use mathlib.Core.List.{Memᴰ}
use mini_serverless_cloud_pl.Base.{
  All, mem-append, last_mem, map_All, resume, Result, ok, err, ℕ, zero, suc, ◌+◌, String, ◌≡◌,
  Option, some, List, [], ◌∷◌,
}
use mini_serverless_cloud_pl.Schema.{Build, Database}
use mini_serverless_cloud_pl.Prisma.{Prisma, IsPrisma}
use mini_serverless_cloud_pl.Build.{BuildExecutor}
use mini_serverless_cloud_pl.Stream.{Message, moved, Claims, Group, Streams, Reads, IsStreams}
use mini_serverless_cloud_pl.BuildConsumer.{build_id_of, handle_message, Work}
use mini_serverless_cloud_pl.BuildConsumer.Redelivery.{
  acked_by, IsDone, handle_message-Handled, Handled,
}
use mini_serverless_cloud_pl.BuildConsumer.Idempotence.{run_build-IsDone, handle_message-IsDone}
use mini_serverless_cloud_pl.BuildConsumer.Loop.{
  handle_next, handle_each, reclaim_abandoned_messages, read_and_process_once, pass, passes,
  Consumer, after_message, after_read, handle_response,
}
use mini_serverless_cloud_pl.BuildConsumer.Loop.Queue.{pass-keeps, handle_each-cons}

-- The id of a message that was delivered and whose build is `SUCCESS` or `FAILED`.
abbrev pub IsSettled : List Message → Database → String → Type 0
IsSettled delivered db message_id =
    (fields : List String) × (id : ℕ) × (b : Build) × Memᴰ (message_id, fields) delivered
    × (build_id_of fields ≡ some id)
    × IsDone id b db

abbrev pub AllSettled : Consumer → Type 0
AllSettled c = All (IsSettled c.group.delivered c.work.database) c.work.acked

module _ (P : Prisma) (build : BuildExecutor) (S : Streams) (clock : ℕ → ℕ) (prisma : IsPrisma P)
    (streams : IsStreams S) where
  handle_message-AllSettled :
      (now : ℕ) (xack : Result (Unit {0})) (m : Message) (g : Group) (w : Work)
      → Memᴰ m g.delivered
      → All (IsSettled g.delivered w.database) w.acked
      → let w' = (handle_message P build now xack m.0 m.1 w).1 in
        All (IsSettled g.delivered w'.database) w'.acked
  handle_message-AllSettled now xack m g w there settled =
      go (handle_message-Handled P build now prisma xack m.0 m.1 w) (
        map_All
          (λ message_id (fields, id, b, at_id, named, finished). (
            fields,
            id,
            b,
            at_id,
            named,
            handle_message-IsDone P build now prisma xack m.0 m.1 w id b finished,
          ))
          w.acked settled)
    where
      answered :
          (answer : Result (Unit {0})) (db : Database) (id : ℕ) (b : Build)
          → build_id_of m.1 ≡ some id
          → IsDone id b db
          → All (IsSettled g.delivered db) w.acked
          → All (IsSettled g.delivered db) (acked_by answer m.0 w.acked)
      answered (ok u) db id b named finished hs = ((m.1, id, b, there, named, finished), hs)
      answered (err x) db id b named finished hs = hs

      go :
          {r : Result (Unit {0}) × Work}
          → Handled P build now xack m.0 m.1 w r
          → All (IsSettled g.delivered r.1.database) w.acked
          → All (IsSettled g.delivered r.1.database) r.1.acked
      go (Handled.unreadable why q) hs = rw q settled
      go (Handled.skipped id b named finished q) hs =
          rw q (answered xack w.database id b named finished settled)
      go (Handled.ran id b db' named row unfinished run q) hs =
          let (c, finished) = run_build-IsDone P build now prisma id b w.database db' row run in
          rw q (answered xack db' id c named finished (rw q at hs))
      go (Handled.crashed id b x db' named row unfinished run q) hs = rw q (rw q at hs)

  handle_each-AllSettled :
      (ms : List Message) (c : Consumer)
      → All (λ m. Memᴰ m c.group.delivered) ms
      → AllSettled c
      → AllSettled (handle_each P build S clock ms c).1
  unfolding handle_each handle_next after_message
  handle_each-AllSettled [] c there settled = settled
  handle_each-AllSettled (m ∷ ms) c (h, hs) settled =
      rw (handle_each-cons P build S clock prisma m ms c) (
        handle_each-AllSettled ms (handle_next P build S clock m c).1 hs (
          handle_message-AllSettled (clock c.moment) (S.xack c.moment m.0) m c.group c.work h
            settled))

  reclaim-AllSettled :
      (c : Consumer) → AllSettled c → AllSettled (reclaim_abandoned_messages P build S clock c).1
  unfolding reclaim_abandoned_messages
  reclaim-AllSettled c settled =
      go (S.xautoclaim c.moment c.work.acked c.group) (streams.claims c.moment c.work.acked c.group)
    where
      go :
          (answer : Result (List Message))
          → Claims c.work.acked c.group answer
          → AllSettled
              (resume (handle_each P build S clock) (answer, record c { moment = c.moment + 1 })).1
      go (ok ms) hs =
          handle_each-AllSettled ms (record c { moment = c.moment + 1 })
            (map_All (λ m. λ (h, p). h) ms hs) settled
      go (err x) hs = settled

  -- A longer list of delivered messages.
  delivered-AllSettled :
      (m : Message) (rest : List Message) (c : Consumer)
      → AllSettled c
      → AllSettled (record c { group = moved m rest c.group; moment = c.moment + 1 })
  delivered-AllSettled m rest c settled =
      map_All
        (λ message_id (fields, id, b, there, named, finished).
          (fields, id, b, mem-append _ there, named, finished))
        c.work.acked settled

  read-AllSettled :
      (c : Consumer) → AllSettled c → AllSettled (read_and_process_once P build S clock c).1
  unfolding read_and_process_once after_read handle_response
  read-AllSettled c settled = go (S.xreadgroup c.moment c.group) (streams.reads c.moment c.group)
    where
      go :
          (answer : Result (Option (List Message)) × Group)
          → Reads c.group answer
          → AllSettled
              (resume (handle_response P build S clock) (after_read P build S clock answer c)).1
      go _ Reads.timed_out = settled
      go _ (Reads.given m rest e) =
          handle_each-AllSettled (m ∷ [])
            (record c { group = moved m rest c.group; moment = c.moment + 1 })
            (last_mem c.group.delivered m, tt) (delivered-AllSettled m rest c settled)
      go _ (Reads.unsent x) = settled
      go _ (Reads.unanswered x m rest e) = delivered-AllSettled m rest c settled

  pass-AllSettled : (c : Consumer) → AllSettled c → AllSettled (pass P build S clock c)
  pass-AllSettled c settled =
      pass-keeps P build S clock AllSettled reclaim-AllSettled read-AllSettled c settled

  -- However long the consumer runs and whatever fails on the way, every message that it has
  -- acknowledged was delivered to it, and its build is `SUCCESS` or `FAILED` in the database.
  pub passes-AllSettled :
      (n : ℕ) (c : Consumer) → AllSettled c → AllSettled (passes P build S clock n c)
  unfolding passes
  passes-AllSettled zero c settled = settled
  passes-AllSettled (suc n) c settled =
      passes-AllSettled n (pass P build S clock c) (pass-AllSettled c settled)
