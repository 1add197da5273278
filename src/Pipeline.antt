-- ===== src/Pipeline.antt =====
-- The relay and the consumer together (build/build-outbox-relay.service.ts and
-- build/build-stream-consumer.service.ts): a build on its way from the database through the stream, and
-- what the consumer makes of it.
mod Tests
use mathlib.Core.List.{Memᴰ}
use mini_serverless_cloud_pl.BuildConsumer.Steady.{IsSteady}
use mini_serverless_cloud_pl.Base.{
  length, keep, any_of_mem, mem-map, ok, ℕ, ◌*◌, ◌≤◌, String, ◌≡◌, true, List, map, arith,
}
use mini_serverless_cloud_pl.Schema.{Build}
use mini_serverless_cloud_pl.Prisma.{Prisma, IsPrisma}
use mini_serverless_cloud_pl.Build.{BuildExecutor, has_id}
use mini_serverless_cloud_pl.Stream.{Streams, IsStreams}
use mini_serverless_cloud_pl.BuildConsumer.Redelivery.{IsDone}
use mini_serverless_cloud_pl.BuildConsumer.Loop.{passes, Consumer}
use mini_serverless_cloud_pl.BuildConsumer.Loop.Progress.{IsResponsive}
use mini_serverless_cloud_pl.BuildConsumer.Loop.Completion.{entry, entry-build_id, passes-completes}
use mini_serverless_cloud_pl.BuildRelay.{scan_limit, Outbox}
use mini_serverless_cloud_pl.BuildRelay.Tick.{is_candidate, ticks, Answers}
use mini_serverless_cloud_pl.BuildRelay.Tick.Drains.{AllAnswering, ticks-rows, ticks-publishes}

module _ (P : Prisma) (build : BuildExecutor) (S : Streams) (clock : ℕ → ℕ) (prisma : IsPrisma P)
    (streams : IsStreams S) (responsive : IsResponsive S) (steady : IsSteady P)
    (acknowledged : (moment : ℕ) (message_id : String) → S.xack moment message_id ≡ ok tt) where
  -- Where the database and Redis answer, a build that is pending, whose row is not marked as published
  -- yet and that no relay has locked, is `SUCCESS` or `FAILED` in the end: after as many ticks of the
  -- relay as publish 20 builds each, and as many passes of the consumer as messages are in the stream
  -- then, whatever the executor does.
  pub ticks-passes :
      (name : ℕ → String) (relay : ℕ) (later : List Answers) (s : Outbox) (b : Build) (c : Consumer)
      → AllAnswering later
      → Memᴰ b s.rows
      → is_candidate s.locked b ≡ true
      → length (keep (is_candidate s.locked) s.rows) ≤ scan_limit * length later
      → c.group.waiting ≡ map (entry name) (ticks relay later s).stream
      → c.work.database.builds ≡ (ticks relay later s).rows
      → (finished : Build) × IsDone b.id finished
          (passes P build S clock (length c.group.waiting) c).work.database
  ticks-passes name relay later s b c answering there waits few at rows =
      (passes-completes P build prisma S clock responsive streams steady acknowledged
        (length c.group.waiting) c (entry name b.id) b.id
        (rw at (mem-map (entry name) (ticks-publishes relay later s b answering there waits few)))
        (entry-build_id name b.id)
        (rw rows
          (ticks-rows relay later s b.id answering (any_of_mem (has_id b.id) there (ground arith))))
        (omega arith)).1
