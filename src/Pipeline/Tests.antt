-- ===== src/Pipeline/Tests.antt =====
-- A pending build on its way through the relay and the consumer, on a database and a Redis that answer.
use mathlib.Core.List.{Memᴰ}
use mini_serverless_cloud_pl.Base.{show, insert, order_by, ok, ℕ, String, refl, [], ◌∷◌, arith}
use mini_serverless_cloud_pl.Schema.{Build}
use mini_serverless_cloud_pl.Prisma.{new_build}
use mini_serverless_cloud_pl.Prisma.Memory.{memory, memory-IsPrisma}
use mini_serverless_cloud_pl.Stream.Memory.{memory-IsStreams, memory as streams}
use mini_serverless_cloud_pl.Samples.Answering.{
  answers, answers-IsAnswering, streams-IsResponsive, memory-IsSteady,
}
use mini_serverless_cloud_pl.Build.{BuildExecutor, committed}
use mini_serverless_cloud_pl.BuildConsumer.Redelivery.{IsDone}
use mini_serverless_cloud_pl.BuildConsumer.Loop.{passes, Consumer}
use mini_serverless_cloud_pl.BuildRelay.{published, fresh, Outbox}
use mini_serverless_cloud_pl.BuildRelay.Tick.{claim, sent, publish_each, relay_once, tick, ticks}
use mini_serverless_cloud_pl.Pipeline.{ticks-passes}

abbrev waiting : Build
waiting = new_build 0 "functions/0/a.js" 5 0

abbrev builder : BuildExecutor
builder params = ok "hello:1"

abbrev outbox : Outbox
outbox = fresh (waiting ∷ [])

abbrev name : ℕ → String
name id = "1-0"

-- The consumer with the entry that the relay has added, and the row that it has marked.
abbrev consumer : Consumer
consumer = record {
  work = record {
    database = record {
      users = [];
      api_keys = [];
      functions = [];
      versions = [];
      builds = published 8 waiting ∷ [];
      invocations = [];
    };
    acked = [];
  };
  group = record { waiting = ("1-0", "buildId" ∷ "5" ∷ []) ∷ []; delivered = [] };
  moment = 9;
}

ticks-passes_example :
    (finished : Build) × IsDone 5 finished
      (passes memory builder streams (λ t. t) 1 consumer).work.database
unfolding ticks tick relay_once claim committed publish_each sent show order_by insert
ticks-passes_example =
    ticks-passes memory builder streams (λ t. t) memory-IsPrisma memory-IsStreams
      streams-IsResponsive memory-IsSteady (λ moment message_id. refl) name 1 (answers ∷ []) outbox
      waiting consumer (answers-IsAnswering, tt) (Memᴰ.head refl) refl (omega arith) refl refl
