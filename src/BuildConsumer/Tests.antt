-- ===== src/BuildConsumer/Tests.antt =====
-- The consumer at concrete tables: a pending build, delivered twice.
use mini_serverless_cloud_pl.BuildConsumer.Steady.{IsCompleted}
use mini_serverless_cloud_pl.Stream.Memory.{memory-IsStreams, memory as streams}
use mini_serverless_cloud_pl.Base.{number, ok, String, refl, some, List, [], ◌∷◌, arith}
use mini_serverless_cloud_pl.Schema.{Build, Database}
use mini_serverless_cloud_pl.Prisma.{new_function, new_build}
use mini_serverless_cloud_pl.Prisma.Memory.{memory, memory-IsPrisma}
use mini_serverless_cloud_pl.Build.{BuildExecutor, succeeded}
use mini_serverless_cloud_pl.Build.Runs.{with_version}
use mini_serverless_cloud_pl.BuildConsumer.{field_of, build_id_of, process, Work}
use mini_serverless_cloud_pl.BuildConsumer.Redelivery.{IsDone}
use mini_serverless_cloud_pl.BuildConsumer.Idempotence.{process-IsDone}
use mini_serverless_cloud_pl.BuildConsumer.Loop.{on_module_init, passes, Consumer}
use mini_serverless_cloud_pl.BuildConsumer.Loop.Queue.{queue, passes-Moves, Moves}
use mini_serverless_cloud_pl.Samples.Answering.{streams-IsResponsive, memory-IsSteady}
use mini_serverless_cloud_pl.BuildConsumer.Loop.Completion.{passes-completes}
use mini_serverless_cloud_pl.BuildConsumer.Loop.Settlement.{AllSettled, passes-AllSettled}
use mini_serverless_cloud_pl.BuildConsumer.Loop.Start.{on_module_init-Starts, Starts}
use mathlib.Core.List.{Memᴰ}

abbrev waiting : Build
waiting = new_build 0 "functions/0/a.js" 5 0

abbrev tables : Database
tables = record {
  users = [];
  api_keys = [];
  functions = new_function 1 "hello" 128 3000 0 0 ∷ [];
  versions = [];
  builds = waiting ∷ [];
  invocations = [];
}

abbrev builder : BuildExecutor
builder params = ok "hello:1"

abbrev delivered : List String
delivered = "buildId" ∷ "5" ∷ []

abbrev start : Work
start = record { database = tables; acked = [] }

abbrev built : Database
built = with_version waiting 1 "hello:1" 9 0 0 tables

abbrev finished_work : Work
finished_work = record { database = built; acked = "1-0" ∷ [] }

process-IsDone_example :
    IsDone 5
      (succeeded "hello:1" 9 waiting)
      (process memory builder
        (record { message_id = "1-0"; fields = delivered; now = 50; xack = ok tt } ∷ [])
        finished_work).database
process-IsDone_example =
    process-IsDone memory builder memory-IsPrisma
      (record { message_id = "1-0"; fields = delivered; now = 50; xack = ok tt } ∷ []) finished_work
      5 (succeeded "hello:1" 9 waiting) (refl, refl)

-- A consumer with one message that waits, on streams that answer, and its life.
abbrev fresh : Consumer
fresh = record {
  work = start;
  group = record { waiting = ("1-0", delivered) ∷ []; delivered = [] };
  moment = 9;
}

passes-AllSettled_example : AllSettled (passes memory builder streams (λ t. t) 2 fresh)
passes-AllSettled_example =
    passes-AllSettled memory builder streams (λ t. t) memory-IsPrisma memory-IsStreams 2 fresh tt

passes-Moves_example : Moves (queue fresh) (queue (passes memory builder streams (λ t. t) 2 fresh))
passes-Moves_example =
    passes-Moves memory builder streams (λ t. t) memory-IsPrisma memory-IsStreams 2 fresh

on_module_init-Starts_example :
    Starts (some fresh.group) (on_module_init streams (some fresh.group))
on_module_init-Starts_example = on_module_init-Starts streams memory-IsStreams (some fresh.group)

passes-completes_example : IsCompleted "1-0" 5 (passes memory builder streams (λ t. t) 1 fresh).work
unfolding build_id_of field_of number
passes-completes_example =
    passes-completes memory builder memory-IsPrisma streams (λ t. t) streams-IsResponsive
      memory-IsStreams memory-IsSteady (λ moment message_id. refl) 1 fresh ("1-0", delivered) 5
      (Memᴰ.head refl) refl refl (omega arith)
