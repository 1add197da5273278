-- ===== src/BuildRelay/Tick/Tests.antt =====
-- A relay that ticks at a concrete table with one new build, on a database and a Redis that answer.
use mathlib.Core.List.{Memᴰ}
use mini_serverless_cloud_pl.Base.{refl, [], ◌∷◌, arith}
use mini_serverless_cloud_pl.Schema.{Build}
use mini_serverless_cloud_pl.Prisma.{new_build}
use mini_serverless_cloud_pl.BuildRelay.{fresh, Outbox, Reaches}
use mini_serverless_cloud_pl.BuildRelay.Tick.{tick, ticks}
use mini_serverless_cloud_pl.Samples.Answering.{answers, answers-IsScan, answers-IsAnswering}
use mini_serverless_cloud_pl.BuildRelay.Tick.Runs.{tick-Reaches}
use mini_serverless_cloud_pl.BuildRelay.Tick.Drains.{ticks-publishes}

abbrev waiting : Build
waiting = new_build 0 "functions/0/a.js" 5 0

abbrev outbox : Outbox
outbox = fresh (waiting ∷ [])

tick-Reaches_example : Reaches outbox (tick 1 answers outbox)
tick-Reaches_example = tick-Reaches 1 answers outbox answers-IsScan (λ id. ground arith) refl

ticks-publishes_example : Memᴰ 5 (ticks 1 (answers ∷ []) outbox).stream
ticks-publishes_example =
    ticks-publishes 1 (answers ∷ []) outbox waiting (answers-IsAnswering, tt) (Memᴰ.head refl) refl
      (omega arith)
