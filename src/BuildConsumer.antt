-- ===== src/BuildConsumer.antt =====
-- build/build-stream-consumer.service.ts: what the consumer does with a message of the build stream.
-- A message is its fields as the stream holds them; the id of a build is written in decimal.
pub mod Redelivery
pub mod Steady
pub mod Idempotence
pub mod Loop
mod Tests
use mini_serverless_cloud_pl.Base.{
  if◌then◌else◌, or_else, head?, number, Action, ◌>>=◌, ◌>>◌, return, throw, try_catch, failure,
  Result, ok, err, ℕ, String, Bool, true, false, Option, none, some, List, [], ◌∷◌, str_eq,
}
use mini_serverless_cloud_pl.Schema.{BuildStatus, Build, Database}
use mini_serverless_cloud_pl.Prisma.{Prisma}
use mini_serverless_cloud_pl.Functions.{query}
use mini_serverless_cloud_pl.Build.{BuildExecutor, run_build}

-- The entry behind the first occurrence of a key: `none` without the key.
unfoldable pub following : String → List String → Option (Option String)
following key [] = none
following key (f ∷ fs) = if str_eq f key then some (head? fs) else following key fs

-- `fields[fields.indexOf(key) + 1]`: where the key is missing the index is 0.
unfoldable pub field_of : String → List String → Option String
unfolding following
field_of key fields = or_else (following key fields) (head? fields)

-- The database, and the messages that the consumer group has acknowledged.
pub record Work : Type 0 where
  pub database : Database
  pub acked : List String

abbrev pub is_finished : BuildStatus → Bool
is_finished BuildStatus.success = true
is_finished BuildStatus.failed = true
is_finished BuildStatus.pending = false
is_finished BuildStatus.running = false

abbrev pub with_database : {A : Type 0} → Work → Result A × Database → Result A × Work
with_database w (r, db) = (r, record w { database = db })

abbrev pub on_database : {A : Type 0} → Action Database A → Action Work A
on_database m w = with_database w (m w.database)

pub build_id_of : List String → Option ℕ
build_id_of fields = elim (field_of "buildId" fields) [ none ↦ none | some s ↦ number s ]

module _ (P : Prisma) (build : BuildExecutor) (now : ℕ) where
  -- `findUniqueOrThrow`; a field that is missing or names no build makes it throw.
  pub required_build : Option Build → Action Database Build
  required_build none = throw (failure "No Build found")
  required_build (some b) = return b

  pub find_build : Option ℕ → Action Database Build
  unfolding required_build
  find_build none = throw (failure "Argument `id` is missing")
  find_build (some id) = do found ← query (P.build_by_id id); required_build found

  -- The idempotency guard.
  pub run_unless_finished : Build → Action Database (Unit {0})
  run_unless_finished b = if is_finished b.status then return tt else run_build P build now b

  -- `xack` is what Redis answers.
  acknowledge : Result (Unit {0}) → String → Action Work (Unit {0})
  acknowledge (ok _) message_id w = (ok tt, record w { acked = message_id ∷ w.acked })
  acknowledge (err x) message_id w = (err x, w)

  -- An error is logged, and the message is not acknowledged.
  pub handle_message : Result (Unit {0}) → String → List String → Action Work (Unit {0})
  unfolding find_build run_unless_finished acknowledge build_id_of
  handle_message xack message_id fields =
      try_catch
        (do
          b ← on_database (find_build (build_id_of fields))
          on_database (run_unless_finished b)
          acknowledge xack message_id)
        (λ _. return tt)

-- A message that the consumer is given, newly read or reclaimed, with the time and what `XACK` answers.
pub record Delivery : Type 0 where
  pub message_id : String
  pub fields : List String
  pub now : ℕ
  pub xack : Result (Unit {0})

-- The loops over the messages that `XREADGROUP` and `XAUTOCLAIM` answer.
pub process : Prisma → BuildExecutor → List Delivery → Work → Work
unfolding handle_message
process P build [] w = w
process P build (d ∷ ds) w =
    process P build ds (handle_message P build d.now d.xack d.message_id d.fields w).1
