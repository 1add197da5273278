-- ===== src/BuildConsumer/Loop.antt =====
-- The consumer's life: it makes sure of its group, and then reclaims and reads until it is stopped.
pub mod Queue
pub mod Settlement
pub mod Progress
pub mod Completion
pub mod Start
use mini_serverless_cloud_pl.Base.{
  if◌then◌else◌, includes, Action, ◌>>=◌, ◌>>◌, return, throw, try_catch, Exception, Result, ok,
  err, ℕ, zero, suc, ◌+◌, Bool, true, false, Option, none, some, List, [], ◌∷◌,
}
use mini_serverless_cloud_pl.Prisma.{Prisma}
use mini_serverless_cloud_pl.Build.{BuildExecutor, message_of}
use mini_serverless_cloud_pl.Stream.{Message, Group, Streams}
use mini_serverless_cloud_pl.BuildConsumer.{handle_message, Work}

-- The consumer's database and acknowledgements, its group, and the number of commands that it has sent.
pub record Consumer : Type 0 where
  pub work : Work
  pub group : Group
  pub moment : ℕ

-- Starting the consumer: whether the group exists, and whether the loop runs.
pub record Startup : Type 0 where
  pub group : Option Group
  pub running : Bool

module _ (S : Streams) where
  -- What the `xgroup` command leaves.
  unfoldable pub created_group : Result Group → Action (Option Group) (Unit {0})
  created_group (ok g) o = (ok tt, some g)
  created_group (err x) o = (err x, o)

  -- The `catch`.
  unfoldable pub unless_busy : Exception → Action (Option Group) (Unit {0})
  unless_busy x = if includes (message_of x) "BUSYGROUP" then return tt else throw x

  unfoldable pub ensure_consumer_group : Action (Option Group) (Unit {0})
  unfolding created_group unless_busy
  ensure_consumer_group = try_catch (λ o. created_group (S.xgroup_create o) o) unless_busy

  started : Result (Unit {0}) × Option Group → Result (Unit {0}) × Startup
  started (ok _, o) = (ok tt, record { group = o; running = true })
  started (err x, o) = (err x, record { group = o; running = false })

  -- The loop starts only after the group is there.
  pub on_module_init : Option Group → Result (Unit {0}) × Startup
  unfolding ensure_consumer_group started
  on_module_init o = started (ensure_consumer_group o)

-- `this.running = false`.
pub on_module_destroy : Startup → Startup
on_module_destroy s = record s { running = false }

module _ (P : Prisma) (build : BuildExecutor) (S : Streams) (clock : ℕ → ℕ) where
  after_message : Result (Unit {0}) × Work → Action Consumer (Unit {0})
  after_message (r, w) c = (r, record c { work = w; moment = c.moment + 1 })

  -- `handleMessage` at the moment of the call.
  pub handle_next : Message → Action Consumer (Unit {0})
  unfolding handle_message after_message
  handle_next (message_id, fields) c =
      after_message
        (handle_message P build (clock c.moment) (S.xack c.moment message_id) message_id fields
          c.work)
        c

  -- The loops over the messages.
  pub handle_each : List Message → Action Consumer (Unit {0})
  unfolding handle_next
  handle_each [] = return tt
  handle_each (m ∷ ms) = do handle_next m; handle_each ms

  pub reclaim_abandoned_messages : Action Consumer (Unit {0})
  unfolding handle_each
  reclaim_abandoned_messages = do
    claimed ← λ c. (S.xautoclaim c.moment c.work.acked c.group, record c { moment = c.moment + 1 })
    handle_each claimed

  after_read : Result (Option (List Message)) × Group → Action Consumer (Option (List Message))
  after_read (r, g) c = (r, record c { group = g; moment = c.moment + 1 })

  -- Without a response the block has timed out.
  handle_response : Option (List Message) → Action Consumer (Unit {0})
  unfolding handle_each
  handle_response none = return tt
  handle_response (some messages) = handle_each messages

  pub read_and_process_once : Action Consumer (Unit {0})
  unfolding after_read handle_response
  read_and_process_once = do
    response ← λ c. after_read (S.xreadgroup c.moment c.group) c
    handle_response response

  -- One pass of the `while`; an error is logged.
  pub pass : Consumer → Consumer
  unfolding reclaim_abandoned_messages read_and_process_once
  pass c = (try_catch (do reclaim_abandoned_messages; read_and_process_once) (λ _. return tt) c).1

  -- The passes that the loop makes before `running` is cleared: `onModuleDestroy` waits for the one
  -- that is under way.
  pub passes : ℕ → Consumer → Consumer
  unfolding pass
  passes zero c = c
  passes (suc n) c = passes n (pass c)
