-- ===== src/BuildConsumer/Loop/Start.antt =====
-- Starting again: the group outlives the consumer, and only a real failure stops the start.
use mini_serverless_cloud_pl.Base.{
  includes, handle, failure, Result, ok, err, String, ◌≡◌, refl, true, false, Option, none, some,
}
use mini_serverless_cloud_pl.Stream.{new_group, Group, Streams, Creates, IsStreams}
use mini_serverless_cloud_pl.BuildConsumer.Loop.{
  ensure_consumer_group, on_module_init, Startup, created_group, unless_busy, started,
}

-- The starts: the group is there, an existing one with the messages that it had, or the command failed
-- for another reason.
pub data Starts (o : Option Group) : Result (Unit {0}) × Startup → Type 0 where
  first_start : o ≡ none → Starts o (ok tt, record { group = some new_group; running = true })
  restart : (g : Group) → o ≡ some g → Starts o (ok tt, record { group = some g; running = true })
  no_start :
      (text : String)
      → includes text "BUSYGROUP" ≡ false
      → Starts o (err (failure text), record { group = o; running = false })

module _ (S : Streams) (streams : IsStreams S) where
  -- A start creates the group, or finds it and takes it over with every message that waits in it or has
  -- been delivered, and the loop runs; with any other error of Redis the start throws that error,
  -- changes nothing, and the loop does not run.
  pub on_module_init-Starts : (o : Option Group) → Starts o (on_module_init S o)
  unfolding on_module_init ensure_consumer_group created_group unless_busy started
  on_module_init-Starts o = go o (S.xgroup_create o) (streams.creates o)
    where
      go :
          (o : Option Group) (r : Result Group)
          → Creates o r
          → Starts o (started S (handle (unless_busy S) (created_group S r o)))
      go _ _ Creates.created = Starts.first_start refl
      go _ _ (Creates.busy g text hit) = rw hit (Starts.restart g refl)
      go _ _ (Creates.refused o text miss) = rw miss (Starts.no_start text miss)
