-- ===== src/Registry/Tests.antt =====
-- The registry at a concrete fleet, with one idle and one loaded worker.
use mini_serverless_cloud_pl.Base.{◌≡◌, refl, ◌↔◌, true, false, some, List, [], ◌∷◌}
use mini_serverless_cloud_pl.Redis.{Hash}
use mini_serverless_cloud_pl.Samples.Heartbeats.{write, third, second, first, codec, codec-IsCodec}
use mini_serverless_cloud_pl.Samples.{unary, one_more, count_unary}
use mini_serverless_cloud_pl.Redis.Memory.{memory, memory-IsRedis}
use mini_serverless_cloud_pl.Registry.{statuses, list_workers, has_spare_capacity, WorkerHeartbeat}
use mini_serverless_cloud_pl.Registry.Liveness.{Listed, IsRegistry, IsFree}
use mini_serverless_cloud_pl.Registry.Refinement.{
  replay, run, carried_out, view, run-Listed_iff, Call, beats, leaves,
}
use mini_serverless_cloud_pl.Registry.Capacity.{has_spare_capacity-IsFree}

abbrev idle : WorkerHeartbeat
idle = record { worker_id = "worker-1"; capacity = 1; in_flight = 0; last_heartbeat_at = 2 }

abbrev loaded : WorkerHeartbeat
loaded = record { worker_id = "worker-2"; capacity = 1; in_flight = 1; last_heartbeat_at = 3 }

abbrev fleet : Hash
fleet = ("worker-2", write loaded) ∷ []

abbrev both : Hash
both = ("worker-2", write loaded) ∷ ("worker-1", write idle) ∷ []

fleet-IsRegistry : IsRegistry codec fleet
fleet-IsRegistry = ((loaded, codec-IsCodec loaded, refl), tt, tt)

has_spare_capacity-IsFree_example :
    ((true ≡ true) → (info : WorkerHeartbeat) × Listed codec info both × IsFree codec 5 info)
    × ((true ≡ false) → (info : WorkerHeartbeat) → Listed codec info both → ¬ IsFree codec 5 info)
unfolding has_spare_capacity list_workers statuses write first second third count_unary unary
    one_more
has_spare_capacity-IsFree_example =
    has_spare_capacity-IsFree memory codec memory-IsRedis 5 both true refl

abbrev calls : List Call
calls = beats idle ∷ leaves "worker-2" ∷ []

run-Listed_iff_example :
    IsRegistry codec (run memory codec calls fleet)
    × (Listed codec idle (run memory codec calls fleet) ↔ (
        replay (carried_out memory codec calls fleet) (view memory codec fleet) "worker-1"
        ≡ some idle))
run-Listed_iff_example =
    run-Listed_iff memory codec memory-IsRedis codec-IsCodec calls fleet idle fleet-IsRegistry
