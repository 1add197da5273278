-- ===== src/Worker/Life/Fleet.antt =====
-- A worker in the fleet: its start puts it into the registry, its shutdown takes it out.
use mini_serverless_cloud_pl.Base.{
  resume, ◌>>◌, Result, ok, err, ℕ, ◌+◌, ◌≤◌, String, ◌≡◌, refl, sym, ap, ◌≢◌, ◌↔◌, Bool, true,
  false, Option, List, arith,
}
use mini_serverless_cloud_pl.Redis.{Hash, IsCodec, Redis, IsRedis, Codec}
use mini_serverless_cloud_pl.Stream.{Group, Streams}
use mini_serverless_cloud_pl.Registry.{
  heartbeat, stale_after_ms, deregister, has_spare_capacity, WorkerHeartbeat,
}
use mini_serverless_cloud_pl.Registry.Liveness.{Listed, IsRegistry}
use mini_serverless_cloud_pl.Registry.Capacity.{heartbeat-has_spare_capacity, deregister-Listed_iff}
use mini_serverless_cloud_pl.Worker.EcrLogin.{ensure_ecr_login, Spawned}
use mini_serverless_cloud_pl.Worker.Life.{
  heartbeat_of, registered, with_group, with_spawned, send_heartbeat, leave, on_module_destroy,
  on_module_init, WorkerProcess, log_in, ensure_group,
}
use mini_serverless_cloud_pl.BuildConsumer.Loop.{ensure_consumer_group}

module _ {V : Type 0} (R : Redis) (C : Codec WorkerHeartbeat) (real : IsRedis R)
    (worker_id : String) where
  registered-ok :
      (p : WorkerProcess V) {q : WorkerProcess V} (m : Result Hash)
      → registered m p ≡ (ok tt, q)
      → (h : Hash) × (m ≡ ok h) × (q ≡ record p { registry = h })
  registered-ok p (ok h) e = (h, refl, sym (ap (λ r. r.1) e))
  registered-ok p (err x) e = absurd (cc)

  -- A worker that has shut down is gone from the registry, where every other worker stays as it was,
  -- and it neither sends heartbeats nor reads messages any more.
  pub on_module_destroy-Listed :
      (p q : WorkerProcess V) (info : WorkerHeartbeat)
      → IsRegistry C p.registry
      → on_module_destroy R C worker_id p ≡ (ok tt, q)
      → (Listed C info q.registry ↔ (Listed C info p.registry × (info.worker_id ≢ worker_id)))
        × (q.timer ≡ false)
        × (q.running ≡ false)
  unfolding on_module_destroy leave
  on_module_destroy-Listed p q info v e =
      let (h, left, same) =
        registered-ok (record p { running = false; timer = false })
          (deregister R C worker_id p.registry) e in
      rw same ((deregister-Listed_iff R C real worker_id info p.registry h v left).1, refl, refl)

  module _ (S : Streams) (base64 : String → String) (close : Spawned → ℕ × String) where
    -- A start that succeeds has sent a heartbeat, and then set the timer and started the loop.
    on_module_init-beat :
        (p q : WorkerProcess V) (ecr_registry : Option String) (token : Result (Option String))
        (sent : ℕ)
        → on_module_init R C worker_id S base64 close ecr_registry token sent p ≡ (ok tt, q)
        → (heartbeat R C (heartbeat_of worker_id sent p.jobs) p.registry ≡ ok q.registry)
          × (q.timer ≡ true)
          × (q.running ≡ true)
    unfolding on_module_init send_heartbeat log_in ensure_group
    on_module_init-beat p q ecr_registry token sent =
        logged_in (ensure_ecr_login base64 close ecr_registry token p.spawned)
      where
        beaten :
            (sp : List Spawned) (o : Option Group) (m : Result Hash)
            → resume
                (λ _. λ t. (ok tt, record t { timer = true; running = true }))
                (registered m (record p { spawned = sp; group = o }))
              ≡ (ok tt, q)
            → (m ≡ ok q.registry) × (q.timer ≡ true) × (q.running ≡ true)
        beaten sp o (ok h) e =
            let same : record p {
              spawned = sp;
              group = o;
              registry = h;
              timer = true;
              running = true;
            }
                ≡ q =
              ap (λ r. r.1) e in
            (
              ap (λ t. ok (WorkerProcess.registry t)) same,
              sym (ap WorkerProcess.timer same),
              sym (ap WorkerProcess.running same),
            )
        beaten sp o (err x) e = absurd (cc)

        grouped :
            (sp : List Spawned) (g : Result (Unit {0}) × Option Group)
            → resume
                (λ _. send_heartbeat R C worker_id sent >> λ t.
                  (ok tt, record t { timer = true; running = true }))
                (with_group (record p { spawned = sp }) g)
              ≡ (ok tt, q)
            → (heartbeat R C (heartbeat_of worker_id sent p.jobs) p.registry ≡ ok q.registry)
              × (q.timer ≡ true)
              × (q.running ≡ true)
        grouped sp (ok u, o) e =
            beaten sp o (heartbeat R C (heartbeat_of worker_id sent p.jobs) p.registry) e
        grouped sp (err x, o) e = absurd (cc)

        logged_in :
            (l : Result (Unit {0}) × List Spawned)
            → resume
                (λ _.
                  ensure_group R C worker_id S base64 close
                  >> (send_heartbeat R C worker_id sent >> λ t.
                      (ok tt, record t { timer = true; running = true })))
                (with_spawned p l)
              ≡ (ok tt, q)
            → (heartbeat R C (heartbeat_of worker_id sent p.jobs) p.registry ≡ ok q.registry)
              × (q.timer ≡ true)
              × (q.running ≡ true)
        logged_in (ok u, sp) e = grouped sp (ensure_consumer_group S p.group) e
        logged_in (err x, sp) e = absurd (cc)

    -- A worker that has started runs its loop and its heartbeats, and the backpressure check counts it
    -- as free until its lease is over, whatever the fleet was before.
    pub on_module_init-has_spare_capacity :
        (p q : WorkerProcess V) (ecr_registry : Option String) (token : Result (Option String))
        (sent now : ℕ) (free : Bool)
        → IsCodec C
        → p.jobs.in_flight ≡ 0
        → on_module_init R C worker_id S base64 close ecr_registry token sent p ≡ (ok tt, q)
        → now ≤ sent + stale_after_ms
        → has_spare_capacity R C now q.registry ≡ ok free
        → (q.timer ≡ true) × (q.running ≡ true) × (free ≡ true)
    on_module_init-has_spare_capacity p q ecr_registry token sent now free law idle e lease asked =
        let (beat, timer, running) = on_module_init-beat p q ecr_registry token sent e in
        (
          timer,
          running,
          heartbeat-has_spare_capacity R C real (heartbeat_of worker_id sent p.jobs) now p.registry
              q.registry free law beat (lease, omega arith) asked,
        )
