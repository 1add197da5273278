-- ===== src/BuildRelay/Tests.antt =====
-- Two relays at a concrete table with one new build.
use mini_serverless_cloud_pl.Base.{◌≤◌, ◌≡◌, refl, [], ◌∷◌, arith}
use mini_serverless_cloud_pl.Schema.{Build}
use mini_serverless_cloud_pl.Prisma.{new_build}
use mini_serverless_cloud_pl.BuildRelay.{published, occurs, fresh, Outbox, Step, Reaches}
use mini_serverless_cloud_pl.BuildRelay.Publication.{published_once, lost_forever}

abbrev waiting : Build
waiting = new_build 0 "functions/0/a.js" 5 0

abbrev locked_row : Outbox
locked_row = record (fresh (waiting ∷ [])) { locked = (1, 5) ∷ [] }

abbrev both_committed : Outbox
both_committed = record {
  rows = published 8 waiting ∷ [];
  locked = [];
  claimed = (1, 5) ∷ [];
  stream = [];
}

abbrev sent : Outbox
sent = record both_committed { claimed = []; stream = 5 ∷ [] }

-- The first relay locks the row, the second finds nothing, and both commit.
run : Reaches (fresh (waiting ∷ [])) sent
run =
    Reaches.then_step
      (Reaches.then_step
        (Reaches.then_step
          (Reaches.then_step Reaches.here (Step.lock_row 1 5 refl refl (omega arith)))
          (Step.commit 2 7))
        (Step.commit 1 8))
      (Step.publish [] [] (1, 5) refl)

published_once_example : occurs (λ k. k) 5 sent.stream ≤ 1
published_once_example = published_once (waiting ∷ []) sent run 5

abbrev unsent : Outbox
unsent = record both_committed { claimed = [] }

lost_forever_example : occurs (λ k. k) 5 unsent.stream ≡ 0
lost_forever_example =
    lost_forever unsent unsent 5 (refl, refl, refl)
      (Reaches.then_step Reaches.here (Step.commit 1 9))
