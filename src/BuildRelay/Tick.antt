-- ===== src/BuildRelay/Tick.antt =====
-- One tick of a relay, from the scan to the last `XADD`, as `relayOnce` of
-- build/build-outbox-relay.service.ts runs it, and the ticks of its timer one after another. The
-- queries and commands are parameters: what the scan selects, how the transaction ends, what Redis
-- answers for each build.
pub mod Found
pub mod Marking
pub mod Runs
pub mod Drains
mod Tests
use mini_serverless_cloud_pl.Base.{
  ◌==◌, any, rewrite_where, IsPage, Action, ◌>>=◌, return, try_catch, Result, ok, err, ℕ, ◌≤◌, ◌≡◌,
  Bool, ◌&&◌, not, List, [], ◌∷◌, ◌++◌, map,
}
use mini_serverless_cloud_pl.Schema.{Build}
use mini_serverless_cloud_pl.BuildRelay.{
  Hold, is_unpublished, is_pending, published, scan_limit, Outbox,
}

-- The `WHERE` of the scan and `SKIP LOCKED`, at a row.
abbrev pub is_candidate : List Hold → Build → Bool
is_candidate locked b =
    (is_pending b.status && is_unpublished b) && not (any (λ h. h.1 == b.id) locked)

abbrev pub IsOlderBuild : Build → Build → Type 0
IsOlderBuild b c = b.created_at ≤ c.created_at

abbrev pub Scan : Type 0
Scan = List Hold → List Build → Result (List Build)

-- What the query selects, when it does not fail.
abbrev pub IsScan : Scan → Type 0
IsScan scan =
    (locked : List Hold) (rows found : List Build)
    → scan locked rows ≡ ok found
    → IsPage (is_candidate locked) IsOlderBuild scan_limit rows found

-- What a tick meets.
pub record Answers : Type 0 where
  pub scan : Scan
  pub now : ℕ
  pub committed : Result (Unit {0})
  pub xadd : ℕ → Result (Unit {0})

abbrev pub hold_of : ℕ → Build → Hold
hold_of relay b = (relay, b.id)

-- `updateMany` of the rows that were found.
abbrev pub marked : ℕ → List Build → List Build → List Build
marked now found rows = rewrite_where (λ b. any (λ k. k.id == b.id) found) (published now) rows

module _ (relay : ℕ) (answers : Answers) where
  -- The end of the transaction.
  unfoldable pub committed : Result (Unit {0}) → List Build → Action Outbox (List ℕ)
  committed (ok _) found s = (
    ok (map (λ b. b.id) found),
    record s {
      rows = marked answers.now found s.rows;
      claimed = s.claimed ++ map (hold_of relay) found;
    },
  )
  committed (err x) found s = (err x, s)

  -- The transaction, from what the scan selects.
  unfoldable pub claim : Result (List Build) → Action Outbox (List ℕ)
  unfolding committed
  claim (err x) s = (err x, s)
  claim (ok []) s = (ok [], s)
  claim (ok (b ∷ found)) s = committed answers.committed (b ∷ found) s

  -- A build that is published, or not, leaves the claims of this tick, which stand behind the others.
  unfoldable pub sent : Result (Unit {0}) → ℕ → List Hold → Outbox → Outbox
  sent (ok _) id claimed s = record s { claimed = claimed; stream = s.stream ++ id ∷ [] }
  sent (err x) id claimed s = record s { claimed = claimed }

  unfoldable pub publish_each : List Hold → List ℕ → Outbox → Outbox
  unfolding sent
  publish_each others [] s = s
  publish_each others (id ∷ ids) s =
      publish_each others ids (sent (answers.xadd id) id (others ++ map (λ k. (relay, k)) ids) s)

  unfoldable pub relay_once : Action Outbox (Unit {0})
  unfolding claim publish_each
  relay_once s =
      ((λ t. claim (answers.scan t.locked t.rows) t)
          >>= (λ claimed_ids t. (ok tt, publish_each s.claimed claimed_ids t)))
        s

  -- An error is logged.
  unfoldable pub tick : Outbox → Outbox
  unfolding relay_once
  tick s = (try_catch relay_once (λ _. return tt) s).1

-- The ticks of a timer, each after the one before has ended.
unfoldable pub ticks : ℕ → List Answers → Outbox → Outbox
unfolding tick
ticks relay [] s = s
ticks relay (answers ∷ later) s = ticks relay later (tick relay answers s)
