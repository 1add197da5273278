-- ===== src/BuildRelay.antt =====
-- build/build-outbox-relay.service.ts: the relays that publish new builds into the stream, any number
-- of them at once. PostgreSQL locks the rows of `FOR UPDATE SKIP LOCKED` one by one, so a relay's scan,
-- its transaction and its `XADD`s are steps that those of other relays may stand between.
pub mod Once
pub mod Publication
pub mod Tick
mod Tests
use mini_serverless_cloud_pl.Base.{
  ◌==◌, if◌then◌else◌, length, any, keep, rewrite_where, ℕ, ◌+◌, ◌<◌, ◌≡◌, Bool, true, false, ◌&&◌,
  not, none, some, List, [], ◌∷◌, ◌++◌,
}
use mini_serverless_cloud_pl.Schema.{BuildStatus, Build}
use mini_serverless_cloud_pl.Build.{has_id}

-- A relay and the id of a build.
abbrev pub Hold : Type 0
Hold = ℕ × ℕ

-- The rows of the builds, the row locks, the builds that are claimed and not yet published, and the
-- ids in the stream.
pub record Outbox : Type 0 where
  pub rows : List Build
  pub locked : List Hold
  pub claimed : List Hold
  pub stream : List ℕ

abbrev pub is_unpublished : Build → Bool
is_unpublished b = elim b.published_to_stream_at [ none ↦ true | some t ↦ false ]

abbrev pub is_pending : BuildStatus → Bool
is_pending BuildStatus.pending = true
is_pending BuildStatus.running = false
is_pending BuildStatus.success = false
is_pending BuildStatus.failed = false

-- The `WHERE` of the scan, at an id.
abbrev pub claimable : ℕ → Build → Bool
claimable id b = has_id id b && (is_pending b.status && is_unpublished b)

abbrev pub published : ℕ → Build → Build
published now b = record b { published_to_stream_at = some now }

abbrev pub held_by : ℕ → Hold → Bool
held_by relay h = h.0 == relay

-- The rows that a relay has locked are marked, and their ids returned.
abbrev pub mark : ℕ → ℕ → List Hold → List Build → List Build
mark relay now locked rows =
    rewrite_where (λ b. any (λ h. h.1 == b.id) (keep (held_by relay) locked)) (published now) rows

-- How often an id occurs.
abbrev pub occurs : {A : Type 0} → (A → ℕ) → ℕ → List A → ℕ
occurs f id [] = 0
occurs f id (x ∷ xs) = (if f x == id then 1 else 0) + occurs f id xs

abbrev pub scan_limit : ℕ
scan_limit = 20

-- One step of some relay, or of another client of the database: it submits a build under a fresh
-- id, or rewrites the row of one.
pub data Step (s : Outbox) : Outbox → Type 0 where
  lock_row :
      (relay id : ℕ)
      → any (claimable id) s.rows ≡ true
      → occurs (λ h. h.1) id s.locked ≡ 0
      → length (keep (held_by relay) s.locked) < scan_limit
      → Step s (record s { locked = s.locked ++ (relay, id) ∷ [] })
  commit :
      (relay now : ℕ)
      → Step s (record s {
        rows = mark relay now s.locked s.rows;
        locked = keep (λ h. not (held_by relay h)) s.locked;
        claimed = s.claimed ++ keep (held_by relay) s.locked;
      })
  abort : (relay : ℕ) → Step s (record s { locked = keep (λ h. not (held_by relay h)) s.locked })
  publish :
      (before after : List Hold) (h : Hold)
      → s.claimed ≡ before ++ h ∷ after
      → Step s (record s { claimed = before ++ after; stream = s.stream ++ h.1 ∷ [] })
  publish_failed :
      (before after : List Hold) (h : Hold)
      → s.claimed ≡ before ++ h ∷ after
      → Step s (record s { claimed = before ++ after })
  submitted :
      (b : Build)
      → any (has_id b.id) s.rows ≡ false
      → occurs (λ h. h.1) b.id s.locked ≡ 0
      → occurs (λ h. h.1) b.id s.claimed ≡ 0
      → occurs (λ id. id) b.id s.stream ≡ 0
      → Step s (record s { rows = s.rows ++ b ∷ [] })
  rewritten :
      (id : ℕ) (change : Build → Build)
      → ((b : Build) → (change b).id ≡ b.id)
      → ((b : Build) → (change b).published_to_stream_at ≡ b.published_to_stream_at)
      → Step s (record s { rows = rewrite_where (has_id id) change s.rows })

pub data Reaches (s : Outbox) : Outbox → Type 0 where
  here : Reaches s s
  then_step : {t u : Outbox} → Reaches s t → Step t u → Reaches s u

-- No relay has started.
abbrev pub fresh : List Build → Outbox
fresh rows = record { rows = rows; locked = []; claimed = []; stream = [] }
