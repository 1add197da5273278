-- ===== src/Metrics/Lag.antt =====
-- The queue depth is what waits in the consumer group, not what was ever added to the stream.
use mini_serverless_cloud_pl.Base.{
  length, All, find, ok, ℕ, String, ◌≡◌, refl, true, false, some, List, [], ◌∷◌, ◌++◌, str_eq,
}
use mini_serverless_cloud_pl.Registry.{WorkerStatus}
use mini_serverless_cloud_pl.Stream.{Group}
use mini_serverless_cloud_pl.Metrics.{
  behind, reply_at, invocation_consumer_group, is_reply, lag_of, get_consumer_group_lag,
  get_metrics, Reply, text, count, null, Gauges, scraped,
}

-- What `XINFO GROUPS` answers for a group of a name, with what Redis knows of its lag.
abbrev pub described : String → ℕ → ℕ → String → ℕ → Reply → List Reply
described name consumers pending last read lag =
    text "name"
    ∷ text name
    ∷ text "consumers"
    ∷ count consumers
    ∷ text "pending"
    ∷ count pending
    ∷ text "last-delivered-id"
    ∷ text last
    ∷ text "entries-read"
    ∷ count read
    ∷ text "lag"
    ∷ lag
    ∷ []

-- The groups before the one of the workers have other names.
abbrev pub AreOthers : List (List Reply) → Type 0
AreOthers = All (λ fields. is_reply invocation_consumer_group (reply_at "name" fields) ≡ false)

named_group :
    (consumers pending : ℕ) (last : String) (read : ℕ) (lag : Reply)
    → is_reply invocation_consumer_group
        (reply_at "name" (described invocation_consumer_group consumers pending last read lag))
      ≡ true
unfolding reply_at behind
named_group consumers pending last read lag = refl

found_group :
    (before after : List (List Reply)) (consumers pending : ℕ) (last : String) (read : ℕ)
    (lag : Reply)
    → AreOthers before
    → find
        (λ fields. is_reply invocation_consumer_group (reply_at "name" fields))
        (before ++ described invocation_consumer_group consumers pending last read lag ∷ after)
      ≡ some (described invocation_consumer_group consumers pending last read lag)
found_group [] after consumers pending last read lag others =
    rw (named_group consumers pending last read lag) refl
found_group (fields ∷ before) after consumers pending last read lag (other, others) =
    rw other (found_group before after consumers pending last read lag others)

module _ (metrics_text : Gauges → String) (before after : List (List Reply)) (consumers pending : ℕ)
    (last : String) (read : ℕ) (workers : List WorkerStatus) where
  -- The queue depth after a scrape, when Redis answers this lag.
  pub depth_at : Reply → Gauges → ℕ
  unfolding get_metrics
  depth_at lag gauges =
      (get_metrics metrics_text
        (ok (before ++ described invocation_consumer_group consumers pending last read lag ∷ after))
        (ok workers) gauges).1.invocation_queue_depth

  -- A scrape that gets both answers sets the queue depth to the number of messages of the stream that
  -- no worker has been given yet, whatever is pending or done and whatever other groups there are; and
  -- to 0 where Redis does not know the lag.
  pub get_metrics-lag :
      (g : Group) (gauges : Gauges)
      → AreOthers before
      → str_eq last "lag" ≡ false
      → (depth_at (count (length g.waiting)) gauges ≡ length g.waiting) × (depth_at null gauges ≡ 0)
  unfolding depth_at get_metrics scraped get_consumer_group_lag lag_of reply_at behind
  get_metrics-lag g gauges others id = (
    rw (found_group before after consumers pending last read (count (length g.waiting)) others, id)
        refl,
    rw (found_group before after consumers pending last read null others, id) refl,
  )
