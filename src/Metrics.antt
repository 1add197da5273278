-- ===== src/Metrics.antt =====
-- metrics/metrics.controller.ts and metrics/metrics-http-server.ts: the gauges of the fleet, set at every
-- scrape, and the listener of a process without an HTTP server. The client library of Prometheus, which
-- writes the text of a registry, is a parameter.
pub mod Lag
pub mod Health
mod Tests
use mini_serverless_cloud_pl.Base.{
  if◌then◌else◌, or_else, template, length, find, keep, head?, show, Action, Result, ok, err, ℕ,
  String, Bool, false, Option, none, some, List, [], ◌∷◌, str_eq,
}
use mini_serverless_cloud_pl.Registry.{WorkerStatus}

-- What Redis answers for a field of `XINFO GROUPS`.
pub data Reply : Type 0 where
  text : String → Reply
  count : ℕ → Reply
  null : Reply

abbrev pub is_text : String → Reply → Bool
is_text key (text s) = str_eq s key
is_text key (count n) = false
is_text key null = false

-- `fields[fields.indexOf(key) + 1]`: without the key the index is 0.
unfoldable pub behind : String → List Reply → Option (Option Reply)
behind key [] = none
behind key (r ∷ rs) = if is_text key r then some (head? rs) else behind key rs

unfoldable pub reply_at : String → List Reply → Option Reply
unfolding behind
reply_at key fields = or_else (behind key fields) (head? fields)

abbrev pub invocation_consumer_group : String
invocation_consumer_group = "invocation-workers"

abbrev pub is_reply : String → Option Reply → Bool
is_reply name none = false
is_reply name (some r) = is_text name r

-- `typeof lag === 'number' ? lag : 0`.
abbrev pub number_or_zero : Option Reply → ℕ
number_or_zero none = 0
number_or_zero (some (text s)) = 0
number_or_zero (some (count n)) = n
number_or_zero (some null) = 0

pub lag_of : Option (List Reply) → ℕ
unfolding reply_at
lag_of none = 0
lag_of (some group) = number_or_zero (reply_at "lag" group)

pub get_consumer_group_lag : Result (List (List Reply)) → Result ℕ
unfolding reply_at lag_of
get_consumer_group_lag (err x) = err x
get_consumer_group_lag (ok groups) =
    ok
      (lag_of (find (λ fields. is_reply invocation_consumer_group (reply_at "name" fields)) groups))

-- The gauges that the controller sets.
pub record Gauges : Type 0 where
  pub invocation_queue_depth : ℕ
  pub healthy_workers : ℕ

abbrev pub healthy_count : List WorkerStatus → ℕ
healthy_count workers = length (keep (λ w. w.healthy) workers)

module _ (metrics_text : Gauges → String) where
  -- `Promise.all`: an error of either call rejects, before a gauge is set.
  scraped : Result ℕ → Result (List WorkerStatus) → Action Gauges String
  scraped (err x) workers gauges = (err x, gauges)
  scraped (ok depth) (err x) gauges = (err x, gauges)
  scraped (ok depth) (ok workers) gauges =
      let set : Gauges = record {
        invocation_queue_depth = depth;
        healthy_workers = healthy_count workers;
      } in
      (ok (metrics_text set), set)

  pub get_metrics : Result (List (List Reply)) → Result (List WorkerStatus) → Action Gauges String
  unfolding scraped get_consumer_group_lag
  get_metrics groups workers = scraped (get_consumer_group_lag groups) workers

-- The answer of the worker's listener.
pub record Response : Type 0 where
  pub status : ℕ
  pub body : String

-- `req.url === '/metrics'`.
pub answer_request : (Unit {0} → String) → String → Response
answer_request metrics_text url =
    if str_eq url "/metrics"
    then record { status = 200; body = metrics_text tt }
    else record { status = 404; body = "" }

-- The listener of the server's `error` event: it warns, and never throws.
pub on_server_error : ℕ → String → String → Action (List String) (Unit {0})
on_server_error port code message warnings = (
  ok tt,
  (if str_eq code "EADDRINUSE"
        then template (
            "[metrics] port "
            ∷ show port
            ∷ " already in use - this process will run WITHOUT a scrapable /metrics endpoint. Running multiple workers on one host needs a unique WORKER_METRICS_PORT per process."
            ∷ [])
        else template ("[metrics] server error (non-fatal): " ∷ message ∷ []))
      ∷ warnings,
)
