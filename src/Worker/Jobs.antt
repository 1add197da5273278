-- ===== src/Worker/Jobs.antt =====
-- A job's way from the dispatcher's fields to the executor, and the worker's reply.
use mini_serverless_cloud_pl.Base.{
  str_eq_of_ne, pos, show, number, number-show, Result, ok, err, ℕ, ◌+◌, ◌-◌, String, ◌≡◌, refl,
  sym, ap, ◌∙◌, false, some, List, ◌∷◌, arith, str_eq,
}
use mini_serverless_cloud_pl.Execution.{duration_of, ExecutionOutcome, error}
use mini_serverless_cloud_pl.Functions.{InvocationJob}
use mini_serverless_cloud_pl.Dispatch.{result_channel, job_fields, Json}
use mini_serverless_cloud_pl.Worker.{
  Executor, status_text, number_of, outcome_of, handle_message, WorkerState, parsed, execution,
  caught, finished, channel_of, publish, acknowledge,
}
use mini_serverless_cloud_pl.BuildConsumer.{following, field_of}
use mini_serverless_cloud_pl.Build.{message_of}

-- `JSON.parse` reads what `JSON.stringify` wrote.
abbrev pub IsJson : {V : Type 0} → Json V → Type 0
IsJson {V} J = (v : V) → J.parse (J.stringify v) ≡ some v

-- No value of a job is spelled like one of the field names that come after it.
abbrev pub IsPlain : {V : Type 0} → Json V → String → InvocationJob V → Type 0
IsPlain J correlation_id job =
    (str_eq correlation_id "imageTag" ≡ false)
    × (str_eq correlation_id "event" ≡ false)
    × (str_eq correlation_id "timeoutMs" ≡ false)
    × (str_eq correlation_id "memoryMb" ≡ false)
    × (str_eq job.image_tag "event" ≡ false)
    × (str_eq job.image_tag "timeoutMs" ≡ false)
    × (str_eq job.image_tag "memoryMb" ≡ false)
    × (str_eq (J.stringify (J.or_empty job.event)) "timeoutMs" ≡ false)
    × (str_eq (J.stringify (J.or_empty job.event)) "memoryMb" ≡ false)

show-ne-memory_mb : (n : ℕ) → str_eq (show n) "memoryMb" ≡ false
unfolding number
show-ne-memory_mb n = str_eq_of_ne (λ e. cc (sym (number-show n) ∙ ap number e))

module _ {V : Type 0} (J : Json V) (correlation_id : String) (job : InvocationJob V)
    (plain : IsPlain J correlation_id job) where
  field-image_tag : field_of "imageTag" (job_fields J correlation_id job) ≡ some job.image_tag
  unfolding field_of following
  field-image_tag = let (a, b, c, d, e, f, g, h, i) = plain in rw a refl

  field-event :
      field_of "event" (job_fields J correlation_id job) ≡ some (J.stringify (J.or_empty job.event))
  unfolding field_of following
  field-event = let (a, b, c, d, e, f, g, h, i) = plain in rw (b, e) refl

  field-timeout_ms :
      field_of "timeoutMs" (job_fields J correlation_id job) ≡ some (show job.timeout_ms)
  unfolding field_of following
  field-timeout_ms = let (a, b, c, d, e, f, g, h, i) = plain in rw (c, f, h) refl

  field-memory_mb :
      field_of "memoryMb" (job_fields J correlation_id job) ≡ some (show job.memory_mb)
  unfolding field_of following
  field-memory_mb =
      let (a, b, c, d, e, f, g, h, i) = plain in rw (d, g, i, show-ne-memory_mb job.timeout_ms) refl

-- What is left of a worker that has run a job, replied and acknowledged.
abbrev pub answered :
    {V : Type 0} → Json V → String → String → ExecutionOutcome V → WorkerState V → WorkerState V
answered J correlation_id message_id o s = record s {
  counted = status_text o ∷ s.counted;
  observed = duration_of o ∷ s.observed;
  replies = (result_channel correlation_id, J.stringify_outcome o) ∷ s.replies;
  acked = message_id ∷ s.acked;
}

module _ {V : Type 0} (J : Json V) (execute : Executor V) where
  settled_eq :
      (message_id : String) (fields : List String) (s : WorkerState V)
      → handle_message J execute (ok tt) (ok tt) message_id fields s ≡ (
        ok tt,
        record s {
          counted = status_text (outcome_of J execute fields) ∷ s.counted;
          observed = duration_of (outcome_of J execute fields) ∷ s.observed;
          replies =
              (channel_of J execute fields, J.stringify_outcome (outcome_of J execute fields))
              ∷ s.replies;
          acked = message_id ∷ s.acked;
        },
      )
  unfolding handle_message finished publish acknowledge
  settled_eq message_id fields s = rw (same_count s.in_flight) refl
    where
      same_count : (n : ℕ) → n + 1 - 1 ≡ n
      same_count n = omega arith

  -- The outcome that the executor's answer stands for.
  pub answer_of : Result (ExecutionOutcome V) → ExecutionOutcome V
  answer_of (ok o) = o
  answer_of (err x) = error (message_of x) (pos 0)

  caught-answer : (r : Result (ExecutionOutcome V)) → caught J execute r ≡ answer_of r
  unfolding caught answer_of
  caught-answer (ok o) = refl
  caught-answer (err x) = refl

  -- A job that a dispatcher has put into the stream is executed as it is: its image, its event, its
  -- limits. The worker replies with the outcome on the channel that the dispatcher waits on, counts it,
  -- acknowledges the message, and has as many jobs in flight as before. (No value of the job is spelled
  -- like a field name, and both Redis commands succeed.)
  pub handle_message-job_fields :
      IsJson J
      → (correlation_id message_id : String) (job : InvocationJob V) → IsPlain J correlation_id job
      → (s : WorkerState V)
      → handle_message J execute (ok tt) (ok tt) message_id (job_fields J correlation_id job) s ≡ (
        ok tt,
        answered J correlation_id message_id
            (answer_of (
              execute
                (some job.image_tag)
                (J.or_empty job.event)
                (some job.timeout_ms)
                (some job.memory_mb)))
            s,
      )
  unfolding outcome_of channel_of field_of following parsed execution
  handle_message-job_fields law correlation_id message_id job plain s =
      settled_eq message_id (job_fields J correlation_id job) s
      ∙ ap (λ o. (ok tt, answered J correlation_id message_id o s))
          (ap (caught J execute) ran ∙ caught-answer _)
    where
      fields : List String
      fields = job_fields J correlation_id job

      read : parsed J execute (field_of "event" fields) ≡ some (J.or_empty job.event)
      read =
          ap (parsed J execute) (field-event J correlation_id job plain)
          ∙ parsed_event (J.or_empty job.event)
        where
          parsed_event : (v : V) → parsed J execute (some (J.stringify v)) ≡ some v
          parsed_event v = law v

      ran :
          execution J execute fields (parsed J execute (field_of "event" fields))
          ≡ execute
              (some job.image_tag)
              (J.or_empty job.event)
              (some job.timeout_ms)
              (some job.memory_mb)
      ran =
          ap (execution J execute fields) read
          ∙ ap
              (λ i.
                execute i (J.or_empty job.event) (number_of (field_of "timeoutMs" fields))
                  (number_of (field_of "memoryMb" fields)))
              (field-image_tag J correlation_id job plain)
          ∙ ap
              (λ t.
                execute (some job.image_tag) (J.or_empty job.event) (number_of t)
                  (number_of (field_of "memoryMb" fields)))
              (field-timeout_ms J correlation_id job plain)
          ∙ ap
              (λ t.
                execute (some job.image_tag) (J.or_empty job.event) t
                  (number_of (field_of "memoryMb" fields)))
              (number-show job.timeout_ms)
          ∙ ap
              (λ t.
                execute (some job.image_tag) (J.or_empty job.event) (some job.timeout_ms)
                  (number_of t))
              (field-memory_mb J correlation_id job plain)
          ∙ ap (λ t. execute (some job.image_tag) (J.or_empty job.event) (some job.timeout_ms) t)
              (number-show job.memory_mb)
