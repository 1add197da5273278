-- ===== src/Container/Shim.antt =====
-- runtime/shim.js: the process inside the container, from the event to the file that it writes, and what
-- the host makes of that file.
mod Tests
use mini_serverless_cloud_pl.Base.{
  ℤ, Exception, Result, ok, err, ℕ, String, ◌≡◌, refl, ◌≢◌, false, Option, some,
}
use mini_serverless_cloud_pl.Execution.{ExecutionOutcome, success, error, timeout}
use mini_serverless_cloud_pl.Build.{message_of}
use mini_serverless_cloud_pl.Container.{Shim, react, Running, closes, from_file, conclude}

-- What the handler's promise does.
pub data Handled (V : Type 0) : Type 0 where
  resolves : V → Handled V
  rejects : String → Handled V

-- What `require` of the handler does: it throws, or gives a module with or without a handler.
pub data Module (V : Type 0) : Type 0 where
  broken : String → Module V
  without_handler : Module V
  with_handler : (V → Handled V) → Module V

-- `JSON.parse` of the event, with its error, and `JSON.stringify` of the outcome (`none` where it throws).
pub record ShimJson (V : Type 0) : Type 0 where
  pub parse_event : String → Result V
  pub write : ExecutionOutcome V → Option String

abbrev pub with_duration : {V : Type 0} → ExecutionOutcome V → ℤ → ExecutionOutcome V
with_duration (success result d) duration = success result duration
with_duration (error m d) duration = error m duration
with_duration (timeout d) duration = timeout duration

module _ {V : Type 0} (J : ShimJson V) (duration : ℤ) where
  settled : Handled V → ExecutionOutcome V
  settled (resolves result) = success result duration
  settled (rejects m) = error m duration

  called : V → Module V → ExecutionOutcome V
  unfolding settled
  called event (broken m) = error m duration
  called event without_handler = error "Module does not export a \"handler\" function" duration
  called event (with_handler handler) = settled (handler event)

  parsed : Result V → Module V → ExecutionOutcome V
  unfolding called
  parsed (err x) m = error (message_of x) duration
  parsed (ok event) m = called event m

  -- The outcome, from the text of `event.json` (an error where it cannot be read).
  pub shim_outcome : Result String → Module V → ExecutionOutcome V
  unfolding parsed
  shim_outcome (err x) m = error (message_of x) duration
  shim_outcome (ok text) m = parsed (J.parse_event text) m

  -- `result.json`; where `JSON.stringify` throws the process ends without it.
  pub main : Result String → Module V → Option String
  unfolding shim_outcome
  main event m = J.write (shim_outcome event m)

-- The host parses what the shim wrote, with any duration.
abbrev pub IsWritten : {V : Type 0} → ShimJson V → Shim V → Type 0
IsWritten {V} J parse =
    (o : ExecutionOutcome V) (file : String)
    → J.write o ≡ some file
    → parse file ≡ some (with_duration o)

-- How a run of the shim ends, on each path: the event cannot be read or parsed, the module cannot be
-- loaded or has no handler, or the handler returns or throws.
module _ {V : Type 0} (J : ShimJson V) (event : Result String) (m : Module V) (duration : ℤ) where
  pub data Says (o : ExecutionOutcome V) : Type 0 where
    unread : (x : Exception) → event ≡ err x → o ≡ error (message_of x) duration → Says o
    unparsed :
        (text : String) (x : Exception)
        → event ≡ ok text
        → J.parse_event text ≡ err x
        → o ≡ error (message_of x) duration
        → Says o
    unloaded :
        (text t : String) (v : V)
        → event ≡ ok text
        → J.parse_event text ≡ ok v
        → m ≡ broken t
        → o ≡ error t duration
        → Says o
    unexported :
        (text : String) (v : V)
        → event ≡ ok text
        → J.parse_event text ≡ ok v
        → m ≡ without_handler
        → o ≡ error "Module does not export a \"handler\" function" duration
        → Says o
    returned :
        (text : String) (v result : V) (handler : V → Handled V)
        → event ≡ ok text
        → J.parse_event text ≡ ok v
        → m ≡ with_handler handler
        → handler v ≡ resolves result
        → o ≡ success result duration
        → Says o
    threw :
        (text t : String) (v : V) (handler : V → Handled V)
        → event ≡ ok text
        → J.parse_event text ≡ ok v
        → m ≡ with_handler handler
        → handler v ≡ rejects t
        → o ≡ error t duration
        → Says o

module _ {V : Type 0} (J : ShimJson V) (inside duration : ℤ) where
  shim_outcome-Says :
      (event : Result String) (m : Module V)
      → Says J event m duration (with_duration (shim_outcome J inside event m) duration)
  unfolding shim_outcome parsed called settled
  shim_outcome-Says (err x) m = Says.unread x refl refl
  shim_outcome-Says (ok text) m = go (J.parse_event text) refl m
    where
      handled :
          (v : V) (handler : V → Handled V) (h : Handled V)
          → J.parse_event text ≡ ok v
          → handler v ≡ h
          → Says J
              (ok text)
              (with_handler handler)
              duration
              (with_duration (settled J inside h) duration)
      handled v handler (resolves result) e k =
          Says.returned text v result handler refl e refl k refl
      handled v handler (rejects t) e k = Says.threw text t v handler refl e refl k refl

      go :
          (p : Result V)
          → J.parse_event text ≡ p
          → (n : Module V)
          → Says J (ok text) n duration (with_duration (parsed J inside p n) duration)
      go (err x) e n = Says.unparsed text x refl e refl
      go (ok v) e (broken t) = Says.unloaded text t v refl e refl refl
      go (ok v) e without_handler = Says.unexported text v refl e refl refl
      go (ok v) e (with_handler handler) = handled v handler (handler v) e refl

Says-ne-timeout :
    {V : Type 0} (J : ShimJson V) (event : Result String) (m : Module V) (duration d : ℤ)
    (o : ExecutionOutcome V)
    → Says J event m duration o
    → o ≢ timeout d
Says-ne-timeout J event m duration d o (Says.unread x _ q) e = cc
Says-ne-timeout J event m duration d o (Says.unparsed text x _ _ q) e = cc
Says-ne-timeout J event m duration d o (Says.unloaded text t v _ _ _ q) e = cc
Says-ne-timeout J event m duration d o (Says.unexported text v _ _ _ q) e = cc
Says-ne-timeout J event m duration d o (Says.returned text v result handler _ _ _ _ q) e = cc
Says-ne-timeout J event m duration d o (Says.threw text t v handler _ _ _ _ q) e = cc

module _ {V : Type 0} (J : ShimJson V) (parse : Shim V) (written : IsWritten J parse) where
  -- A container that closes with the shim's file, whatever its exit code, gives the host what the
  -- handler returned, or the error of the step that failed (the event is not read or not parsed, the
  -- module is not loaded or exports no handler, the handler throws), with the host's duration, and
  -- never a timeout, if nothing has settled the promise before and the host parses what the shim writes.
  pub main-react :
      (inside duration : ℤ) (event : Result String) (m : Module V) (file : String)
      (exit_code : Option ℕ) (r : Running V)
      → r.settled ≡ false
      → main J inside event m ≡ some file
      → ((o : ExecutionOutcome V) × Says J event m duration o
          × ((react parse (closes exit_code duration (some file)) r).outcome ≡ some o))
        × ((d : ℤ)
            → (react parse (closes exit_code duration (some file)) r).outcome ≢ some (timeout d))
  unfolding react main conclude from_file
  main-react inside duration event m file exit_code r open_still wrote =
      let said = shim_outcome-Says J inside duration event m in
      let o = with_duration (shim_outcome J inside event m) duration in
      rw (open_still, written (shim_outcome J inside event m) file wrote)
        ((o, said, refl), (λ d e. Says-ne-timeout J event m duration d o said (out e)))
    where
      out : {o p : ExecutionOutcome V} → some o ≡ some p → o ≡ p
      out e = cc
