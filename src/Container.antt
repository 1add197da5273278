-- ===== src/Container.antt =====
-- containerExecutor.ts: the command line of a throwaway container, and how its outcome comes about from
-- the events of the `docker run` process and of the timer. Paths and the container's name are arguments.
pub mod Outcomes
pub mod Shim
mod Tests
use Prim.Native.String
use mini_serverless_cloud_pl.Base.{
  ◌==◌, if◌then◌else◌, or_else, template, ℤ, show, ℕ, zero, suc, ◌+◌, String, Bool, true, false,
  Option, none, some, List, [], ◌∷◌, ◌++◌,
}
use mini_serverless_cloud_pl.Execution.{ExecutionOutcome, error, timeout}

pub record ExecuteOptions : Type 0 where
  pub timeout_ms : Option ℕ
  pub memory_mb : Option ℕ
  pub cpus : Option String

-- What an invocation has in the file system: `eventPath` and `outputDir`, and the container's name.
pub record Scratch : Type 0 where
  pub container_name : String
  pub event_path : String
  pub output_dir : String

abbrev pub timeout_of : ExecuteOptions → ℕ
timeout_of options = or_else options.timeout_ms 3000

-- The arguments of `docker`.
pub docker_args : String → (String → List String) → ExecuteOptions → Scratch → List String
docker_args image extra_mounts options scratch =
    let memory = template (show (or_else options.memory_mb 128) ∷ "m" ∷ []) in
    "run"
      ∷ "--rm"
      ∷ "--name"
      ∷ scratch.container_name
      ∷ "--network"
      ∷ "none"
      ∷ "--read-only"
      ∷ "--tmpfs"
      ∷ "/tmp:size=16m"
      ∷ "--user"
      ∷ "1000:1000"
      ∷ "--cap-drop"
      ∷ "ALL"
      ∷ "--security-opt"
      ∷ "no-new-privileges"
      ∷ "--pids-limit"
      ∷ "64"
      ∷ "--memory"
      ∷ memory
      ∷ "--memory-swap"
      ∷ memory
      ∷ "--cpus"
      ∷ or_else options.cpus "0.5"
      ∷ extra_mounts scratch.event_path
    ++ "-v" ∷ template (scratch.output_dir ∷ ":/output" ∷ []) ∷ image ∷ []

-- The mounts of `executeInContainer` and of `executeVersionedFunction`.
pub code_mounts : String → String → List String
code_mounts function_path event_path =
    "-v"
    ∷ template (function_path ∷ ":/var/task/handler.js:ro" ∷ [])
    ∷ "-v"
    ∷ template (event_path ∷ ":/var/task/event.json:ro" ∷ [])
    ∷ []

pub event_mount : String → List String
event_mount event_path = "-v" ∷ template (event_path ∷ ":/var/task/event.json:ro" ∷ []) ∷ []

-- `slice(0, n)` of a text, by characters.
first_part : ℕ → String → String
first_part zero s = ""
first_part (suc n) String.[] = ""
first_part (suc n) (String.◌∷◌ c s) = String.◌∷◌ c (first_part n s)

-- The listener's variables, the number of `docker kill`s, and what the promise is resolved with.
pub record Running (V : Type 0) : Type 0 where
  pub settled : Bool
  pub timer : Bool
  pub kills : ℕ
  pub stderr : String
  pub outcome : Option (ExecutionOutcome V)

-- The timer fires, a chunk of the error output comes, or the process closes with an exit code (`null`
-- after a signal) at a reading of the clock, with or without the file `result.json`.
pub data Event : Type 0 where
  fires : Event
  chunk : String → Event
  closes : Option ℕ → ℤ → Option String → Event

abbrev pub started : {V : Type 0} → Running V
started = record { settled = false; timer = true; kills = 0; stderr = ""; outcome = none }

abbrev pub exit_text : Option ℕ → String
exit_text none = "null"
exit_text (some code) = show code

-- `{ ...shimOutcome, durationMs }`: what the file parses to lacks the duration; `none` where
-- `JSON.parse` throws.
abbrev pub Shim : Type 0 → Type 0
Shim V = String → Option (ℤ → ExecutionOutcome V)

module _ {V : Type 0} (parse : Shim V) where
  -- A file that does not parse throws in the listener, and the promise stays as it is.
  from_file : ℤ → Option (ℤ → ExecutionOutcome V) → Option (ExecutionOutcome V)
  from_file duration none = none
  from_file duration (some o) = some (o duration)

  from_exit : ℤ → String → Option ℕ → ExecutionOutcome V
  unfolding first_part
  from_exit duration stderr none =
      error
        (template (
          "Container exited with code null before producing a result. stderr: "
          ∷ first_part 500 stderr
          ∷ []))
        duration
  from_exit duration stderr (some code) =
      if code == 137
      then timeout duration
      else error
          (template (
            "Container exited with code "
            ∷ exit_text (some code)
            ∷ " before producing a result. stderr: "
            ∷ first_part 500 stderr
            ∷ []))
          duration

  conclude : Option ℕ → ℤ → Option String → String → Option (ExecutionOutcome V)
  unfolding from_file from_exit
  conclude exit_code duration none stderr = some (from_exit duration stderr exit_code)
  conclude exit_code duration (some file) stderr = from_file duration (parse file)

  pub react : Event → Running V → Running V
  unfolding conclude
  react fires r = if r.timer then record r { timer = false; kills = r.kills + 1 } else r
  react (chunk text) r = record r { stderr = String.◌++◌ r.stderr text }
  react (closes exit_code duration file) r =
      if r.settled then record r { timer = false } else record r {
        timer = false;
        settled = true;
        outcome = conclude exit_code duration file r.stderr;
      }

  pub react_all : List Event → Running V → Running V
  unfolding react
  react_all [] r = r
  react_all (e ∷ es) r = react_all es (react e r)
