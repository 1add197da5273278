-- ===== src/Worker/EcrLogin.antt =====
-- worker/ecr-login.ts: the login of the worker's Docker daemon to the registry of images. The client of
-- the registry, `Buffer`'s decoding and the exit of `docker` are parameters.
use Prim.Native.String
use mini_serverless_cloud_pl.Base.{
  if◌then◌else◌, template, head?, split, Action, ◌>>=◌, return, throw, failure, Result, err, ℕ,
  zero, suc, String, Option, none, some, List, [], ◌∷◌, str_eq,
}

-- A process that was spawned: its arguments, which every user of the host can list, and its input.
pub record Spawned : Type 0 where
  pub arguments : List String
  pub stdin : String

abbrev pub login_arguments : String → List String
login_arguments registry = "login" ∷ "--username" ∷ "AWS" ∷ "--password-stdin" ∷ registry ∷ []

abbrev pub login_of : String → String → Spawned
login_of registry input = record { arguments = login_arguments registry; stdin = input }

-- `[1]`.
abbrev pub second : List String → Option String
second [] = none
second (part ∷ parts) = head? parts

module _ (base64 : String → String) (close : Spawned → ℕ × String) where
  -- The listener of `close`.
  on_close : ℕ × String → Action (List Spawned) (Unit {0})
  on_close (zero, stderr) = return tt
  on_close (suc code, stderr) = throw (failure (template ("docker login failed: " ∷ stderr ∷ [])))

  -- `proc.stdin.write(undefined)` throws, when `docker` runs already.
  spawn_login : String → Option String → Action (List Spawned) (Unit {0})
  unfolding on_close
  spawn_login registry none spawned = (
    err (failure "The \"chunk\" argument must be of type string"),
    login_of registry "" ∷ spawned,
  )
  spawn_login registry (some password) spawned =
      on_close (close (login_of registry password)) (login_of registry password ∷ spawned)

  -- `authorizationData?.[0]?.authorizationToken`; the empty text is falsy as well.
  login_with : String → Option String → Action (List Spawned) (Unit {0})
  unfolding spawn_login
  login_with registry none = throw (failure "ECR did not return an authorization token")
  login_with registry (some token) =
      if str_eq token ""
      then throw (failure "ECR did not return an authorization token")
      else spawn_login registry (second (split ":" (base64 token)))

  -- `process.env.ECR_REGISTRY`, and what the client answers.
  unfoldable pub ensure_ecr_login :
      Option String → Result (Option String) → Action (List Spawned) (Unit {0})
  unfolding login_with
  ensure_ecr_login none answer = return tt
  ensure_ecr_login (some registry) answer =
      if str_eq registry "" then return tt else (λ s. (answer, s)) >>= login_with registry
