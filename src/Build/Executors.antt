-- ===== src/Build/Executors.antt =====
-- build/codebuild-executor.ts and build/local-docker-build-executor.ts: the two image builders.
-- CodeBuild, the object storage and the `docker build` process are parameters.
use mini_serverless_cloud_pl.Base.{
  if◌then◌else◌, template, show, failure, Result, ok, err, ℕ, zero, suc, ◌+◌, String, ◌||◌, Option,
  none, some, List, [], ◌∷◌, str_eq,
}
use mini_serverless_cloud_pl.Build.{BuildExecutor, BuildExecutorParams}

-- `MAX_POLL_ATTEMPTS`.
abbrev pub max_poll_attempts : ℕ
max_poll_attempts = 100

-- `status.builds?.[0]`: no entry, or one whose `buildStatus` may be missing.
abbrev pub BuildEntry : Type 0
BuildEntry = Option (Option String)

-- The settings of the environment that `CodeBuildExecutor` requires.
pub record Settings : Type 0 where
  pub project_name : Option String
  pub bucket : Option String
  pub functions_repo_uri : Option String
  pub runtime_image_uri : Option String

pub record StartBuild : Type 0 where
  pub project_name : String
  pub source_bucket : String
  pub source_key : String
  pub runtime_image_uri : String
  pub image_uri : String
  pub image_tag : String

-- CodeBuild: the id of a started build, and its entry at each poll.
pub record CodeBuildClient : Type 0 where
  pub start_build : StartBuild → Result (Option String)
  pub poll_build : String → ℕ → Result BuildEntry

-- A setting that is missing or empty does not count.
unfoldable pub is_set : Option String → Option String
is_set none = none
is_set (some s) = if str_eq s "" then none else some s

unfoldable pub tag_for : BuildExecutorParams → String
tag_for params = template (params.function_name ∷ "-v" ∷ show params.version_number ∷ [])

-- What one poll says: go on, or an end.
unfoldable pub poll_result : String → String → BuildEntry → Option (Result String)
poll_result build_id image_ref none = none
poll_result build_id image_ref (some none) = none
poll_result build_id image_ref (some (some status)) =
    if str_eq status "SUCCEEDED"
    then some (ok image_ref)
    else if str_eq status "" || str_eq status "IN_PROGRESS"
    then none
    else some
        (err (failure (template ("CodeBuild " ∷ build_id ∷ " ended with status " ∷ status ∷ []))))

-- The polling loop, with the attempts that are left.
unfoldable pub poll : CodeBuildClient → String → String → ℕ → ℕ → Result String
unfolding poll_result
poll client build_id image_ref zero attempt =
    err
      (failure (template ("CodeBuild " ∷ build_id ∷ " did not finish within the poll window" ∷ [])))
poll client build_id image_ref (suc left) attempt = elim (client.poll_build build_id attempt) [
  | err x ↦ err x
  | ok entry ↦ elim (poll_result build_id image_ref entry) [
    | some result ↦ result
    | none ↦ poll client build_id image_ref left (attempt + 1)
  ]
]

unfoldable pub await_build : CodeBuildClient → String → Result (Option String) → Result String
unfolding poll
await_build client image_ref (err x) = err x
await_build client image_ref (ok none) = err (failure "CodeBuild did not return a build id")
await_build client image_ref (ok (some build_id)) =
    if str_eq build_id ""
    then err (failure "CodeBuild did not return a build id")
    else poll client build_id image_ref max_poll_attempts 0

unfoldable pub code_build :
    CodeBuildClient → BuildExecutorParams → String → String → String → String → Result String
unfolding await_build tag_for
code_build client params project bucket repo runtime =
    await_build client (template (repo ∷ ":" ∷ tag_for params ∷ [])) (
      client.start_build (record {
        project_name = project;
        source_bucket = bucket;
        source_key = params.source_object_key;
        runtime_image_uri = runtime;
        image_uri = repo;
        image_tag = tag_for params;
      }))

unfoldable pub missing_settings : Result String
missing_settings = err (
    failure
      "CodeBuildExecutor requires CODEBUILD_PROJECT_NAME, S3_BUCKET, FUNCTIONS_ECR_REPO_URI, and RUNTIME_IMAGE_URI")

unfoldable pub configured :
    CodeBuildClient
    → BuildExecutorParams
    → Option String
    → Option String
    → Option String
    → Option String
    → Result String
unfolding code_build missing_settings
configured client params (some project) (some bucket) (some repo) (some runtime) =
    code_build client params project bucket repo runtime
configured client params none bucket repo runtime = missing_settings
configured client params (some project) none repo runtime = missing_settings
configured client params (some project) (some bucket) none runtime = missing_settings
configured client params (some project) (some bucket) (some repo) none = missing_settings

-- `CodeBuildExecutor.build`.
unfoldable pub code_build_executor : Settings → CodeBuildClient → BuildExecutor
unfolding configured is_set
code_build_executor settings client params =
    configured client params (is_set settings.project_name) (is_set settings.bucket)
      (is_set settings.functions_repo_uri) (is_set settings.runtime_image_uri)

-- The object storage, and the process `docker build` with a tag on a build context: how it exits, and
-- the end of its error output (`stderr.slice(-1000)`). The context is the base image and the handler.
pub record Docker : Type 0 where
  pub get_object : String → Result String
  pub docker_build : String → List (String × String) → Option ℕ × String

pub image_name : BuildExecutorParams → String
image_name params =
    template ("mini-cloud-fn-" ∷ params.function_name ∷ ":" ∷ show params.version_number ∷ [])

-- The files of the working directory.
pub work_dir : String → List (String × String)
work_dir source =
    ("handler.js", source)
    ∷ ("Dockerfile", "FROM mini-cloud-runtime:latest\nCOPY handler.js /var/task/handler.js\n")
    ∷ []

-- An exit code is `null` when a signal ended the process.
docker_result : String → Option ℕ × String → Result String
docker_result image_ref (some zero, stderr) = ok image_ref
docker_result image_ref (none, stderr) =
    err (failure (template ("docker build exited with code null: " ∷ stderr ∷ [])))
docker_result image_ref (some (suc code), stderr) =
    err
      (failure (template ("docker build exited with code " ∷ show (suc code) ∷ ": " ∷ stderr ∷ [])))

-- `LocalDockerBuildExecutor.build`.
pub local_docker_executor : Docker → BuildExecutor
unfolding image_name work_dir docker_result
local_docker_executor docker params = elim (docker.get_object params.source_object_key) [
  | err x ↦ err x
  | ok source ↦
      docker_result (image_name params) (docker.docker_build (image_name params) (work_dir source))
]
