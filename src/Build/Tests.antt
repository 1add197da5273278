-- ===== src/Build/Tests.antt =====
-- Builds at concrete tables: a function with one version and a pending build, and an empty bucket.
use mini_serverless_cloud_pl.Base.{
  ◌==◌, if◌then◌else◌, template, show, ok, ℕ, ◌<◌, String, ◌≡◌, refl, inl, some, [], ◌∷◌,
}
use mini_serverless_cloud_pl.Redis.{put}
use mini_serverless_cloud_pl.Schema.{FunctionRecord, Build, Database}
use mini_serverless_cloud_pl.Prisma.{new_function, new_version, new_build}
use mini_serverless_cloud_pl.Prisma.Memory.{memory, memory-IsPrisma}
use mini_serverless_cloud_pl.Build.{
  BuildExecutor, PutObject, run_build, BuildExecutorParams, Stores,
}
use mini_serverless_cloud_pl.Build.Runs.{with_version}
use mini_serverless_cloud_pl.Build.Overlap.{IsNumbered, run_build-IsNumbered}
use mini_serverless_cloud_pl.Build.CodeBuild.{
  SucceedsAt, start_request, image_in, code_build_executor-eq-ok,
}
use mini_serverless_cloud_pl.Build.Executors.{
  is_set, tag_for, poll_result, poll, await_build, code_build, configured, code_build_executor,
  Settings, CodeBuildClient,
}

abbrev hello : FunctionRecord
hello = new_function 1 "hello" 128 3000 0 0

abbrev waiting : Build
waiting = new_build 0 "functions/0/a.js" 5 0

abbrev tables : Database
tables = record {
  users = [];
  api_keys = [];
  functions = hello ∷ [];
  versions = new_version 0 1 "mini-cloud-fn-hello:1" 0 0 ∷ [];
  builds = waiting ∷ [];
  invocations = [];
}

abbrev builder : BuildExecutor
builder params = ok (template (params.function_name ∷ ":2" ∷ []))

run_build-IsNumbered_example : IsNumbered (run_build memory builder 9 waiting tables).1.versions
run_build-IsNumbered_example =
    run_build-IsNumbered memory builder 9 waiting tables memory-IsPrisma
      ((inl refl, tt), (refl, tt))

-- The same build, run by two consumers: the second has planned version 2 as well.
abbrev taken : Database
taken = with_version waiting 2 "hello:2" 9 1 0 tables

abbrev bucket : PutObject
bucket key body objects = ok (put key body objects)

abbrev submitted_build : Build
submitted_build = new_build 0 "functions/0/b.js" 6 0

abbrev before : Stores
before = record { database = tables; objects = [] }

abbrev after : Stores
after = record {
  database = record tables { builds = waiting ∷ submitted_build ∷ [] };
  objects = ("functions/0/b.js", "module.exports = 1") ∷ [];
}

abbrev settings : Settings
settings = record {
  project_name = some "builds";
  bucket = some "sources";
  functions_repo_uri = some "repo/functions";
  runtime_image_uri = some "repo/runtime";
}

-- In progress at the first poll, done at the second.
abbrev code_build_service : CodeBuildClient
code_build_service = record {
  start_build = λ request. ok (some "b:1");
  poll_build = λ id attempt. ok (some (some (if attempt == 1 then "SUCCEEDED" else "IN_PROGRESS")));
}

abbrev params : BuildExecutorParams
params = record {
  source_object_key = "functions/0/a.js";
  function_name = "hello";
  version_number = 2;
}

code_build_executor-eq-ok_example :
    (project : String) × (bucket : String) × (repo : String) × (runtime : String)
    × (settings.project_name ≡ some project)
    × (settings.bucket ≡ some bucket)
    × (settings.functions_repo_uri ≡ some repo)
    × (settings.runtime_image_uri ≡ some runtime)
    × ("repo/functions:hello-v2" ≡ image_in repo params)
    × ((build_id : String) × (code_build_service.start_build
            (start_request params project bucket repo runtime)
          ≡ ok (some build_id))
        × ((n : ℕ) × (n < 100) × SucceedsAt code_build_service build_id n 0))
unfolding code_build_executor configured code_build await_build poll poll_result is_set tag_for show
code_build_executor-eq-ok_example =
    code_build_executor-eq-ok settings code_build_service params "repo/functions:hello-v2" refl
