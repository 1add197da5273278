-- ===== src/Build.antt =====
-- build/build.service.ts and build/build.controller.ts, with build/build-executor.ts as a parameter:
-- what `BUILD_EXECUTOR.build` answers. A build that the consumer runs reads the database (`plan`),
-- waits for the executor, and writes (`finish`, or `give_up` in the `catch`).
pub mod Reads
pub mod Uploads
pub mod Runs
pub mod Overlap
pub mod Executors
pub mod CodeBuild
mod Tests
use mini_serverless_cloud_pl.Base.{
  ◌==◌, if◌then◌else◌, template, show, Action, ◌>>=◌, ◌>>◌, return, throw, try_catch, Exception,
  bad_request, unauthorized, forbidden, not_found, conflict, service_unavailable, failure, Result,
  ok, err, ℕ, ◌+◌, String, Bool, Option, none, some, [], ◌∷◌,
}
use mini_serverless_cloud_pl.Redis.{Hash}
use mini_serverless_cloud_pl.Schema.{FunctionRecord, FunctionVersion, BuildStatus, Build, Database}
use mini_serverless_cloud_pl.Prisma.{message, Answer, done, fail, Prisma}
use mini_serverless_cloud_pl.Functions.{query, get}

pub record BuildExecutorParams : Type 0 where
  pub source_object_key : String
  pub function_name : String
  pub version_number : ℕ

-- The image reference, or what the executor throws.
abbrev pub BuildExecutor : Type 0
BuildExecutor = BuildExecutorParams → Result String

-- `err.message`.
abbrev pub message_of : Exception → String
message_of (bad_request m) = m
message_of (unauthorized m) = m
message_of (forbidden m) = m
message_of (not_found m) = m
message_of (conflict m) = m
message_of (service_unavailable m) = m
message_of (failure m) = m

-- The database and the object storage.
pub record Stores : Type 0 where
  pub database : Database
  pub objects : Hash

-- The bucket, which the code only calls: `PutObjectCommand` at a key.
abbrev pub PutObject : Type 0
PutObject = String → String → Hash → Result Hash

abbrev pub succeeded : String → ℕ → Build → Build
succeeded image_ref now b = record b {
  status = BuildStatus.success;
  image_tag = some image_ref;
  finished_at = some now;
}

abbrev pub gave_up : String → ℕ → Build → Build
gave_up m now b = record b {
  status = BuildStatus.failed;
  error_message = some m;
  finished_at = some now;
}

abbrev pub has_id : ℕ → Build → Bool
has_id id b = b.id == id

abbrev pub params_for : Build → FunctionRecord → ℕ → BuildExecutorParams
params_for b f n = record {
  source_object_key = b.source_object_key;
  function_name = f.name;
  version_number = n;
}

module _ (P : Prisma) where
  created_build : Stores → Answer (Build × Database) → Result Build × Stores
  created_build s (done (row, db)) = (ok row, record s { database = db })
  created_build s (fail x) = (err (failure (message x)), s)

  insert_build : ℕ → String → Action Stores Build
  unfolding created_build
  insert_build function_id key s = created_build s (P.build_create function_id key s.database)

  stored : Stores → Result Hash → Result (Unit {0}) × Stores
  stored s (ok objects) = (ok tt, record s { objects = objects })
  stored s (err x) = (err x, s)

  -- `uuid` is the random part of the key.
  pub submit_build : PutObject → String → ℕ → String → Action Stores Build
  unfolding insert_build stored
  submit_build put_object uuid function_id source_buffer =
      let key = template ("functions/" ∷ show function_id ∷ "/" ∷ uuid ∷ ".js" ∷ []) in
      do λ s. stored s (put_object key source_buffer s.objects); insert_build function_id key

  own_build : ℕ → String → Option Build → Action Database Build
  own_build function_id build_id none =
      throw (not_found (template ("Build \"" ∷ build_id ∷ "\" not found" ∷ [])))
  own_build function_id build_id (some b) =
      if b.function_id == function_id
      then return b
      else throw (not_found (template ("Build \"" ∷ build_id ∷ "\" not found" ∷ [])))

  pub get_build : ℕ → ℕ → Action Database Build
  unfolding own_build
  get_build function_id build_id = do
    found ← query (P.build_by_id build_id)
    own_build function_id (show build_id) found

  -- `GET /functions/:name/builds/:buildId`.
  pub get_build_endpoint : ℕ → String → ℕ → Action Database Build
  unfolding get_build
  get_build_endpoint user_id name build_id = do f ← get P user_id name; get_build f.id build_id

  with_stores : {A : Type 0} → Stores → Result A × Database → Result A × Stores
  with_stores s (r, db) = (r, record s { database = db })

  -- `POST /functions/:name/versions`, with the uploaded file: the id and the status of the build.
  pub create_version :
      PutObject → String → ℕ → String → Option String → Action Stores (ℕ × BuildStatus)
  unfolding submit_build with_stores
  create_version put_object uuid user_id name none =
      throw (bad_request "Upload a source file under the \"source\" field")
  create_version put_object uuid user_id name (some source) = do
    f ← λ s. with_stores s (get P user_id name s.database)
    b ← submit_build put_object uuid f.id source
    return (b.id, b.status)

  unfoldable pub next_after : Option FunctionVersion → ℕ
  next_after none = 0 + 1
  next_after (some v) = v.version_number + 1

  unfoldable pub next_version_number : ℕ → Action Database ℕ
  unfolding next_after
  next_version_number function_id = do
    latest ← query (P.latest_version function_id)
    return (next_after latest)

  unfoldable pub planned : Build → Option FunctionRecord → Action Database BuildExecutorParams
  unfolding next_version_number
  planned b none = throw (failure "No Function found")
  planned b (some f) = do n ← next_version_number b.function_id; return (params_for b f n)

  -- The reads of `runBuild`.
  unfoldable pub plan : Build → Action Database BuildExecutorParams
  unfolding planned
  plan b = do found ← query (P.function_by_id b.function_id); planned b found

  -- The transaction: a statement that fails, or the commit, leaves everything as it was.
  unfoldable pub committed : Database → Answer Database → Result (Unit {0}) × Database
  committed db (done db') = (ok tt, db')
  committed db (fail x) = (err (failure (message x)), db)

  unfoldable pub updated : Database → Answer Database → Result (Unit {0}) × Database
  unfolding committed
  updated db (done db₂) = committed db (P.commit db₂)
  updated db (fail x) = (err (failure (message x)), db)

  unfoldable pub versioned :
      Build
      → String
      → ℕ
      → Database
      → Answer (FunctionVersion × Database)
      → Result (Unit {0}) × Database
  unfolding updated
  versioned b image_ref now db (done (v, db₁)) =
      updated db (P.build_update b.id (succeeded image_ref now) db₁)
  versioned b image_ref now db (fail x) = (err (failure (message x)), db)

  unfoldable pub finish : Build → ℕ → String → ℕ → Action Database (Unit {0})
  unfolding versioned
  finish b version_number image_ref now db =
      versioned b image_ref now db (P.version_create b.function_id version_number image_ref db)

  pub give_up : Build → ℕ → Exception → Action Database (Unit {0})
  unfolding committed
  give_up b now x db = committed db (P.build_update b.id (gave_up (message_of x) now) db)

  unfoldable pub carry_out :
      BuildExecutor → ℕ → Build → BuildExecutorParams → Action Database (Unit {0})
  unfolding finish
  carry_out build now b params = do
    image_ref ← λ db. (build params, db)
    finish b params.version_number image_ref now

  unfoldable pub run_build : BuildExecutor → ℕ → Build → Action Database (Unit {0})
  unfolding plan carry_out give_up
  run_build build now b =
      try_catch (do params ← plan b; carry_out build now b params) (give_up b now)
