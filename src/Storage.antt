-- ===== src/Storage.antt =====
-- storage/object-storage.service.ts: the bucket of uploaded sources. The S3 client is a parameter; a
-- `Buffer` is a text, and a bucket is absent (`none`) or holds the objects by their keys.
pub mod Bucket
mod Tests
use mini_serverless_cloud_pl.Base.{
  if◌then◌else◌, or_else, template, Action, ◌>>=◌, ◌>>◌, return, failure, Result, ok, err, String,
  Bool, true, false, ◌||◌, not, Option, none, some, List, [], str_eq,
}
use mini_serverless_cloud_pl.Redis.{Hash}

-- The environment variables that the constructor reads.
pub record Env : Type 0 where
  pub s3_bucket : Option String
  pub s3_endpoint : Option String
  pub s3_region : Option String
  pub s3_access_key_id : Option String
  pub s3_secret_access_key : Option String

pub record Config : Type 0 where
  pub bucket : String
  pub is_minio : Bool
  pub endpoint : Option String
  pub region : String
  pub credentials : Option (String × String)
  pub force_path_style : Bool

-- `Boolean(s)`.
abbrev pub is_truthy : Option String → Bool
is_truthy none = false
is_truthy (some s) = not (str_eq s "")

credentials_of : Option String → Option String → Option (String × String)
credentials_of none secret = none
credentials_of (some id) secret = if str_eq id "" then none else some (id, or_else secret "")

pub configure : Env → Config
unfolding credentials_of
configure env = record {
  bucket = or_else env.s3_bucket "mini-cloud-function-source";
  is_minio = is_truthy env.s3_endpoint;
  endpoint = env.s3_endpoint;
  region = or_else env.s3_region "us-east-1";
  credentials = credentials_of env.s3_access_key_id env.s3_secret_access_key;
  force_path_style = is_truthy env.s3_endpoint;
}

-- What `CreateBucketCommand` answers: an error has a name, which may be missing, and a message.
pub data Creation : Type 0 where
  made : Creation
  refused : Option String → String → Creation

-- The client; an object is read as the chunks of a stream.
pub record S3 : Type 0 where
  pub create_bucket : String → Option Hash → Creation
  pub put : String → String → Option Hash → Result (Option Hash)
  pub get : String → Option Hash → Result (List String)

abbrev pub already_exists : Option String → Bool
already_exists none = false
already_exists (some name) =
    str_eq name "BucketAlreadyOwnedByYou" || str_eq name "BucketAlreadyExists"

module _ (S : S3) (config : Config) where
  created_bucket : Creation → Action (Option Hash) (Unit {0})
  created_bucket made objects = (ok tt, some [])
  created_bucket (refused name m) objects =
      (if already_exists name then ok tt else err (failure m), objects)

  init_on : Bool → Action (Option Hash) (Unit {0})
  unfolding created_bucket
  init_on true objects = created_bucket (S.create_bucket config.bucket objects) objects
  init_on false objects = (ok tt, objects)

  pub on_module_init : Action (Option Hash) (Unit {0})
  unfolding init_on
  on_module_init = init_on config.is_minio

  stored : Result (Option Hash) → Action (Option Hash) (Unit {0})
  stored (ok objects') objects = (ok tt, objects')
  stored (err x) objects = (err x, objects)

  pub put_object : String → String → Action (Option Hash) (Unit {0})
  unfolding stored
  put_object key body objects = stored (S.put key body objects) objects

  -- `Buffer.concat` of the chunks.
  pub get_object : String → Action (Option Hash) String
  get_object key = do chunks ← λ objects. (S.get key objects, objects); return (template chunks)
