-- ===== src/Schema.antt =====
-- prisma/schema.prisma: the rows of the tables, and the database that holds them.
-- A `uuid()` and a time are numbers: the code only compares, stores and passes them on.
use mini_serverless_cloud_pl.Base.{ℕ, String, List, Option, ◌==◌, ◌&&◌, str_eq, Bool, ℤ}

-- auth/scopes.ts
pub data ApiScope : Type 0 where
  functions_read functions_write functions_invoke : ApiScope

pub record User : Type 0 where
  pub id : ℕ
  pub email : String
  pub password_hash : String
  pub created_at : ℕ

pub record ApiKey : Type 0 where
  pub id : ℕ
  pub user_id : ℕ
  pub key_hash : String
  pub name : String
  pub scopes : List ApiScope
  pub last_used_at : Option ℕ
  pub revoked_at : Option ℕ
  pub created_at : ℕ

pub record FunctionRecord : Type 0 where
  pub id : ℕ
  pub user_id : ℕ
  pub name : String
  pub memory_mb : ℕ
  pub timeout_ms : ℕ
  pub created_at : ℕ

pub record FunctionVersion : Type 0 where
  pub id : ℕ
  pub function_id : ℕ
  pub version_number : ℕ
  pub image_tag : String
  pub created_at : ℕ

pub data BuildStatus : Type 0 where
  pending running success failed : BuildStatus

pub record Build : Type 0 where
  pub id : ℕ
  pub function_id : ℕ
  pub source_object_key : String
  pub status : BuildStatus
  pub image_tag : Option String
  pub error_message : Option String
  pub created_at : ℕ
  pub started_at : Option ℕ
  pub finished_at : Option ℕ
  pub published_to_stream_at : Option ℕ

pub data InvocationStatus : Type 0 where
  success error timeout no_worker : InvocationStatus

pub record Invocation : Type 0 where
  pub id : ℕ
  pub function_id : ℕ
  pub version_id : Option ℕ
  pub request_id : ℕ
  pub status : InvocationStatus
  pub cold_start : Bool
  pub duration_ms : ℤ
  pub error_message : Option String
  pub created_at : ℕ

pub record Database : Type 0 where
  pub users : List User
  pub api_keys : List ApiKey
  pub functions : List FunctionRecord
  pub versions : List FunctionVersion
  pub builds : List Build
  pub invocations : List Invocation

-- The `@unique` and `@@unique` constraints, as tests of a row for given key values.
abbrev pub has_email : String → User → Bool
has_email email u = str_eq u.email email

abbrev pub has_hash : String → ApiKey → Bool
has_hash key_hash k = str_eq k.key_hash key_hash

abbrev pub is_named : ℕ → String → FunctionRecord → Bool
is_named user_id name f = f.user_id == user_id && str_eq f.name name

abbrev pub is_version : ℕ → ℕ → FunctionVersion → Bool
is_version function_id number v = v.function_id == function_id && v.version_number == number

abbrev pub is_of : ℕ → FunctionVersion → Bool
is_of function_id v = v.function_id == function_id
