-- ===== src/Access/Tests.antt =====
-- A request with an API key: it registers a function of its account.
use mini_serverless_cloud_pl.Base.{strip_prefix, ok, ℕ, none, some, [], ◌∷◌, str_eq}
use mini_serverless_cloud_pl.Schema.{functions_write, Database}
use mini_serverless_cloud_pl.Prisma.{new_api_key}
use mini_serverless_cloud_pl.Prisma.Memory.{fresh_id, create, update, memory, memory-IsPrisma}
use mini_serverless_cloud_pl.Functions.{created, register}
use mini_serverless_cloud_pl.Functions.History.{serve, Request}
use mini_serverless_cloud_pl.Auth.{
  after_touch, use_key, validate_api_key, authenticated, by_prefix, principal_of, bearer,
  authenticate, forbid, authorize, guarded_route, Crypto,
}
use mini_serverless_cloud_pl.Access.{receive}
use mini_serverless_cloud_pl.Access.Isolation.{IsAuthorized, receive-IsAuthorized}

abbrev crypto : Crypto
crypto = record {
  bcrypt_hash = λ s. ok s;
  bcrypt_compare = λ s t. str_eq s t;
  sha256 = λ s. s;
  sign = λ lifetime now p. "eyJ";
  verify = λ now t. none;
}

abbrev tables : Database
tables = record {
  users = [];
  api_keys = new_api_key 1 "ci" (functions_write ∷ []) "mc_00" 0 0 ∷ [];
  functions = [];
  versions = [];
  builds = [];
  invocations = [];
}

abbrev request : Request ℕ
request = Request.registers (record { name = "hello"; memory_mb = none; timeout_ms = none })

receive-IsAuthorized_example : IsAuthorized crypto 4 (some "Bearer mc_00") request 1 tables
unfolding memory receive guarded_route authenticate authorize bearer principal_of by_prefix
    validate_api_key use_key after_touch authenticated forbid serve register created create update
    fresh_id strip_prefix
receive-IsAuthorized_example =
    receive-IsAuthorized memory crypto memory-IsPrisma 4 (some "Bearer mc_00") request tables 1
      (λ e. cc)
