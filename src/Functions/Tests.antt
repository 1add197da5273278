-- ===== src/Functions/Tests.antt =====
-- The functions at concrete tables: an account with a built function, another account, two requests.
use mini_serverless_cloud_pl.Base.{
  pos, All, insert, order_by, IsPage, Exception, ok, err, ℕ, ◌+◌, String, ◌≡◌, refl, ◌⊎◌, true,
  false, none, some, List, [], ◌∷◌, arith,
}
use mini_serverless_cloud_pl.Execution.{success}
use mini_serverless_cloud_pl.Schema.{
  FunctionRecord, FunctionVersion, InvocationStatus, Invocation, Database,
}
use mini_serverless_cloud_pl.Prisma.{new_function, new_version, new_invocation, other, fail}
use mini_serverless_cloud_pl.Prisma.Memory.{
  fresh_id, create, newer, latest, memory, memory-IsPrisma,
}
use mini_serverless_cloud_pl.Functions.{
  required, get, record_invocation, invoke, RegisterFunctionDto, Surroundings, recorded,
  unavailable, attempt, guarded, run_latest,
}
use mini_serverless_cloud_pl.Prisma.Lists.{
  is_of_function, IsNewer, memory_lists, memory_lists-IsPrismaLists,
}
use mini_serverless_cloud_pl.Functions.Listings.{list_invocations, IsOwn, list_invocations-IsPage}
use mini_serverless_cloud_pl.Functions.Invoke.{job_for, Recorded, IsNewest}
use mini_serverless_cloud_pl.Functions.Soft.{invoke_soft}
use mini_serverless_cloud_pl.Functions.History.{serve_all, serve_all-owned, Request}
use mini_serverless_cloud_pl.Functions.Validation.{
  all_name_chars, is_name, register_endpoint, IsWithinLimits, register_endpoint-IsWithinLimits,
}
use mini_serverless_cloud_pl.Functions.Recording.{invoke-unavailable}
use mini_serverless_cloud_pl.Functions.Tenancy.{owned}

abbrev alice : ℕ
alice = 1

abbrev hello : FunctionRecord
hello = new_function alice "hello" 128 3000 0 0

abbrev hello_1 : FunctionVersion
hello_1 = new_version 0 1 "mini-cloud-fn-hello:1" 0 0

abbrev tables : Database
tables = record {
  users = [];
  api_keys = [];
  functions = hello ∷ [];
  versions = hello_1 ∷ [];
  builds = [];
  invocations = [];
}

abbrev calm : Surroundings ℕ
calm = record {
  start = 100;
  now = 130;
  request_id = 7;
  has_spare_capacity = ok true;
  dispatch = λ job. ok (success (job.event + 1) (pos 20));
}

abbrev busy : Surroundings ℕ
busy = record calm { has_spare_capacity = ok false }

abbrev after_503 : Database
after_503 = record tables {
  invocations =
      new_invocation 0 0 7 InvocationStatus.no_worker (pos 30)
        (some "No healthy worker had spare capacity") 0 0
      ∷ [];
}

invoke-unavailable_example :
    (f : FunctionRecord) × (v : FunctionVersion) × (reason : String) × IsNewest f v tables
    × (((busy.has_spare_capacity ≡ ok false) × (reason ≡ "No healthy worker had spare capacity"))
        ⊎ ((x : Exception) × (busy.dispatch (job_for f v 41) ≡ err x)
            × (reason ≡ "No worker responded within the dispatch window")))
    × Recorded memory f v 7 InvocationStatus.no_worker (pos 30) (some reason) tables after_503
unfolding memory invoke get required run_latest guarded attempt unavailable record_invocation
    recorded create fresh_id latest newer
invoke-unavailable_example =
    invoke-unavailable memory busy alice "hello" 41 tables memory-IsPrisma
      "No worker has spare capacity to run \"hello\" right now" after_503 (λ e. cc) refl

invoke_soft_example :
    (invoke
      (record memory { invocation_create = λ _ _ _ _ _ _ _. fail (other "disk full") })
      calm
      alice
      "hello"
      41
      tables).0
    ≡ (invoke memory calm alice "hello" 41 tables).0
invoke_soft_example =
    invoke_soft memory calm "hello" 41 alice tables (λ _ _ _ _ _ _ _. fail (other "disk full"))

abbrev other_dto : RegisterFunctionDto
other_dto = record { name = "resize"; memory_mb = some 256; timeout_ms = none }

abbrev history : List (ℕ × Request ℕ)
history =
    (2, Request.registers other_dto)
    ∷ (2, Request.invokes calm "hello" 41)
    ∷ (2, Request.removes "hello")
    ∷ []

serve_all-owned_example :
    owned alice (serve_all memory history tables).functions ≡ owned alice tables.functions
serve_all-owned_example =
    serve_all-owned memory memory-IsPrisma alice history tables
      ((λ e. cc), ((λ e. cc), ((λ e. cc), tt)))

register_endpoint-IsWithinLimits_example :
    All IsWithinLimits (register_endpoint memory alice other_dto tables).1.functions
unfolding is_name all_name_chars
register_endpoint-IsWithinLimits_example =
    register_endpoint-IsWithinLimits memory memory-IsPrisma alice other_dto tables
      ((refl, omega arith, omega arith, omega arith, omega arith), tt)

abbrev called : Database
called = record tables {
  invocations =
      new_invocation 0 0 7 InvocationStatus.success (pos 20) none 0 1
      ∷ new_invocation 0 0 8 InvocationStatus.success (pos 20) none 1 2
      ∷ [];
}

abbrev page : List Invocation
page =
    new_invocation 0 0 8 InvocationStatus.success (pos 20) none 1 2
    ∷ new_invocation 0 0 7 InvocationStatus.success (pos 20) none 0 1
    ∷ []

list_invocations-IsPage_example :
    (f : FunctionRecord) × IsOwn alice "hello" called f
    × IsPage (is_of_function f.id) IsNewer 50 called.invocations page
    × (called ≡ called)
unfolding list_invocations get required memory memory_lists order_by insert
list_invocations-IsPage_example =
    list_invocations-IsPage memory memory_lists memory-IsPrisma memory_lists-IsPrismaLists alice
      "hello" called called page refl
