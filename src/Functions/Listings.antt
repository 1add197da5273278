-- ===== src/Functions/Listings.antt =====
-- functions/functions.service.ts and build/build.service.ts: the reads of many rows, and the endpoints
-- that answer them. A float of PostgreSQL is a value of a type `F`.
use mathlib.Core.List.{Memᴰ, Permᴰ}
use mini_serverless_cloud_pl.Base.{
  IsPage, take-IsPage, or_else, keep, take, IsOrdered, Action, resume, ◌>>=◌, return, Result, ok,
  err, ℕ, String, ◌≡◌, refl, Option, List,
}
use mini_serverless_cloud_pl.Schema.{is_of, FunctionRecord, FunctionVersion, Invocation, Database}
use mini_serverless_cloud_pl.Prisma.{Answer, Prisma, IsPrisma}
use mini_serverless_cloud_pl.Prisma.Lists.{
  listed_ok, is_of_function, IsBelow, IsNewer, PrismaLists, IsPrismaLists,
}
use mini_serverless_cloud_pl.Functions.{query, get}
use mini_serverless_cloud_pl.Functions.Tenancy.{get_sound}

-- The one row of the aggregate query over the invocations of the last hour; `NULL` is `none`.
pub record SummaryRow (F : Type 0) : Type 0 where
  pub total : ℕ
  pub error_rate : Option F
  pub p50 : Option F
  pub p95 : Option F
  pub p99 : Option F

pub record MetricsSummary (F : Type 0) : Type 0 where
  pub window_hours : ℕ
  pub total_invocations : ℕ
  pub error_rate : F
  pub latency_ms_p50 : Option F
  pub latency_ms_p95 : Option F
  pub latency_ms_p99 : Option F

abbrev pub summary_of : {F : Type 0} → F → SummaryRow F → MetricsSummary F
summary_of zero_rate row = record {
  window_hours = 1;
  total_invocations = row.total;
  error_rate = or_else row.error_rate zero_rate;
  latency_ms_p50 = row.p50;
  latency_ms_p95 = row.p95;
  latency_ms_p99 = row.p99;
}

pub list : PrismaLists → ℕ → Action Database (List FunctionRecord)
list L user_id = query (L.functions_of user_id)

module _ (P : Prisma) (L : PrismaLists) where
  unfoldable pub list_invocations : ℕ → String → Action Database (List Invocation)
  unfolding get
  list_invocations user_id name = do f ← get P user_id name; query (L.invocations_of f.id 50)

  -- `listVersions` of the build service, and the endpoint of the build controller.
  pub list_versions : ℕ → Action Database (List FunctionVersion)
  list_versions function_id = query (L.versions_of function_id)

  pub list_versions_endpoint : ℕ → String → Action Database (List FunctionVersion)
  unfolding get list_versions
  list_versions_endpoint user_id name = do f ← get P user_id name; list_versions f.id

  -- The aggregate of a function, as the query answers it.
  pub get_metrics_summary :
      {F : Type 0}
      → F
      → (ℕ → Database → Answer (SummaryRow F))
      → ℕ
      → String
      → Action Database (MetricsSummary F)
  unfolding get
  get_metrics_summary zero_rate aggregate user_id name = do
    f ← get P user_id name
    row ← query (aggregate f.id)
    return (summary_of zero_rate row)

-- The row of a function, in the table and of the caller.
abbrev pub IsOwn : ℕ → String → Database → FunctionRecord → Type 0
IsOwn user_id name db f = (f.user_id ≡ user_id) × (f.name ≡ name) × Memᴰ f db.functions

module _ (P : Prisma) (L : PrismaLists) (real : IsPrisma P) (lists : IsPrismaLists L) (user_id : ℕ)
    (name : String) (db db' : Database) where
  get_then :
      {B : Type 0} (k : FunctionRecord → Action Database B) (b : B)
      → resume k (get P user_id name db) ≡ (ok b, db')
      → (f : FunctionRecord) × IsOwn user_id name db f × (k f db ≡ (ok b, db'))
  get_then {B} k b = go (get P user_id name db) refl
    where
      go :
          (r : Result FunctionRecord × Database)
          → get P user_id name db ≡ r
          → resume k r ≡ (ok b, db')
          → (f : FunctionRecord) × IsOwn user_id name db f × (k f db ≡ (ok b, db'))
      go (ok f, db₁) e q =
          let (mine, named, there, same) = get_sound P real user_id name db db₁ f e in
          (f, (mine, named, there), rw (← same) q)
      go (err x, db₁) e q = absurd (cc)

  -- A caller sees the invocations of a function of its own only: the 50 newest of them, the newest
  -- first, and all of them when they are fewer; the read changes nothing.
  pub list_invocations-IsPage :
      (page : List Invocation)
      → list_invocations P L user_id name db ≡ (ok page, db')
      → (f : FunctionRecord) × IsOwn user_id name db f
        × IsPage (is_of_function f.id) IsNewer 50 db.invocations page
        × (db' ≡ db)
  unfolding list_invocations
  list_invocations-IsPage page e =
      let (f, own, q) = get_then (λ f. query (L.invocations_of f.id 50)) page e in
      let (sorted, perm, order, shown, same) =
        listed_ok (is_of_function f.id) IsNewer (take 50) db.invocations
          (L.invocations_of f.id 50 db) (lists.lists_invocations f.id 50 db) q in
      (f, own, rw shown (take-IsPage 50 sorted perm order), same)

  -- The versions that a caller is shown are all those of a function of its own, in the order of their
  -- numbers.
  pub list_versions_endpoint-eq-ok :
      (versions : List FunctionVersion)
      → list_versions_endpoint P L user_id name db ≡ (ok versions, db')
      → (f : FunctionRecord) × IsOwn user_id name db f
        × Permᴰ versions (keep (is_of f.id) db.versions)
        × IsOrdered IsBelow versions
        × (db' ≡ db)
  unfolding list_versions_endpoint list_versions
  list_versions_endpoint-eq-ok versions e =
      let (f, own, q) = get_then (λ f. query (L.versions_of f.id)) versions e in
      let (sorted, perm, order, shown, same) =
        listed_ok (is_of f.id) IsBelow (λ vs. vs) db.versions (L.versions_of f.id db)
          (lists.lists_versions f.id db) q in
      (f, own, rw shown perm, rw shown order, same)
