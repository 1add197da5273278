-- ===== src/Prisma/Lists.antt =====
-- Prisma's `findMany`, as the services call it: the rows that match, in an order, at most so many.
use mathlib.Core.List.{Permᴰ}
use mini_serverless_cloud_pl.Base.{
  leb, ◌==◌, keep, order_by, take, IsOrdered, order_by-Perm, order_by-IsOrdered, Result, ok, ℕ, ◌≤◌,
  String, ◌≡◌, refl, sym, ap, ◌∙◌, Bool, Option, List, map, arith,
}
use mini_serverless_cloud_pl.Schema.{
  is_of, ApiScope, ApiKey, FunctionRecord, FunctionVersion, Invocation, Database,
}
use mini_serverless_cloud_pl.Prisma.{unwrap, Answer, done, fail}

-- The columns of an API key that the service selects.
pub record ApiKeyInfo : Type 0 where
  pub id : ℕ
  pub name : String
  pub scopes : List ApiScope
  pub last_used_at : Option ℕ
  pub revoked_at : Option ℕ
  pub created_at : ℕ

abbrev pub selected : ApiKey → ApiKeyInfo
selected k = record {
  id = k.id;
  name = k.name;
  scopes = k.scopes;
  last_used_at = k.last_used_at;
  revoked_at = k.revoked_at;
  created_at = k.created_at;
}

-- The first `limit` rows, of the rows that match, in the order.
abbrev pub Lists :
    {A B : Type 0}
    → (A → Bool)
    → (A → A → Type 0)
    → (List A → List B)
    → List A
    → Answer (List B)
    → Type 0
Lists {A} p R view rows (done xs) =
    (sorted : List A) × Permᴰ sorted (keep p rows) × IsOrdered R sorted × (xs ≡ view sorted)
Lists p R view rows (fail e) = Unit

-- A listing that succeeds.
pub listed_ok :
    {A B : Type 0} (p : A → Bool) (R : A → A → Type 0) (view : List A → List B) (rows : List A)
    (a : Answer (List B)) {db db' : Database} {xs : List B}
    → Lists p R view rows a
    → ◌≡◌ {A = Result (List B) × Database} (unwrap a, db) (ok xs, db')
    → (sorted : List A) × Permᴰ sorted (keep p rows)
      × IsOrdered R sorted
      × (xs ≡ view sorted)
      × (db' ≡ db)
listed_ok {B = B} p R view rows (done ys) {db} {db'} {xs} (sorted, perm, order, e) q =
    (sorted, perm, order, sym (same q) ∙ e, sym (ap (λ r. r.1) q))
  where
    same : ◌≡◌ {A = Result (List B) × Database} (ok ys, db) (ok xs, db') → ys ≡ xs
    same r = cc
listed_ok p R view rows (fail x) l q = absurd (cc)

abbrev pub is_of_function : ℕ → Invocation → Bool
is_of_function function_id i = i.function_id == function_id

-- `orderBy: { createdAt: 'asc' }`, and the other orders.
abbrev pub IsOlder : FunctionRecord → FunctionRecord → Type 0
IsOlder f g = f.created_at ≤ g.created_at

abbrev pub IsOlderKey : ApiKey → ApiKey → Type 0
IsOlderKey k l = k.created_at ≤ l.created_at

abbrev pub IsBelow : FunctionVersion → FunctionVersion → Type 0
IsBelow v w = v.version_number ≤ w.version_number

abbrev pub IsNewer : Invocation → Invocation → Type 0
IsNewer i j = j.created_at ≤ i.created_at

pub record PrismaLists : Type 0 where
  pub functions_of : ℕ → Database → Answer (List FunctionRecord)
  pub api_keys_of : ℕ → Database → Answer (List ApiKeyInfo)
  pub versions_of : ℕ → Database → Answer (List FunctionVersion)
  pub invocations_of : ℕ → ℕ → Database → Answer (List Invocation)

pub record IsPrismaLists (L : PrismaLists) : Type 0 where
  pub lists_functions :
      (user_id : ℕ) (db : Database)
      → Lists
          (λ f. f.user_id == user_id)
          IsOlder
          (λ fs. fs)
          db.functions
          (L.functions_of user_id db)
  pub lists_api_keys :
      (user_id : ℕ) (db : Database)
      → Lists
          (λ k. k.user_id == user_id)
          IsOlderKey
          (map selected)
          db.api_keys
          (L.api_keys_of user_id db)
  pub lists_versions :
      (function_id : ℕ) (db : Database)
      → Lists (is_of function_id) IsBelow (λ vs. vs) db.versions (L.versions_of function_id db)
  pub lists_invocations :
      (function_id limit : ℕ) (db : Database)
      → Lists
          (is_of_function function_id)
          IsNewer
          (take limit)
          db.invocations
          (L.invocations_of function_id limit db)

-- Tables in memory.
unfoldable pub memory_lists : PrismaLists
memory_lists = record {
  functions_of = λ user_id db. done (
      order_by (λ f g. leb f.created_at g.created_at)
        (keep (λ f. f.user_id == user_id) db.functions));
  api_keys_of = λ user_id db. done (
      map selected (
        order_by (λ k l. leb k.created_at l.created_at)
          (keep (λ k. k.user_id == user_id) db.api_keys)));
  versions_of = λ function_id db. done (
      order_by (λ v w. leb v.version_number w.version_number)
        (keep (is_of function_id) db.versions));
  invocations_of = λ function_id limit db. done (
      take limit (
        order_by (λ i j. leb j.created_at i.created_at)
          (keep (is_of_function function_id) db.invocations)));
}

pub memory_lists-IsPrismaLists : IsPrismaLists memory_lists
unfolding memory_lists
memory_lists-IsPrismaLists = record {
  lists_functions = λ user_id db. (
    _,
    order_by-Perm _ _,
    order_by-IsOrdered (λ f g. leb f.created_at g.created_at) IsOlder (λ f g h. ground arith)
        (λ f g h. ground arith) (λ f g k h₁ h₂. omega arith) _,
    refl,
  );
  lists_api_keys = λ user_id db. (
    _,
    order_by-Perm _ _,
    order_by-IsOrdered (λ f g. leb f.created_at g.created_at) IsOlderKey (λ f g h. ground arith)
        (λ f g h. ground arith) (λ f g k h₁ h₂. omega arith) _,
    refl,
  );
  lists_versions = λ function_id db. (
    _,
    order_by-Perm _ _,
    order_by-IsOrdered (λ f g. leb f.version_number g.version_number) IsBelow
        (λ f g h. ground arith) (λ f g h. ground arith) (λ f g k h₁ h₂. omega arith) _,
    refl,
  );
  lists_invocations = λ function_id limit db. (
    _,
    order_by-Perm _ _,
    order_by-IsOrdered (λ i j. leb j.created_at i.created_at) IsNewer (λ f g h. ground arith)
        (λ f g h. ground arith) (λ f g k h₁ h₂. omega arith) _,
    refl,
  );
}
