-- ===== src/Functions/Validation.antt =====
-- functions/dto/register-function.dto.ts, behind the ValidationPipe of main.ts: what a registration may
-- ask for, and what the table of functions holds therefore.
use Prim.Native.Char.{code}
use mini_serverless_cloud_pl.Base.{
  leb, ◌==◌, if◌then◌else◌, Bool-cases, or_else, All, Action, throw, bad_request, Result, ok, err,
  ℕ, ◌≤◌, String, ◌≡◌, refl, sym, subst, inl, inr, Bool, true, false, ◌&&◌, ◌||◌, Option, none,
  some, List, [], ◌∷◌, ◌++◌, arith,
}
use mini_serverless_cloud_pl.Schema.{FunctionRecord, Database}
use mini_serverless_cloud_pl.Prisma.{new_function, Prisma, IsPrisma}
use mini_serverless_cloud_pl.Functions.{register, RegisterFunctionDto}
use mini_serverless_cloud_pl.Functions.Tenancy.{register-eq-ok}
use mini_serverless_cloud_pl.Functions.Accounts.{register-eq-err}

abbrev pub between : ℕ → ℕ → ℕ → Bool
between low high n = leb low n && leb n high

-- `[a-zA-Z0-9_-]`, by the code of the character.
abbrev pub is_name_code : ℕ → Bool
is_name_code n = between 97 122 n || (between 65 90 n || (between 48 57 n || (n == 95 || n == 45)))

unfoldable pub all_name_chars : String → Bool
all_name_chars String.[] = true
all_name_chars (String.◌∷◌ c s) = is_name_code (code c) && all_name_chars s

-- `/^[a-zA-Z0-9_-]+$/`.
unfoldable pub is_name : String → Bool
unfolding all_name_chars
is_name String.[] = false
is_name (String.◌∷◌ c s) = is_name_code (code c) && all_name_chars s

-- `@IsOptional() @IsInt() @Min(low) @Max(high)`.
abbrev pub optional_between : ℕ → ℕ → Option ℕ → Bool
optional_between low high none = true
optional_between low high (some n) = between low high n

abbrev pub is_valid : RegisterFunctionDto → Bool
is_valid dto =
    is_name dto.name
    && (optional_between 64 3008 dto.memory_mb && optional_between 100 60000 dto.timeout_ms)

-- `POST /functions`: a body that is not valid is a 400, before the handler.
pub register_endpoint : Prisma → ℕ → RegisterFunctionDto → Action Database FunctionRecord
unfolding register
register_endpoint P user_id dto =
    if is_valid dto then register P user_id dto else throw (bad_request "Bad Request Exception")

-- A function that the platform is ready to run.
abbrev pub IsWithinLimits : FunctionRecord → Type 0
IsWithinLimits f =
    (is_name f.name ≡ true)
    × (64 ≤ f.memory_mb)
    × (f.memory_mb ≤ 3008)
    × (100 ≤ f.timeout_ms)
    × (f.timeout_ms ≤ 60000)

optional_default :
    (low high default : ℕ) (o : Option ℕ)
    → optional_between low high o ≡ true
    → low ≤ default
    → default ≤ high
    → (low ≤ or_else o default) × (or_else o default ≤ high)
optional_default low high default none h below above = (below, above)
optional_default low high default (some n) h below above = (ground arith, ground arith)

All-append :
    {A : Type 0} (Q : A → Type 0) (xs : List A) (x : A) → All Q xs → Q x → All Q (xs ++ x ∷ [])
All-append Q [] x a q = (q, tt)
All-append Q (y ∷ xs) x (h, a) q = (h, All-append Q xs x a q)

valid-IsWithinLimits :
    (user_id id now : ℕ) (dto : RegisterFunctionDto)
    → is_valid dto ≡ true
    → IsWithinLimits (
        new_function user_id dto.name
          (or_else dto.memory_mb 128)
          (or_else dto.timeout_ms 3000)
          id
          now)
valid-IsWithinLimits user_id id now dto valid =
    let named : is_name dto.name ≡ true = ground arith in
    let memory : optional_between 64 3008 dto.memory_mb ≡ true = ground arith in
    let time : optional_between 100 60000 dto.timeout_ms ≡ true = ground arith in
    let (m₁, m₂) = optional_default 64 3008 128 dto.memory_mb memory (omega arith) (omega arith) in
    let (t₁, t₂) =
      optional_default 100 60000 3000 dto.timeout_ms time (omega arith) (omega arith) in
    (named, m₁, m₂, t₁, t₂)

-- The route of registration keeps every function of the table within the platform's limits, a name of
-- letters, digits, hyphens and underscores, 64 to 3008 MB and 100 to 60000 ms, whatever the body asks
-- for, the defaults included.
pub register_endpoint-IsWithinLimits :
    (P : Prisma)
    → IsPrisma P
    → (user_id : ℕ) (dto : RegisterFunctionDto) (db : Database) → All IsWithinLimits db.functions
    → All IsWithinLimits (register_endpoint P user_id dto db).1.functions
unfolding register_endpoint
register_endpoint-IsWithinLimits P real user_id dto db limits = elim (Bool-cases (is_valid dto)) [
  | inl valid ↦ rw valid (go (register P user_id dto db) refl valid)
  | inr invalid ↦ rw invalid limits
]
  where
    go :
        (r : Result FunctionRecord × Database)
        → register P user_id dto db ≡ r
        → is_valid dto ≡ true
        → All IsWithinLimits r.1.functions
    go (ok f, db') e valid =
        let (now, made, _, _, rows) = register-eq-ok P real user_id dto db db' f e in
        rw rows (
          All-append IsWithinLimits db.functions f limits
            (subst IsWithinLimits (sym made) (valid-IsWithinLimits user_id f.id now dto valid)))
    go (err x, db') e valid = rw (register-eq-err P real user_id dto db db' x e) limits
