-- ===== src/Build/Overlap.antt =====
-- The numbers of the versions over the runs of builds, and runs that overlap: a plan that was made
-- before another run took its version number.
use mini_serverless_cloud_pl.Base.{
  Bool-cases, All, any, any-append, Result, ℕ, ◌+◌, ◌≤◌, ◌≡◌, refl, ◌⊎◌, inl, inr, Bool, true,
  false, List, [], ◌∷◌, ◌++◌, arith,
}
use mini_serverless_cloud_pl.Schema.{is_version, FunctionVersion, Build, Database}
use mini_serverless_cloud_pl.Prisma.{new_version, Prisma, IsPrisma}
use mini_serverless_cloud_pl.Build.{BuildExecutor, run_build}
use mini_serverless_cloud_pl.Build.Runs.{run_build-Ran, Ran}

-- A version is the first of its function, or the one that comes after another that is there.
abbrev pub Follows : List FunctionVersion → FunctionVersion → Type 0
Follows all v =
    (v.version_number ≡ 1)
    ⊎ ((m : ℕ) × (1 ≤ m)
        × (v.version_number ≡ m + 1)
        × (any (is_version v.function_id m) all ≡ true))

abbrev pub Consecutive : List FunctionVersion → List FunctionVersion → Type 0
Consecutive all = All (Follows all)

-- No two versions of a function have the same number.
abbrev pub Distinct : List FunctionVersion → Type 0
Distinct [] = Unit
Distinct (v ∷ vs) = (any (is_version v.function_id v.version_number) vs ≡ false) × Distinct vs

abbrev pub IsNumbered : List FunctionVersion → Type 0
IsNumbered vs = Consecutive vs vs × Distinct vs

any_of_append :
    (p : FunctionVersion → Bool) (xs ys : List FunctionVersion)
    → any p xs ≡ true
    → any p (xs ++ ys) ≡ true
any_of_append p xs ys h = rw (any-append p xs ys, h)

Follows-append :
    (all : List FunctionVersion) (v w : FunctionVersion) → Follows all v → Follows (all ++ w ∷ []) v
Follows-append all v w (inl first) = inl first
Follows-append all v w (inr (m, positive, is, there)) =
    inr (m, positive, is, any_of_append _ all (w ∷ []) there)

Consecutive-append :
    (all vs : List FunctionVersion) (w : FunctionVersion)
    → Consecutive all vs
    → Follows all w
    → Consecutive (all ++ w ∷ []) (vs ++ w ∷ [])
Consecutive-append all [] w c new = (Follows-append all w w new, tt)
Consecutive-append all (v ∷ vs) w (old, c) new =
    (Follows-append all v w old, Consecutive-append all vs w c new)

-- A number that is taken is at least 1.
one_le_of_taken :
    (all vs : List FunctionVersion) (function_id m : ℕ)
    → Consecutive all vs
    → any (is_version function_id m) vs ≡ true
    → 1 ≤ m
one_le_of_taken all [] function_id m c taken = absurd (cc)
one_le_of_taken all (v ∷ vs) function_id m (inl first, c) taken =
    elim (Bool-cases (is_version function_id m v)) [
      | inl this ↦ ground arith
      | inr miss ↦ one_le_of_taken all vs function_id m c (ground arith)
    ]
one_le_of_taken all (v ∷ vs) function_id m (inr (k, positive, is, there), c) taken =
    elim (Bool-cases (is_version function_id m v)) [
      | inl this ↦ ground arith
      | inr miss ↦ one_le_of_taken all vs function_id m c (ground arith)
    ]

Follows-next :
    (vs : List FunctionVersion) (w : FunctionVersion)
    → Consecutive vs vs
    → (w.version_number ≡ 1)
      ⊎ ((m : ℕ) × (w.version_number ≡ m + 1) × (any (is_version w.function_id m) vs ≡ true))
    → Follows vs w
Follows-next vs w c (inl first) = inl first
Follows-next vs w c (inr (m, is, there)) =
    inr (m, one_le_of_taken vs vs w.function_id m c there, is, there)

Distinct-append :
    (vs : List FunctionVersion) (w : FunctionVersion)
    → Distinct vs
    → any (is_version w.function_id w.version_number) vs ≡ false
    → Distinct (vs ++ w ∷ [])
Distinct-append [] w d free = (refl, tt)
Distinct-append (v ∷ vs) w (new, d) free = (
  rw (any-append (is_version v.function_id v.version_number) vs (w ∷ []), new) (ground arith),
  Distinct-append vs w d (ground arith),
)

module _ (P : Prisma) (build : BuildExecutor) (now : ℕ) (b : Build) (db : Database) where
  -- A run of a build, however it ends, keeps the versions of each function numbered 1, 2, 3, … with
  -- no gap and no number twice.
  pub run_build-IsNumbered :
      IsPrisma P → IsNumbered db.versions → IsNumbered (run_build P build now b db).1.versions
  run_build-IsNumbered real numbered = go (run_build-Ran P build now b db real)
    where
      go : {r : Result (Unit {0}) × Database} → Ran P build now b db r → IsNumbered r.1.versions
      go (Ran.made f n image_ref id created_at found (_, next) built free there e) = rw e (
        Consecutive-append db.versions db.versions
            (new_version b.function_id n image_ref id created_at) numbered.0
            (Follows-next db.versions (new_version b.function_id n image_ref id created_at)
              numbered.0 next),
        Distinct-append db.versions (new_version b.function_id n image_ref id created_at) numbered.1
            free,
      )
      go (Ran.marked_failed m there e) = rw e numbered
      go (Ran.thrown x m fails said e) = rw e numbered
