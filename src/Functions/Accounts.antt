-- ===== src/Functions/Accounts.antt =====
-- Removal, and what any history of requests keeps: other accounts' functions and unique names.
use mini_serverless_cloud_pl.Base.{
  ◌==◌, Bool-cases, Option-cases, any, find, any-append, find_of_any, any_of_find, Exception,
  not_found, failure, ok, err, ℕ, String, ◌≡◌, refl, ap, ◌∙◌, ◌⊎◌, inl, inr, Bool, true, false,
  none, some, List, [], ◌∷◌, ◌++◌, arith, eq_iff,
}
use mini_serverless_cloud_pl.Schema.{is_named, is_of, FunctionRecord, Database}
use mini_serverless_cloud_pl.Prisma.{
  without, delete_named, p2002, p2025, other, Answer, done, fail, Prisma, IsPrisma,
}
use mini_serverless_cloud_pl.Functions.{
  not_found_message, register, get, remove, RegisterFunctionDto, created, removed,
}
use mini_serverless_cloud_pl.Functions.Tenancy.{answer_for, get-eq}

any-without : {A : Type 0} (p : A → Bool) (xs : List A) → any p (without p xs) ≡ false
any-without p [] = refl
any-without p (x ∷ xs) = elim (Bool-cases (p x)) [
  | inl hit ↦ rw hit (any-without p xs)
  | inr miss ↦ rw miss (rw miss (any-without p xs))
]

any-without_other :
    {A : Type 0} (p q : A → Bool) (xs : List A) → any q xs ≡ false → any q (without p xs) ≡ false
any-without_other p q [] h = refl
any-without_other p q (x ∷ xs) h = elim (Bool-cases (p x)) [
  | inl hit ↦ rw hit (any-without_other p q xs (ground arith))
  | inr miss ↦ rw miss (ground (arith, any-without_other p q xs))
]

-- Ids are unique, and so are the names within an account.
abbrev pub IsUnique : List FunctionRecord → Type 0
IsUnique [] = Unit
IsUnique (f ∷ fs) =
    (any (λ g. g.id == f.id) fs ≡ false)
    × (any (is_named f.user_id f.name) fs ≡ false)
    × IsUnique fs

is_named_sym : (f g : FunctionRecord) → is_named f.user_id f.name g ≡ is_named g.user_id g.name f
is_named_sym f g = ground (arith, eq_iff f.name g.name, eq_iff g.name f.name)

any-snoc :
    {A : Type 0} (p : A → Bool) (xs : List A) (y : A)
    → any p xs ≡ false
    → p y ≡ false
    → any p (xs ++ y ∷ []) ≡ false
any-snoc p xs y h k = rw (any-append p xs (y ∷ []), h, k)

pub IsUnique-append :
    (fs : List FunctionRecord) (g : FunctionRecord)
    → IsUnique fs
    → any (λ r. r.id == g.id) fs ≡ false
    → any (is_named g.user_id g.name) fs ≡ false
    → IsUnique (fs ++ g ∷ [])
IsUnique-append [] g u i n = (refl, refl, tt)
IsUnique-append (f ∷ fs) g (fi, fn, u) i n = (
  any-snoc _ fs g fi (ground arith),
  any-snoc _ fs g fn (rw (is_named_sym f g) (ground arith)),
  IsUnique-append fs g u (ground arith) (ground arith),
)

pub IsUnique-without :
    (p : FunctionRecord → Bool) (fs : List FunctionRecord) → IsUnique fs → IsUnique (without p fs)
IsUnique-without p [] u = tt
IsUnique-without p (f ∷ fs) (fi, fn, u) = elim (Bool-cases (p f)) [
  | inl hit ↦ rw hit (IsUnique-without p fs u)
  | inr miss ↦
      rw miss (any-without_other p _ fs fi, any-without_other p _ fs fn, IsUnique-without p fs u)
]

removed_all : ℕ → String → FunctionRecord → Database → Database
removed_all user_id name f db = record db {
  functions = without (is_named user_id name) db.functions;
  versions = without (is_of f.id) db.versions;
  builds = without (λ b. b.function_id == f.id) db.builds;
  invocations = without (λ i. i.function_id == f.id) db.invocations;
}

delete_named-some :
    (user_id : ℕ) (name : String) (f : FunctionRecord) (db : Database)
    → find (is_named user_id name) db.functions ≡ some f
    → delete_named user_id name db ≡ removed_all user_id name f db
unfolding removed_all
delete_named-some user_id name f db hit = rw (hit, delete_named)

pub delete_named-functions :
    (user_id : ℕ) (name : String) (db : Database)
    → any (is_named user_id name) db.functions ≡ true
    → (delete_named user_id name db).functions ≡ without (is_named user_id name) db.functions
unfolding removed_all
delete_named-functions user_id name db h =
    elim (Option-cases (find (is_named user_id name) db.functions)) [
      | inl missing ↦ cc (any_of_find (is_named user_id name) db.functions missing)
      | inr (f, hit) ↦ ap (λ d. d.functions) (delete_named-some user_id name f db hit)
    ]

module _ (P : Prisma) (real : IsPrisma P) where
  removed-eq-ok :
      (name : String) (db : Database) {db' : Database} (a : Answer Database)
      → removed P name db a ≡ (ok tt, db')
      → a ≡ done db'
  unfolding removed
  removed-eq-ok name db (done db₁) e = ground arith
  removed-eq-ok name db (fail (p2002 m)) e = cc
  removed-eq-ok name db (fail (p2025 m)) e = cc
  removed-eq-ok name db (fail (other m)) e = cc

  pub remove-eq-ok :
      (user_id : ℕ) (name : String) (db db' : Database)
      → remove P user_id name db ≡ (ok tt, db')
      → (any (is_named user_id name) db.functions ≡ true) × (db' ≡ delete_named user_id name db)
  unfolding remove
  remove-eq-ok user_id name db db' e =
      rw (removed-eq-ok name db _ e) at (real.function_deletes user_id name db)

  -- After a removal the caller's `get` of that name answers 404 (or its query fails), and no version,
  -- build or invocation of a removed function is left.
  pub remove-get :
      (user_id : ℕ) (name : String) (db db' : Database)
      → remove P user_id name db ≡ (ok tt, db')
      → ((get P user_id name db' ≡ (err (not_found (not_found_message name)), db'))
          ⊎ ((m : String) × (get P user_id name db' ≡ (err (failure m), db'))))
        × ((f : FunctionRecord) × (find (is_named user_id name) db.functions ≡ some f)
            × (any (is_of f.id) db'.versions ≡ false)
            × (any (λ b. b.function_id == f.id) db'.builds ≡ false)
            × (any (λ i. i.function_id == f.id) db'.invocations ≡ false))
  unfolding removed_all
  remove-get user_id name db db' e =
      let (there, gone) = remove-eq-ok user_id name db db' e in
      elim (Option-cases (find (is_named user_id name) db.functions)) [
        | inl missing ↦ cc (any_of_find _ db.functions missing)
        | inr (f, hit) ↦
            let left : db' ≡ removed_all user_id name f db =
              gone ∙ delete_named-some user_id name f db hit in
            let none_left : find (is_named user_id name) db'.functions ≡ none = rw left (
              find_of_any (is_named user_id name) (without (is_named user_id name) db.functions)
                (any-without (is_named user_id name) db.functions)) in
            (
              rw (none_left, answer_for) at (get-eq P real user_id name db'),
              (
                f,
                hit,
                rw left (any-without (is_of f.id) db.versions),
                rw left (any-without (λ b. b.function_id == f.id) db.builds),
                rw left (any-without (λ i. i.function_id == f.id) db.invocations),
              ),
            )
      ]

  created-eq-err :
      (name : String) (db : Database) {db' : Database} {x : Exception}
      (a : Answer (FunctionRecord × Database))
      → created P name db a ≡ (err x, db')
      → db' ≡ db
  unfolding created
  created-eq-err name db (done (row, db₁)) e = cc
  created-eq-err name db (fail (p2002 m)) e = cc
  created-eq-err name db (fail (p2025 m)) e = cc
  created-eq-err name db (fail (other m)) e = cc

  removed-eq-err :
      (name : String) (db : Database) {db' : Database} {x : Exception} (a : Answer Database)
      → removed P name db a ≡ (err x, db')
      → db' ≡ db
  unfolding removed
  removed-eq-err name db (done db₁) e = cc
  removed-eq-err name db (fail (p2002 m)) e = cc
  removed-eq-err name db (fail (p2025 m)) e = cc
  removed-eq-err name db (fail (other m)) e = cc

  -- A request that throws changes nothing.
  pub register-eq-err :
      (user_id : ℕ) (dto : RegisterFunctionDto) (db db' : Database) (x : Exception)
      → register P user_id dto db ≡ (err x, db')
      → db' ≡ db
  unfolding register
  register-eq-err user_id dto db db' x e = created-eq-err dto.name db _ e

  pub remove-eq-err :
      (user_id : ℕ) (name : String) (db db' : Database) (x : Exception)
      → remove P user_id name db ≡ (err x, db')
      → db' ≡ db
  unfolding remove
  remove-eq-err user_id name db db' x e = removed-eq-err name db _ e
