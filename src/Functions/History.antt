-- ===== src/Functions/History.antt =====
-- Histories of requests: isolation of the accounts, and unique names.
use mini_serverless_cloud_pl.Base.{
  ◌==◌, All, any, keep-append, Result, ok, err, ℕ, String, ◌≡◌, refl, sym, ap, ◌∙◌, ◌≢◌, inl, inr,
  false, List, [], ◌∷◌, ◌++◌, append-nil, arith,
}
use mini_serverless_cloud_pl.Schema.{is_named, FunctionRecord, Database}
use mini_serverless_cloud_pl.Prisma.{without, Prisma, IsPrisma}
use mini_serverless_cloud_pl.Functions.{register, remove, invoke, RegisterFunctionDto, Surroundings}
use mini_serverless_cloud_pl.Functions.Tenancy.{owned, keep-without, register-eq-ok}
use mini_serverless_cloud_pl.Functions.Accounts.{
  IsUnique, IsUnique-append, IsUnique-without, delete_named-functions, remove-eq-ok,
  register-eq-err, remove-eq-err,
}
use mini_serverless_cloud_pl.Functions.Recording.{invoke_appends}

-- A request of an account that may change the database.
pub data Request (V : Type 0) : Type 0 where
  registers : RegisterFunctionDto → Request V
  removes : String → Request V
  invokes : Surroundings V → String → V → Request V

-- What a request can do to the table of functions.
data Changes (user_id : ℕ) (fs fs' : List FunctionRecord) : Type 0 where
  same : fs' ≡ fs → Changes user_id fs fs'
  added :
      (f : FunctionRecord)
      → f.user_id ≡ user_id
      → any (λ r. r.id == f.id) fs ≡ false
      → any (is_named f.user_id f.name) fs ≡ false
      → fs' ≡ fs ++ f ∷ []
      → Changes user_id fs fs'
  dropped : (name : String) → fs' ≡ without (is_named user_id name) fs → Changes user_id fs fs'

Changes-owned :
    {user_id v : ℕ} {fs fs' : List FunctionRecord}
    → Changes user_id fs fs'
    → user_id ≢ v
    → owned v fs' ≡ owned v fs
Changes-owned (same e) n = rw e
Changes-owned {user_id} {v} {fs} (added f mine _ _ e) n =
    let other : (f.user_id == v) ≡ false = ground arith in
    rw (e, keep-append (λ f. f.user_id == v) fs (f ∷ []), other) (append-nil _)
Changes-owned {user_id} {v} {fs} (dropped name e) n =
    rw e (keep-without user_id v name fs (λ q. n (sym q)))

Changes-IsUnique :
    {user_id : ℕ} {fs fs' : List FunctionRecord}
    → Changes user_id fs fs'
    → IsUnique fs
    → IsUnique fs'
Changes-IsUnique (same e) u = rw e u
Changes-IsUnique {fs} (added f _ fresh free e) u = rw e (IsUnique-append fs f u fresh free)
Changes-IsUnique {fs} (dropped name e) u = rw e (IsUnique-without _ fs u)

module _ (P : Prisma) {V : Type 0} where
  -- The database after a request, whatever was answered.
  unfoldable pub serve : ℕ × Request V → Database → Database
  serve (user_id, registers dto) db = (register P user_id dto db).1
  serve (user_id, removes name) db = (remove P user_id name db).1
  serve (user_id, invokes s name event) db = (invoke P s user_id name event db).1

  unfoldable pub serve_all : List (ℕ × Request V) → Database → Database
  serve_all [] db = db
  serve_all (r ∷ rs) db = serve_all rs (serve r db)

  module _ (real : IsPrisma P) where
    serve-Changes :
        (user_id : ℕ) (r : Request V) (db : Database)
        → Changes user_id db.functions (serve (user_id, r) db).functions
    unfolding serve
    serve-Changes user_id (registers dto) db = go (register P user_id dto db) refl
      where
        go :
            (r : Result FunctionRecord × Database)
            → register P user_id dto db ≡ r
            → Changes user_id db.functions r.1.functions
        go (ok f, db') e =
            let (now, mine, fresh, free, stored) = register-eq-ok P real user_id dto db db' f e in
            added f (ap (λ r. r.user_id) mine) fresh
              (rw (ap (λ r. r.user_id) mine, ap (λ r. r.name) mine) free)
              (ap (λ d. d.functions) stored)
        go (err x, db') e =
            same (ap (λ d. d.functions) (register-eq-err P real user_id dto db db' x e))
    serve-Changes user_id (removes name) db = go (remove P user_id name db) refl
      where
        go :
            (r : Result (Unit {0}) × Database)
            → remove P user_id name db ≡ r
            → Changes user_id db.functions r.1.functions
        go (ok t, db') e =
            let (there, gone) = remove-eq-ok P real user_id name db db' e in
            dropped name (ap (λ d. d.functions) gone ∙ delete_named-functions user_id name db there)
        go (err x, db') e =
            same (ap (λ d. d.functions) (remove-eq-err P real user_id name db db' x e))
    serve-Changes user_id (invokes s name event) db =
        elim (invoke_appends P s user_id name event db real) [
          | inl e ↦ same (rw e)
          | inr (f, row, _, _, _, e) ↦ same (rw e)
        ]

    -- Whatever other accounts register, remove and invoke, in any order, the functions of an account
    -- stay as they are.
    pub serve_all-owned :
        (v : ℕ) (rs : List (ℕ × Request V)) (db : Database)
        → All (λ r. r.0 ≢ v) rs
        → owned v (serve_all rs db).functions ≡ owned v db.functions
    unfolding serve_all
    serve_all-owned v [] db a = refl
    serve_all-owned v ((user_id, r) ∷ rs) db (n, a) =
        serve_all-owned v rs (serve (user_id, r) db) a
        ∙ Changes-owned (serve-Changes user_id r db) n

    -- Any history of requests keeps the ids of the functions unique, and the names in each account.
    pub serve_all-IsUnique :
        (rs : List (ℕ × Request V)) (db : Database)
        → IsUnique db.functions
        → IsUnique (serve_all rs db).functions
    unfolding serve_all
    serve_all-IsUnique [] db u = u
    serve_all-IsUnique ((user_id, r) ∷ rs) db u =
        serve_all-IsUnique rs (serve (user_id, r) db)
          (Changes-IsUnique (serve-Changes user_id r db) u)
