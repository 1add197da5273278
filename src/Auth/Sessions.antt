-- ===== src/Auth/Sessions.antt =====
-- Sessions: a login, and the token that it answers.
use mini_serverless_cloud_pl.Base.{
  ltb, if◌then◌else◌, Bool-cases, template, find, strip_prefix, strip_prefix-template, resume,
  unauthorized, ok, err, ℕ, ◌+◌, ◌/◌, String, ◌≡◌, refl, sym, ap, ◌∙◌, inl, inr, Bool, true, false,
  Option, none, some, [], ◌∷◌,
}
use mini_serverless_cloud_pl.Schema.{
  has_email, functions_read, functions_write, functions_invoke, User, Database,
}
use mini_serverless_cloud_pl.Prisma.{unwrap, Finds, Answer, done, fail, Prisma, IsPrisma}
use mini_serverless_cloud_pl.Auth.{
  token_lifetime, login, authenticated, by_prefix, principal_of, bearer, authenticate,
  AuthenticatedPrincipal, Credentials, Crypto, admitted,
}

-- What `sign` makes verifies until its lifetime is over, in whole seconds, and does not look like an API
-- key: a JWT starts with `eyJ`.
abbrev pub IsSigner : Crypto → Type 0
IsSigner C =
    (lifetime issued now : ℕ) (p : AuthenticatedPrincipal)
    → (C.verify now (C.sign lifetime issued p)
        ≡ (if ltb (now / 1000) (issued / 1000 + lifetime) then some p else none))
      × (strip_prefix "mc_" (C.sign lifetime issued p) ≡ none)

-- The principal of an account that has logged in.
abbrev pub session_of : User → AuthenticatedPrincipal
session_of u = record {
  user_id = u.id;
  scopes = functions_read ∷ functions_write ∷ functions_invoke ∷ [];
}

module _ (P : Prisma) (C : Crypto) (real : IsPrisma P) where
  login-eq-ok :
      (now : ℕ) (dto : Credentials) (db db' : Database) (token : String)
      → login P C now dto db ≡ (ok token, db')
      → (u : User) × (find (has_email dto.email) db.users ≡ some u)
        × (C.bcrypt_compare dto.password u.password_hash ≡ true)
        × (token ≡ C.sign token_lifetime now (session_of u))
        × (db' ≡ db)
  unfolding login admitted
  login-eq-ok now dto db db' token e =
      go (P.user_by_email dto.email db) (real.user_finds dto.email db) e
    where
      go :
          (a : Answer (Option User))
          → Finds (has_email dto.email) db.users a
          → resume (admitted P C now dto.password) (unwrap a, db) ≡ (ok token, db')
          → (u : User) × (find (has_email dto.email) db.users ≡ some u)
            × (C.bcrypt_compare dto.password u.password_hash ≡ true)
            × (token ≡ C.sign token_lifetime now (session_of u))
            × (db' ≡ db)
      go (done none) f q = cc
      go (done (some u)) f q = elim (Bool-cases (C.bcrypt_compare dto.password u.password_hash)) [
        | inl right ↦ let q' = rw right at q in (u, sym f, right, cc, cc)
        | inr wrong ↦ cc (rw wrong at q)
      ]
      go (fail x) f q = cc

  authenticated_eq :
      (p : AuthenticatedPrincipal) (valid : Bool) (db : Database)
      → authenticated P C (if valid then some p else none) db
        ≡ (if valid then ok p else err (unauthorized "Invalid or revoked credentials"), db)
  unfolding authenticated
  authenticated_eq p true db = refl
  authenticated_eq p false db = refl

  -- Who logs in has given the password of an account with that email; the token that is answered
  -- passes the guard as that account, with every scope, for 7200 seconds (of the clock in whole
  -- seconds), and is refused from then on, given a JWT library that verifies what it signed exactly
  -- until its lifetime is over. The guard changes nothing either way.
  pub login-authenticate :
      IsSigner C
      → (dto : Credentials) (now later : ℕ) (db db' : Database) (token : String)
      → login P C now dto db ≡ (ok token, db')
      → (u : User) × (find (has_email dto.email) db.users ≡ some u)
        × (C.bcrypt_compare dto.password u.password_hash ≡ true)
        × (authenticate P C later (some (template ("Bearer " ∷ token ∷ []))) db' ≡ (
          if ltb (later / 1000) (now / 1000 + 7200)
              then ok (session_of u)
              else err (unauthorized "Invalid or revoked credentials"),
          db,
        ))
  unfolding authenticate bearer principal_of
  login-authenticate signer dto now later db db' token e =
      let (u, found, right, signed, same) = login-eq-ok now dto db db' token e in
      let (verifies, jwt) = signer token_lifetime now later (session_of u) in
      let valid = ltb (later / 1000) (now / 1000 + 7200) in
      let unprefixed : strip_prefix "mc_" token ≡ none = ap (strip_prefix "mc_") signed ∙ jwt in
      let verified : C.verify later token ≡ (if valid then some (session_of u) else none) =
        ap (C.verify later) signed ∙ verifies in
      (
        u,
        found,
        right,
        rw (strip_prefix-template "Bearer " token) (
            ap (λ o. resume (authenticated P C) (by_prefix P C later token o db')) unprefixed
            ∙ ap (λ o. authenticated P C o db') verified
            ∙ authenticated_eq (session_of u) valid db'
            ∙ ap
                (λ d. (
                  if valid
                      then ok (session_of u)
                      else err (unauthorized "Invalid or revoked credentials"),
                  d,
                ))
                same),
      )
