-- ===== src/Base/Effects.antt =====
-- Exceptions as values: what a service method throws, and stateful actions that may throw.
use Prim.Native.String.{String}

-- Nest's HTTP exceptions, each with its message, and any other `Error`.
pub data Exception : Type 0 where
  bad_request unauthorized forbidden not_found conflict service_unavailable : String → Exception
  failure : String → Exception

pub data Result {ℓ} (A : Type ℓ) : Type ℓ where
  ok : A → Result A
  err : Exception → Result A

-- An action on a state: its result, and the state that it leaves, also when it throws.
abbrev pub Action : Type 0 → Type 0 → Type 0
Action S A = S → Result A × S

abbrev pub resume : {S A B : Type 0} → (A → Action S B) → Result A × S → Result B × S
resume f (ok a, s) = f a s
resume f (err e, s) = (err e, s)

infixl 5 ◌>>=◌ ◌>>◌
abbrev pub ◌>>=◌ : {S A B : Type 0} → Action S A → (A → Action S B) → Action S B
◌>>=◌ m f s = resume f (m s)

abbrev pub ◌>>◌ : {S B : Type 0} → Action S (Unit {0}) → Action S B → Action S B
m >> k = m >>= λ _. k

abbrev pub return : {S A : Type 0} → A → Action S A
return a s = (ok a, s)

abbrev pub throw : {S A : Type 0} → Exception → Action S A
throw e s = (err e, s)

abbrev pub handle : {S A : Type 0} → (Exception → Action S A) → Result A × S → Result A × S
handle h (ok a, s) = (ok a, s)
handle h (err e, s) = h e s

-- `try { m } catch (e) { h }`.
abbrev pub try_catch : {S A : Type 0} → Action S A → (Exception → Action S A) → Action S A
try_catch m h s = handle h (m s)
