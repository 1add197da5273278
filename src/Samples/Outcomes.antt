-- ===== src/Samples/Outcomes.antt =====
-- An outcome as a text: its status, the sign and the size of its duration, and its result or error.
use mini_serverless_cloud_pl.Base.{
  ℤ, pos, negsuc, ℕ, zero, suc, String, ◌≡◌, refl, ap, ◌∙◌, Option, none, some,
}
use mini_serverless_cloud_pl.Execution.{ExecutionOutcome, success, error, timeout}
use mini_serverless_cloud_pl.Samples.{unary, count_unary, count_unary-unary}

abbrev sign : ℤ → ℕ
sign (pos n) = 0
sign (negsuc n) = 1

abbrev size : ℤ → ℕ
size (pos n) = n
size (negsuc n) = n

abbrev signed : ℕ → ℕ → ℤ
signed zero n = pos n
signed (suc k) n = negsuc n

abbrev made : ℕ → ℤ → String → ExecutionOutcome String
made zero d s = success s d
made (suc zero) d s = error s d
made (suc (suc k)) d s = timeout d

abbrev written : ℕ → ℤ → String → String
written tag d s = unary tag (unary (sign d) (unary (size d) s))

abbrev pub write_outcome : ExecutionOutcome String → String
write_outcome (success v d) = written 0 d v
write_outcome (error m d) = written 1 d m
write_outcome (timeout d) = written 2 d ""

abbrev read_size : ℕ → ℕ → Option (ℕ × String) → Option (ExecutionOutcome String)
read_size tag sign none = none
read_size tag sign (some (n, s)) = some (made tag (signed sign n) s)

abbrev read_sign : ℕ → Option (ℕ × String) → Option (ExecutionOutcome String)
read_sign tag none = none
read_sign tag (some (sign, s)) = read_size tag sign (count_unary s)

abbrev read_tag : Option (ℕ × String) → Option (ExecutionOutcome String)
read_tag none = none
read_tag (some (tag, s)) = read_sign tag (count_unary s)

abbrev pub read_outcome : String → Option (ExecutionOutcome String)
read_outcome s = read_tag (count_unary s)

signed-size : (d : ℤ) → signed (sign d) (size d) ≡ d
signed-size (pos n) = refl
signed-size (negsuc n) = refl

read-written : (tag : ℕ) (d : ℤ) (s : String) → read_outcome (written tag d s) ≡ some (made tag d s)
read-written tag d s =
    ap read_tag (count_unary-unary tag _)
    ∙ ap (read_sign tag) (count_unary-unary (sign d) _)
    ∙ ap (read_size tag (sign d)) (count_unary-unary (size d) s)
    ∙ ap (λ k. some (made tag k s)) (signed-size d)

pub read_outcome-write_outcome :
    (o : ExecutionOutcome String) → read_outcome (write_outcome o) ≡ some o
read_outcome-write_outcome (success v d) = read-written 0 d v
read_outcome-write_outcome (error m d) = read-written 1 d m
read_outcome-write_outcome (timeout d) = read-written 2 d ""
