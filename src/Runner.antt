-- ===== src/Runner.antt =====
-- run.ts and run-container.ts: the command lines that run one function, and exit.
use mini_serverless_cloud_pl.Base.{
  if◌then◌else◌, Bool-cases, ℕ, String, ◌≡◌, refl, ap, ◌∙◌, ◌⊎◌, inl, inr, false, Option, none,
  some, List, ◌∷◌, str_eq, eq_iff,
}

-- How the process ends: by `process.exit` with a message on the error output, or with the outcome printed.
pub data Exit (R : Type 0) : Type 0 where
  exits : ℕ → String → Exit R
  prints : R → Exit R

-- `const [, , functionPath, eventArg] = process.argv`.
abbrev pub function_path : List String → Option String
function_path (node ∷ script ∷ path ∷ rest) = some path
function_path _ = none

abbrev pub event_arg : List String → Option String
event_arg (node ∷ script ∷ path ∷ event ∷ rest) = some event
event_arg _ = none

module _ {V R : Type 0} (parse : String → Option V) (empty : V) (usage : String)
    (execute : String → V → R) where
  executed : String → Option V → Exit R
  executed path none = exits 1 "Event argument must be valid JSON"
  executed path (some event) = prints (execute path event)

  -- An empty argument is falsy, as a missing one.
  with_event : String → Option String → Exit R
  unfolding executed
  with_event path none = executed path (some empty)
  with_event path (some text) =
      if str_eq text "" then executed path (some empty) else executed path (parse text)

  with_path : Option String → Option String → Exit R
  unfolding with_event
  with_path none event = exits 1 usage
  with_path (some path) event = if str_eq path "" then exits 1 usage else with_event path event

  pub main : List String → Exit R
  unfolding with_path
  main argv = with_path (function_path argv) (event_arg argv)

  -- The arguments are valid: a path, and an event that parses, if one is given.
  pub data IsValid (argv : List String) (path : String) (event : V) : Type 0 where
    default_event :
        function_path argv ≡ some path
        → str_eq path "" ≡ false
        → (event_arg argv ≡ none) ⊎ (event_arg argv ≡ some "")
        → event ≡ empty
        → IsValid argv path event
    given_event :
        (text : String)
        → function_path argv ≡ some path
        → str_eq path "" ≡ false
        → event_arg argv ≡ some text
        → str_eq text "" ≡ false
        → parse text ≡ some event
        → IsValid argv path event

  -- A command line either runs one function, at the path that it names and with the event that it
  -- gives, `{}` without one, and prints what the executor answers; or it exits with 1 and runs none.
  pub main-IsValid :
      (argv : List String)
      → ((path : String) × (event : V) × IsValid argv path event
          × (main argv ≡ prints (execute path event)))
        ⊎ ((message : String) × (main argv ≡ exits 1 message))
  unfolding main with_path with_event executed
  main-IsValid argv = paths (function_path argv) refl
    where
      Runs : Exit R → Type 0
      Runs r =
          ((path : String) × (event : V) × IsValid argv path event
            × (r ≡ prints (execute path event)))
          ⊎ ((message : String) × (r ≡ exits 1 message))

      parsed :
          (path text : String)
          → function_path argv ≡ some path
          → str_eq path "" ≡ false
          → event_arg argv ≡ some text
          → str_eq text "" ≡ false
          → (v : Option V) → parse text ≡ v
          → Runs (executed path v)
      parsed path text p full e given none q = inr (_, refl)
      parsed path text p full e given (some event) q =
          inl (path, event, IsValid.given_event text p full e given q, refl)

      events :
          (path : String)
          → function_path argv ≡ some path
          → str_eq path "" ≡ false
          → (o : Option String) → event_arg argv ≡ o
          → Runs (with_event path o)
      events path p full none e = inl (path, empty, IsValid.default_event p full (inl e) refl, refl)
      events path p full (some text) e = elim (Bool-cases (str_eq text "")) [
        | inl none_given ↦ rw none_given (
            inl (
              path,
              empty,
              IsValid.default_event p full (inr (e ∙ ap some ((eq_iff text "").0 none_given))) refl,
              refl,
            ))
        | inr given ↦ rw given (parsed path text p full e given (parse text) refl)
      ]

      paths : (o : Option String) → function_path argv ≡ o → Runs (with_path o (event_arg argv))
      paths none p = inr (_, refl)
      paths (some path) p = elim (Bool-cases (str_eq path "")) [
        | inl no_path ↦ rw no_path (inr (_, refl))
        | inr full ↦ rw full (events path p full (event_arg argv) refl)
      ]

-- `npm start` runs a function in this process, `npm run start:container` in a container.
pub run : {V R : Type 0} → (String → Option V) → V → (String → V → R) → List String → Exit R
unfolding main
run parse empty = main parse empty "Usage: npm start -- <path-to-function.js> [eventJson]"

pub run_container :
    {V R : Type 0} → (String → Option V) → V → (String → V → R) → List String → Exit R
unfolding main
run_container parse empty =
    main parse empty "Usage: npm run start:container -- <path-to-function.js> [eventJson]"
