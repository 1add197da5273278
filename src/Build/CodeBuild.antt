-- ===== src/Build/CodeBuild.antt =====
-- What an answer of the CodeBuild executor says of the polls before it.
use mini_serverless_cloud_pl.Base.{
  Bool-cases, template, show, Result, ok, err, ℕ, zero, suc, ◌+◌, ◌<◌, String, ◌≡◌, refl, ap, ◌∙◌,
  ◌⊎◌, inl, inr, ◌||◌, Option, none, some, [], ◌∷◌, arith, str_eq, eq_iff,
}
use mini_serverless_cloud_pl.Build.{BuildExecutorParams}
use mini_serverless_cloud_pl.Build.Executors.{
  max_poll_attempts, BuildEntry, is_set, tag_for, poll_result, poll, await_build, code_build,
  missing_settings, configured, code_build_executor, Settings, StartBuild, CodeBuildClient,
}

-- A poll that finds a build in progress: no build, a build without a status, or one with that status.
abbrev pub IsInProgress : BuildEntry → Type 0
IsInProgress entry =
    (entry ≡ none)
    ⊎ ((entry ≡ some none) ⊎ ((entry ≡ some (some "")) ⊎ (entry ≡ some (some "IN_PROGRESS"))))

-- The polls before an attempt found the build in progress, and that attempt found it `SUCCEEDED`.
abbrev pub SucceedsAt : CodeBuildClient → String → ℕ → ℕ → Type 0
SucceedsAt client build_id zero attempt =
    client.poll_build build_id attempt ≡ ok (some (some "SUCCEEDED"))
SucceedsAt client build_id (suc n) attempt =
    ((entry : BuildEntry) × (client.poll_build build_id attempt ≡ ok entry) × IsInProgress entry)
    × SucceedsAt client build_id n (attempt + 1)

is_set-eq-some : (o : Option String) (s : String) → is_set o ≡ some s → o ≡ some s
unfolding is_set
is_set-eq-some none s e = cc
is_set-eq-some (some t) s e = elim (Bool-cases (str_eq t "")) [
  | inl empty ↦ cc (rw empty at e)
  | inr there ↦ rw there at e
]

poll_result-eq-none :
    (build_id image_ref : String) (entry : BuildEntry)
    → poll_result build_id image_ref entry ≡ none
    → IsInProgress entry
unfolding poll_result
poll_result-eq-none build_id image_ref none e = inl refl
poll_result-eq-none build_id image_ref (some none) e = inr (inl refl)
poll_result-eq-none build_id image_ref (some (some status)) e =
    elim (Bool-cases (str_eq status "SUCCEEDED")) [
      | inl hit ↦ cc (rw hit at e)
      | inr miss ↦
          let e' = rw miss at e in
          elim (Bool-cases (str_eq status "")) [
            | inl empty ↦ inr (inr (inl (ap (λ s. some (some s)) ((eq_iff status "").0 empty))))
            | inr there ↦
                let e'' = rw there at e' in
                elim (Bool-cases (str_eq status "IN_PROGRESS")) [
                  | inl running ↦ inr (
                      inr (inr (ap (λ s. some (some s)) ((eq_iff status "IN_PROGRESS").0 running))))
                  | inr ended ↦ cc (rw ended at e'')
                ]
          ]
    ]

poll_result-eq-ok :
    (build_id image_ref : String) (entry : BuildEntry) (image : String)
    → poll_result build_id image_ref entry ≡ some (ok image)
    → (entry ≡ some (some "SUCCEEDED")) × (image ≡ image_ref)
unfolding poll_result
poll_result-eq-ok build_id image_ref none image e = cc
poll_result-eq-ok build_id image_ref (some none) image e = cc
poll_result-eq-ok build_id image_ref (some (some status)) image e =
    elim (Bool-cases (str_eq status "SUCCEEDED")) [
      | inl hit ↦
          let e' = rw hit at e in (ap (λ s. some (some s)) ((eq_iff status "SUCCEEDED").0 hit), cc)
      | inr miss ↦
          let e' = rw miss at e in
          elim (Bool-cases (str_eq status "" || str_eq status "IN_PROGRESS")) [
            | inl running ↦ cc (rw running at e')
            | inr ended ↦ cc (rw ended at e')
          ]
    ]

poll-eq-ok :
    (client : CodeBuildClient) (build_id image_ref : String) (left attempt : ℕ) (image : String)
    → poll client build_id image_ref left attempt ≡ ok image
    → (image ≡ image_ref) × ((n : ℕ) × (n < left) × SucceedsAt client build_id n attempt)
unfolding poll
poll-eq-ok client build_id image_ref zero attempt image e = cc
poll-eq-ok client build_id image_ref (suc left) attempt image e =
    go (poll-eq-ok client build_id image_ref left (attempt + 1) image)
      (client.poll_build build_id attempt) refl e
  where
    Succeeds : Type 0
    Succeeds =
        (image ≡ image_ref) × ((n : ℕ) × (n < suc left) × SucceedsAt client build_id n attempt)

    Later : Type 0
    Later =
        poll client build_id image_ref left (attempt + 1) ≡ ok image
        → (image ≡ image_ref) × ((n : ℕ) × (n < left) × SucceedsAt client build_id n (attempt + 1))

    decided :
        Later
        → (entry : BuildEntry) (o : Option (Result String))
        → client.poll_build build_id attempt ≡ ok entry
        → poll_result build_id image_ref entry ≡ o
        → elim o [ some result ↦ result | none ↦ poll client build_id image_ref left (attempt + 1) ]
          ≡ ok image
        → Succeeds
    decided ih entry (some result) answered said q =
        let (ended, same) = poll_result-eq-ok build_id image_ref entry image (said ∙ ap some q) in
        (same, (0, omega arith, answered ∙ ap (λ x. ok x) ended))
    decided ih entry none answered said q =
        let (same, (n, less, later)) = ih q in
        (
          same,
          (
            suc n,
            omega arith,
            ((entry, answered, poll_result-eq-none build_id image_ref entry said), later),
          ),
        )

    go :
        Later
        → (r : Result BuildEntry) → client.poll_build build_id attempt ≡ r
        → elim r [
          | err x ↦ err x
          | ok entry ↦ elim (poll_result build_id image_ref entry) [
            | some result ↦ result
            | none ↦ poll client build_id image_ref left (attempt + 1)
          ]
        ]
          ≡ ok image
        → Succeeds
    go ih (err x) a q = cc
    go ih (ok entry) a q = decided ih entry (poll_result build_id image_ref entry) a refl q

await_build-eq-ok :
    (client : CodeBuildClient) (image_ref : String) (r : Result (Option String)) (image : String)
    → await_build client image_ref r ≡ ok image
    → (image ≡ image_ref)
      × ((build_id : String) × (r ≡ ok (some build_id))
          × ((n : ℕ) × (n < 100) × SucceedsAt client build_id n 0))
unfolding await_build
await_build-eq-ok client image_ref (err x) image e = cc
await_build-eq-ok client image_ref (ok none) image e = cc
await_build-eq-ok client image_ref (ok (some build_id)) image e =
    elim (Bool-cases (str_eq build_id "")) [
      | inl empty ↦ cc (rw empty at e)
      | inr there ↦
          let (same, ended) =
            poll-eq-ok client build_id image_ref max_poll_attempts 0 image (rw there at e) in
          (same, (build_id, refl, ended))
    ]

-- The request that starts the build of a version.
abbrev pub start_request : BuildExecutorParams → String → String → String → String → StartBuild
start_request params project bucket repo runtime = record {
  project_name = project;
  source_bucket = bucket;
  source_key = params.source_object_key;
  runtime_image_uri = runtime;
  image_uri = repo;
  image_tag = template (params.function_name ∷ "-v" ∷ show params.version_number ∷ []);
}

-- The image of a version in a repository.
abbrev pub image_in : String → BuildExecutorParams → String
image_in repo params =
    template
      (repo ∷ ":" ∷ template (params.function_name ∷ "-v" ∷ show params.version_number ∷ []) ∷ [])

-- CodeBuild's executor gives an image only when its four settings are there, a build of that project
-- was started for the source in that bucket, on that runtime image, under the tag of the function's
-- name, "-v" and the version's number, and one of at most 100 polls found it `SUCCEEDED` while those
-- before found it in progress; the image is that tag in the functions' repository of the settings.
pub code_build_executor-eq-ok :
    (settings : Settings) (client : CodeBuildClient) (params : BuildExecutorParams) (image : String)
    → code_build_executor settings client params ≡ ok image
    → (project : String) × (bucket : String) × (repo : String) × (runtime : String)
      × (settings.project_name ≡ some project)
      × (settings.bucket ≡ some bucket)
      × (settings.functions_repo_uri ≡ some repo)
      × (settings.runtime_image_uri ≡ some runtime)
      × (image ≡ image_in repo params)
      × ((build_id : String) × (client.start_build
              (start_request params project bucket repo runtime)
            ≡ ok (some build_id))
          × ((n : ℕ) × (n < 100) × SucceedsAt client build_id n 0))
unfolding code_build_executor configured code_build missing_settings tag_for
code_build_executor-eq-ok settings client params image e =
    go (is_set settings.project_name) (is_set settings.bucket) (is_set settings.functions_repo_uri)
      (is_set settings.runtime_image_uri) (is_set-eq-some settings.project_name)
      (is_set-eq-some settings.bucket) (is_set-eq-some settings.functions_repo_uri)
      (is_set-eq-some settings.runtime_image_uri) e
  where
    Built : Type 0
    Built =
        (project : String) × (bucket : String) × (repo : String) × (runtime : String)
        × (settings.project_name ≡ some project)
        × (settings.bucket ≡ some bucket)
        × (settings.functions_repo_uri ≡ some repo)
        × (settings.runtime_image_uri ≡ some runtime)
        × (image ≡ image_in repo params)
        × ((build_id : String) × (client.start_build
                (start_request params project bucket repo runtime)
              ≡ ok (some build_id))
            × ((n : ℕ) × (n < 100) × SucceedsAt client build_id n 0))

    -- A setting as it was read.
    Read : Option String → Option String → Type 0
    Read setting read = (s : String) → read ≡ some s → setting ≡ some s

    go :
        (project bucket repo runtime : Option String)
        → Read settings.project_name project
        → Read settings.bucket bucket
        → Read settings.functions_repo_uri repo
        → Read settings.runtime_image_uri runtime
        → configured client params project bucket repo runtime ≡ ok image
        → Built
    go (some project) (some bucket) (some repo) (some runtime) p b f r q =
        let (same, (build_id, started, ended)) =
          await_build-eq-ok client (image_in repo params)
            (client.start_build (start_request params project bucket repo runtime)) image q in
        (
          project,
          bucket,
          repo,
          runtime,
          p project refl,
          b bucket refl,
          f repo refl,
          r runtime refl,
          same,
          (build_id, started, ended),
        )
    go none bucket repo runtime p b f r q = cc
    go (some project) none repo runtime p b f r q = cc
    go (some project) (some bucket) none runtime p b f r q = cc
    go (some project) (some bucket) (some repo) none p b f r q = cc
