-- ===== src/LoadTest.antt =====
-- loadtest/smoke.js and loadtest/invoke-load.js: the scripts that drive a deployment from outside.
-- The platform behind the requests is a parameter: the statuses of the first four responses, what the
-- login and the upload answer, the status of the build at each poll, and the response to the
-- invocation.
pub mod Polling
mod Tests
use mini_serverless_cloud_pl.Base.{
  ◌==◌, if◌then◌else◌, template, failure, Result, ok, err, ℕ, zero, suc, ◌+◌, String, Bool, false,
  ◌||◌, Option, none, some, List, [], ◌∷◌, ◌++◌, str_eq,
}

pub record Platform : Type 0 where
  pub statuses : List ℕ
  pub access_token : String
  pub build_id : String
  pub build_status : ℕ → String
  pub invoked : ℕ × String

-- A request: its method, its path, and the bearer token that it presents.
pub record Sent : Type 0 where
  pub method : String
  pub path : String
  pub token : Option String

abbrev pub max_polls : ℕ
max_polls = 40

abbrev pub is_final : String → Bool
is_final status = str_eq status "SUCCESS" || str_eq status "FAILED"

module _ (p : Platform) (name : String) where
  abbrev pub post : String → Option String → Sent
  post path token = record { method = "POST"; path = path; token = token }

  abbrev pub poll_request : Sent
  poll_request = record {
    method = "GET";
    path = template ("/functions/" ∷ name ∷ "/builds/" ∷ p.build_id ∷ []);
    token = some p.access_token;
  }

  -- The `for` loop, with so many rounds left: the number of requests, and the status at its end.
  unfoldable pub poll : ℕ → ℕ → String → ℕ × String
  poll zero i status = (i, status)
  poll (suc left) i status =
      let later = poll left (suc i) (p.build_status i) in
      if is_final status then (i, status) else later

  pub await_build : ℕ × String
  unfolding poll
  await_build = poll max_polls 0 "PENDING"

  -- The requests that deploy a function: `register`, `login`, the function and its upload.
  pub deploy : List Sent
  deploy =
      post "/auth/register" none
      ∷ post "/auth/login" none
      ∷ post "/functions" (some p.access_token)
      ∷ post (template ("/functions/" ∷ name ∷ "/versions" ∷ [])) (some p.access_token)
      ∷ []

  repeated : ℕ → Sent → List Sent
  repeated zero request = []
  repeated (suc n) request = request ∷ repeated n request

  -- `setup` of the load test: the token for the virtual users, or an error.
  decided : ℕ × String → Result String × List Sent
  unfolding deploy repeated
  decided (polls, status) = (
    if str_eq status "SUCCESS"
        then ok p.access_token
        else err (
            failure
              (template ("Setup failed: build did not succeed (status: " ∷ status ∷ ")" ∷ []))),
    deploy ++ repeated polls poll_request,
  )

  pub setup : Result String × List Sent
  unfolding decided await_build
  setup = decided await_build

  invocation : Sent
  invocation = post (template ("/functions/" ∷ name ∷ "/invoke" ∷ [])) (some p.access_token)

  -- The statuses that the smoke test expects of the four requests.
  expected : List ℕ
  expected = 201 ∷ 200 ∷ 201 ∷ 201 ∷ []

  agree : List ℕ → List ℕ → List Bool
  agree [] bs = []
  agree (a ∷ wanted) [] = false ∷ agree wanted []
  agree (a ∷ wanted) (b ∷ bs) = (a == b) ∷ agree wanted bs

  -- The smoke test: its checks, of which none stops it, and its requests.
  smoked : ℕ × String → List Bool × List Sent
  unfolding deploy repeated invocation expected agree
  smoked (polls, status) = (
    agree expected p.statuses
        ++ str_eq status "SUCCESS" ∷ (p.invoked.0 == 200) ∷ str_eq p.invoked.1 "smoke test ok" ∷ [],
    deploy ++ repeated polls poll_request ++ invocation ∷ [],
  )

  pub smoke : List Bool × List Sent
  unfolding await_build smoked
  smoke = smoked await_build

-- The counters of the load test, and the number of checks that failed.
pub record Counts : Type 0 where
  pub successes : ℕ
  pub rejections : ℕ
  pub surprises : ℕ

-- One iteration of a virtual user, at the status of its response.
pub count_response : ℕ → Counts → Counts
count_response status c =
    if status == 200
    then record c { successes = c.successes + 1 }
    else if status == 503
    then record c { rejections = c.rejections + 1 }
    else record c { surprises = c.surprises + 1 }

pub count_all : List ℕ → Counts → Counts
unfolding count_response
count_all [] c = c
count_all (status ∷ statuses) c = count_all statuses (count_response status c)
