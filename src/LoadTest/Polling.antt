-- ===== src/LoadTest/Polling.antt =====
-- The polling loop ends, and the setup succeeds exactly when a build succeeds in time.
use mini_serverless_cloud_pl.Base.{
  ◌==◌, ==_iff, Bool-cases, ne_of_str_eq, length, ok, ℕ, zero, suc, ◌+◌, ◌≤◌, ◌<◌, String, ◌≡◌,
  refl, ap, ◌↔◌, ◌⊎◌, inl, inr, true, false, arith, str_eq, eq_iff,
}
use mini_serverless_cloud_pl.LoadTest.{
  max_polls, is_final, poll_request, poll, await_build, deploy, setup, Platform, Sent, repeated,
  decided,
}

module _ (p : Platform) (name : String) where
  -- The status that the poll before number `i` has read.
  pub status_before : ℕ → String
  status_before zero = "PENDING"
  status_before (suc i) = p.build_status i

  -- The loop has stopped before a poll: at a final status, or when no round is left; all the statuses
  -- before were not final.
  pub StopsAt : ℕ → ℕ → Type 0
  StopsAt first n =
      ((is_final (status_before n) ≡ true) ⊎ (n ≡ max_polls))
      × (first ≤ n)
      × (n ≤ max_polls)
      × ((i : ℕ) → first ≤ i → i < n → is_final (status_before i) ≡ false)

  -- A loop that did not stop before its first poll.
  earlier : (i n : ℕ) → is_final (status_before i) ≡ false → StopsAt (suc i) n → StopsAt i n
  unfolding StopsAt
  earlier i n miss (stop, first, bound, before) = (
    stop,
    omega arith,
    bound,
    (λ j h k. elim (Bool-cases (j == i)) [
      | inl same ↦ rw ((==_iff j i).0 same) miss
      | inr other ↦ before j (ground arith) k
    ]),
  )

  poll-StopsAt :
      (left i : ℕ)
      → i + left ≡ max_polls
      → StopsAt i (poll p name left i (status_before i)).0
        × ((poll p name left i (status_before i)).1
            ≡ status_before (poll p name left i (status_before i)).0)
  unfolding poll StopsAt status_before
  poll-StopsAt zero i e =
      ((inr (omega arith), omega arith, omega arith, (λ j h k. absurd (omega arith))), refl)
  poll-StopsAt (suc left) i e = elim (Bool-cases (is_final (status_before i))) [
    | inl hit ↦ rw hit ((inl hit, omega arith, omega arith, (λ j h k. absurd (omega arith))), refl)
    | inr miss ↦
        let (stops, shown) = poll-StopsAt left (suc i) (omega arith) in
        rw miss (earlier i _ miss stops, shown)
  ]

  length-repeated : (n : ℕ) (request : Sent) → length (repeated p name n request) ≡ n
  unfolding repeated
  length-repeated zero request = refl
  length-repeated (suc n) request = ap suc (length-repeated n request)

  -- The setup of the load test ends, after four requests and at most 40 polls: it polls until the
  -- build is `SUCCESS` or `FAILED`, no longer, and gives the token to the virtual users exactly when
  -- the last status that it has read is `SUCCESS`.
  pub setup-StopsAt :
      (n : ℕ) × StopsAt 0 n
      × (length (setup p name).1 ≡ 4 + n)
      × (((setup p name).0 ≡ ok p.access_token) ↔ (status_before n ≡ "SUCCESS"))
  unfolding setup decided await_build deploy status_before
  setup-StopsAt =
      let (stops, shown) = poll-StopsAt max_polls 0 refl in
      (
        (await_build p name).0,
        stops,
        omega (arith, length-repeated (await_build p name).0 (poll_request p name)),
        rw (← shown) (answered (await_build p name)),
      )
    where
      answered : (r : ℕ × String) → ((decided p name r).0 ≡ ok p.access_token) ↔ (r.1 ≡ "SUCCESS")
      answered (polls, status) = elim (Bool-cases (str_eq status "SUCCESS")) [
        | inl hit ↦ rw hit ((λ e. (eq_iff status "SUCCESS").0 hit), (λ e. refl))
        | inr miss ↦ rw miss ((λ e. absurd (cc)), (λ e. absurd (ne_of_str_eq miss e)))
      ]
