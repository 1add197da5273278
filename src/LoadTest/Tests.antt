-- ===== src/LoadTest/Tests.antt =====
-- A setup whose build succeeds at the second poll.
use mini_serverless_cloud_pl.Base.{length, ok, ℕ, zero, suc, ◌+◌, ◌≡◌, ◌↔◌, [], ◌∷◌}
use mini_serverless_cloud_pl.LoadTest.{setup, Platform}
use mini_serverless_cloud_pl.LoadTest.Polling.{status_before, StopsAt, setup-StopsAt}

abbrev platform : Platform
platform = record {
  statuses = 201 ∷ 200 ∷ 201 ∷ 201 ∷ [];
  access_token = "eyJ";
  build_id = "1";
  build_status = λ i. elim i [ zero ↦ "PENDING" | suc k ↦ "SUCCESS" ];
  invoked = (200, "smoke test ok");
}

setup-StopsAt_example :
    (n : ℕ) × StopsAt platform "loadtest-fn" 0 n
    × (length (setup platform "loadtest-fn").1 ≡ 4 + n)
    × (((setup platform "loadtest-fn").0 ≡ ok "eyJ")
        ↔ (status_before platform "loadtest-fn" n ≡ "SUCCESS"))
setup-StopsAt_example = setup-StopsAt platform "loadtest-fn"
