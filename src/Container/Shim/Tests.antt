-- ===== src/Container/Shim/Tests.antt =====
-- A handler that echoes its event, and outcomes as the samples write them.
use mini_serverless_cloud_pl.Base.{ℤ, pos, ok, String, ◌≡◌, refl, ap, ◌≢◌, Option, none, some}
use mini_serverless_cloud_pl.Execution.{ExecutionOutcome, success, timeout}
use mini_serverless_cloud_pl.Samples.Outcomes.{
  write_outcome, read_outcome, read_outcome-write_outcome,
}
use mini_serverless_cloud_pl.Container.{started, Shim, react, closes}
use mini_serverless_cloud_pl.Container.Shim.{
  with_duration, shim_outcome, main, IsWritten, main-react, resolves, with_handler, ShimJson, Says,
  settled, called, parsed,
}

abbrev shim_json : ShimJson String
shim_json = record { parse_event = λ s. ok s; write = λ o. some (write_outcome o) }

abbrev file_parse : Option (ExecutionOutcome String) → Option (ℤ → ExecutionOutcome String)
file_parse none = none
file_parse (some o) = some (with_duration o)

abbrev parse_file : Shim String
parse_file file = file_parse (read_outcome file)

shim_json-IsWritten : IsWritten shim_json parse_file
shim_json-IsWritten o file e =
    let same : write_outcome o ≡ file = cc in
    rw (← same) (ap file_parse (read_outcome-write_outcome o))

main-react_example :
    ((o : ExecutionOutcome String) × Says shim_json
        (ok "{}")
        (with_handler (λ event. resolves event))
        (pos 30)
        o
      × ((react parse_file
            (closes (some 0) (pos 30) (some (write_outcome (success "{}" (pos 2)))))
            started).outcome
          ≡ some o))
    × ((d : ℤ)
        → (react parse_file
            (closes (some 0) (pos 30) (some (write_outcome (success "{}" (pos 2)))))
            started).outcome
          ≢ some (timeout d))
unfolding main shim_outcome parsed called settled
main-react_example =
    main-react shim_json parse_file shim_json-IsWritten (pos 2) (pos 30) (ok "{}")
      (with_handler (λ event. resolves event)) (write_outcome (success "{}" (pos 2))) (some 0)
      started refl refl
