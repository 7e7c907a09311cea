-- ===== src/Tests/Stores.antt =====
-- The Collection protocol on the artifact registry (internal/artifact/registry.go), at the files of the
-- tests.
use r.Prelude.{◌≡◌, inr, String, some, List, [], ◌∷◌}
use r.Prelude.Int.{pos}
use r.Artifact.{Record, Error}
use r.Artifact.Calls.{new-IsValid}
use r.Artifact.Lookup.{records}
use r.Artifact.Stored.{Stored, store, run-records}
use r.Collection.Protocol.{Context, RegisterArgs, new_context}
use r.Collection.Protocol.Runs
use r.Tests.Fixtures.{inputs}
use r.Tests.Host.{host, files, empty_session}

abbrev message : Error → String
message e = "error"

abbrev page : RegisterArgs
page = record {
  path = "a.md";
  source_tool_call_id = "";
  source = "https://a.b";
  description = "a page";
}

abbrev calls : List Runs.Call
calls = Runs.plan_call inputs ∷ Runs.register_call page ∷ []

abbrev start : Context (Stored host)
start =
    new_context "/w" (pos 2) (some (pos 3))
      (record { session = empty_session; valid = new-IsValid files 0 })

run-records_example :
    let c = Runs.run (store host message) start calls in
    (items : List Record) × (records c.evidence c.artifacts.session.registry ≡ inr items)
run-records_example =
    run-records host message empty_session (new-IsValid files 0) "/w" (pos 2) (some (pos 3)) calls
