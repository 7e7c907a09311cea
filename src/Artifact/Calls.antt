-- ===== src/Artifact/Calls.antt =====
-- Sequences of the calls that register and list the artifacts of one registry
-- (internal/artifact/registry.go); what `Restore`, `RestoreWorkspace` and `Merge` do is in Checkpoint
-- and Merge.
use r.Prelude.{ℕ, String, refl, List, [], ◌∷◌}
use r.Prelude.Sets.{contains}
use r.Prelude.Maps.{get, has}
use r.Artifact.{new_registry}
use r.Artifact.Paths.{Host}
use r.Artifact.Register.{Session, Declared, declare, retain_tool_result}
use r.Artifact.Register.Laws.{declare-Evolves, retain-Evolves}
use r.Artifact.Evidence.{register_evidence, register_retained_evidence}
use r.Artifact.Evidence.Laws.{register_evidence-Registers}
use r.Artifact.Evidence.Retained.{register_retained_evidence-Registers}
use r.Artifact.Listing.{list_directory_files}
use r.Artifact.Listing.Laws.{list-Evolves}
use r.Artifact.Invariant.{IsValid, Evolves}

-- `Declare`, `RetainToolResult`, `RegisterEvidence`, `RegisterRetainedEvidence` and
-- `ListDirectoryFiles`, with their arguments.
pub data Call : Type 0 where
  declare_call : String → Declared → Call
  retain_call : String → String → Call
  evidence_call : String → String → String → String → Call
  retained_call : String → String → String → String → Call
  list_call : String → Call

module _ {h : Host} where
  unfoldable pub call : Session h → Call → Session h
  call s (declare_call w d) = (declare w d s).0
  call s (retain_call c result) = (retain_tool_result c result s).0
  call s (evidence_call w p source d) = (register_evidence w p source d s).0
  call s (retained_call w c source d) = (register_retained_evidence w c source d s).0
  call s (list_call id) = (list_directory_files id s).0

  unfoldable pub run : Session h → List Call → Session h
  unfolding call
  run s [] = s
  run s (c ∷ cs) = run (call s c) cs

  call-Evolves : (s : Session h) (c : Call) → IsValid s → Evolves s (call s c)
  unfolding call
  call-Evolves s (declare_call w d) v = declare-Evolves s v w d
  call-Evolves s (retain_call c result) v = retain-Evolves s v c result
  call-Evolves s (evidence_call w p source d) v =
      (register_evidence-Registers s v w p source d).evolves
  call-Evolves s (retained_call w c source d) v =
      (register_retained_evidence-Registers s v w c source d).evolves
  call-Evolves s (list_call id) v = list-Evolves id s v

  -- After any calls of `Declare`, `RetainToolResult`, `RegisterEvidence`, `RegisterRetainedEvidence` and
  -- `ListDirectoryFiles` on a well-formed registry it is well-formed: each artifact stands under its own
  -- ID, the order lists each ID once, every path leads to an artifact, and no ID that is still to come
  -- is in use. All that was evidence is evidence.
  pub run-Evolves : (s : Session h) (cs : List Call) → IsValid s → Evolves s (run s cs)
  unfolding run
  run-Evolves s [] v = record { valid = v; kept = λ j k. k }
  run-Evolves s (c ∷ cs) v =
      let first = call-Evolves s c v in
      let rest = run-Evolves (call s c) cs first.valid in
      record { valid = rest.valid; kept = λ j k. rest.kept j (first.kept j k) }

  -- A new registry.
  pub new-IsValid :
      (w : h.Files) (n : ℕ)
      → IsValid {h = h} (record { registry = new_registry; files = w; issued = n })
  unfolding get has contains
  new-IsValid w n = record {
    sound = record {
      named = λ id e q. cc;
      ordered = λ id. refl;
      once = tt;
      located = λ key id q. cc;
    };
    fresh = λ m le. refl;
  }
