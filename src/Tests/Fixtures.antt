-- ===== src/Tests/Fixtures.antt =====
-- Test data: workflow states, a small plan, and an artifact registry that knows evidence by its path.
use r.Prelude.{◌≡◌, String, true, false, none, some, List, [], ◌∷◌, if◌then◌else◌, arith, eq_iff}
use r.Prelude.Int.{pos}
use r.Prelude.Sets.{contains}
use r.Workflow.{State, Config, Phase}
use r.Collection.{
  InformationNeedInput, InformationNeed, NeedState, QcAssessment, AssessmentStatus, material,
  NeedDisposition, continue,
}
use r.Collection.Store.{ArtifactStore, EvidenceRecord, Registration, registered}

abbrev pub two_rounds : Config
two_rounds = record { max_collection_rounds = some (pos 2); batch_size = pos 2 }

-- A state in its first round, with two artifacts to review.
abbrev pub in_round : Phase → State
in_round p = record {
  max_collection_rounds = pos 2;
  batch_size = pos 2;
  phase = p;
  begun = true;
  collection_rounds_used = 1;
  cursor = 0;
  unreviewed_count = 2;
  checkpoint_pending = true;
  information_need_outcomes = [];
}

abbrev pub inputs : List InformationNeedInput
inputs =
    record {
      question = "When?";
      stop_conditions = record { condition = "a date" } ∷ record { condition = "a source" } ∷ [];
    }
    ∷ []

abbrev pub need : InformationNeed
need = record {
  id = "NEED-001";
  question = "When?";
  stop_conditions =
      record { id = "SC-1"; condition = "a date" }
      ∷ record { id = "SC-2"; condition = "a source" }
      ∷ [];
}

abbrev pub open_need : NeedState
open_need = record {
  need = need;
  previous_unsatisfied = [];
  assessed = false;
  stall_streak = 0;
  outcome = none;
}

abbrev pub more : QcAssessment
more = record {
  information_need_id = "NEED-001";
  status = AssessmentStatus.needs_more;
  unsatisfied_condition_ids = "SC-2" ∷ [];
  evidence_progress = material;
}

abbrev pub go_on : NeedDisposition
go_on = record { information_need_id = "NEED-001"; search_disposition = continue }

abbrev pub evidence_at : String → String → EvidenceRecord
evidence_at path description = record { id = path; path = path; description = description }

abbrev pub register_path : String → String → List String → List String × Registration
register_path path description ids =
    if contains ids path
    then (ids, registered (evidence_at path description) false)
    else (path ∷ ids, registered (evidence_at path description) true)

pub register_kept :
    (path description : String) (ids : List String) (id : String)
    → contains ids id ≡ true
    → contains (register_path path description ids).0 id ≡ true
unfolding contains
register_kept path description ids id h = ground (arith, h, eq_iff path id)

pub register_new :
    (path description : String) (ids : List String) (e : EvidenceRecord)
    → (register_path path description ids).1 ≡ registered e true
    → (contains ids e.id ≡ false) × (contains (register_path path description ids).0 e.id ≡ true)
unfolding contains
register_new path description ids e h = ground (arith, h, eq_iff path path)

abbrev pub registry : ArtifactStore
registry = record {
  Store = List String;
  has_evidence = contains;
  register_evidence = λ w path s d ids. register_path path d ids;
  register_retained_evidence = λ w tool s d ids. register_path tool d ids;
  evidence_kept = λ w path s d ids id h. register_kept path d ids id h;
  evidence_new = λ w path s d ids e h. register_new path d ids e h;
  retained_kept = λ w path s d ids id h. register_kept path d ids id h;
  retained_new = λ w path s d ids e h. register_new path d ids e h;
}
