-- ===== src/Collection/Lifecycle/Stalls.antt =====
-- When a need is closed as stalled (internal/collection/tools.go, `ApplyQCAssessments`).
use r.Prelude.{◌<◌, ◌≤◌, false, ◌≡◌, ◌⊎◌, Bool, ◌&&◌, none, List, length, ltb}
use r.Collection.{stalled, no_progress, QcAssessment, NeedState, NeedDisposition}
use r.Collection.Verdict.{condition_set}
use r.Collection.Lifecycle.{is_stall, assessment_of, disposition_of}

-- The need is open, with fewer than two stalled rounds in a row behind it.
pub record IsOpen (s : NeedState) : Type 0 where
  pub no_outcome : s.outcome ≡ none
  pub streak_low : s.stall_streak < 2

-- This round stalled for the need: Collection says so of its search, the reviewer saw no progress of
-- the evidence, and this is the first review or it leaves no fewer conditions open than the last.
pub record IsStalled (ds : List NeedDisposition) (as' : List QcAssessment) (s : NeedState)
    : Type 0 where
  pub search : (disposition_of ds s.need.id).search_disposition ≡ stalled
  pub evidence : (assessment_of as' s.need.id).evidence_progress ≡ no_progress
  pub no_fewer :
      (s.assessed ≡ false)
      ⊎ (length s.previous_unsatisfied
          ≤ length (condition_set (assessment_of as' s.need.id).unsatisfied_condition_ids))

-- The test that the code makes.
abbrev tested : List NeedDisposition → List QcAssessment → NeedState → Bool
tested ds as' s =
    is_stall (disposition_of ds s.need.id).search_disposition
      (assessment_of as' s.need.id).evidence_progress
      (s.assessed
        && ltb (length (condition_set (assessment_of as' s.need.id).unsatisfied_condition_ids))
            (length s.previous_unsatisfied))
