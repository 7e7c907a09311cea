-- ===== src/Workflow.antt =====
-- internal/workflow/state.go: the phases of one research workflow, its collection budget and the
-- acquisition gate. Every method runs under the state's lock, so it is one step; a method that
-- returns `error` gives the next state beside an `Option Error`.
pub mod Invariant
pub mod Traces
pub mod Progress
pub mod Snapshots
use r.Prelude.{
  ℕ, suc, ◌+◌, String, ◌≡◌, Bool, true, false, not, ◌&&◌, ◌||◌, Option, none, some, List, [], leb,
  ◌==◌, if◌then◌else◌,
}
use r.Prelude.Int.{ℤ, pos, negsuc, is_positive, is_natural, to_ℕ, reaches}

-- `unset` is the empty string of a state that has not begun; `other` is any string that names no
-- phase, which only a damaged checkpoint holds.
pub data Phase : Type 0 where
  unset collection collection_qc research final_qc complete : Phase
  other : String → Phase

pub data Event : Type 0 where
  checkpoint sufficient needs_more research_complete research_complete_without_qc : Event
  revise_research final_qc_retry pass : Event
  unknown : String → Event

pub data Error : Type 0 where
  not_begun bad_max_rounds bad_batch_size empty_checkpoint checkpoint_pending : Error
  not_begun_snapshot bad_snapshot_phase bad_snapshot_rounds over_max_rounds : Error
  bad_snapshot_cursor bad_snapshot_count : Error
  invalid_transition budget_exhausted : Phase → Event → Error

pub record Config : Type 0 where
  pub max_collection_rounds : Option ℤ
  pub batch_size : ℤ

unfoldable pub default_batch_size : ℤ
default_batch_size = pos 10

unfoldable pub default_max_collection_rounds : ℤ
default_max_collection_rounds = pos 10

-- The two settings stand beside the mutable state; `new` has filled in the defaults. The counters
-- are numbers: they start at 0, only grow, and `restore` refuses negative ones.
pub record State : Type 0 where
  pub max_collection_rounds : ℤ
  pub batch_size : ℤ
  pub phase : Phase
  pub begun : Bool
  pub collection_rounds_used : ℕ
  pub cursor : ℕ
  pub unreviewed_count : ℕ
  pub checkpoint_pending : Bool
  pub information_need_outcomes : List ℕ

pub record Snapshot : Type 0 where
  pub phase : Phase
  pub begun : Bool
  pub collection_rounds_used : ℤ
  pub cursor : ℤ
  pub unreviewed_count : ℤ
  pub checkpoint_pending : Bool
  pub information_need_outcomes : List ℕ

abbrev or_default : Option ℤ → ℤ
unfolding default_max_collection_rounds
or_default none = default_max_collection_rounds
or_default (some n) = n

abbrev batch_or_default : ℤ → ℤ
unfolding default_batch_size
batch_or_default (pos n) = if n == 0 then default_batch_size else pos n
batch_or_default (negsuc n) = negsuc n

unfoldable pub new : Config → State
unfolding default_batch_size default_max_collection_rounds
new config = record {
  max_collection_rounds = or_default config.max_collection_rounds;
  batch_size = batch_or_default config.batch_size;
  phase = unset;
  begun = false;
  collection_rounds_used = 0;
  cursor = 0;
  unreviewed_count = 0;
  checkpoint_pending = false;
  information_need_outcomes = [];
}

unfoldable pub snapshot : State → Snapshot
snapshot s = record {
  phase = s.phase;
  begun = s.begun;
  collection_rounds_used = pos s.collection_rounds_used;
  cursor = pos s.cursor;
  unreviewed_count = pos s.unreviewed_count;
  checkpoint_pending = s.checkpoint_pending;
  information_need_outcomes = s.information_need_outcomes;
}

unfoldable pub valid_phase : Phase → Bool
valid_phase collection = true
valid_phase collection_qc = true
valid_phase research = true
valid_phase final_qc = true
valid_phase complete = true
valid_phase _ = false

is_unset : Phase → Bool
is_unset unset = true
is_unset _ = false

is_zero : ℤ → Bool
is_zero (pos n) = n == 0
is_zero (negsuc _) = false

is_empty : List ℕ → Bool
is_empty [] = true
is_empty _ = false

-- The test of `Restore` on a checkpoint that has not begun: nothing in it is set.
is_blank : Snapshot → Bool
unfolding is_unset is_zero is_empty
is_blank p =
    is_unset p.phase
    && is_zero p.collection_rounds_used
    && is_zero p.cursor
    && is_zero p.unreviewed_count
    && not p.checkpoint_pending
    && is_empty p.information_need_outcomes

restore_blank : State → Snapshot → State × Option Error
unfolding is_blank
restore_blank s p =
    if is_blank p
    then (
      record s {
        phase = unset;
        begun = false;
        collection_rounds_used = 0;
        cursor = 0;
        unreviewed_count = 0;
        checkpoint_pending = false;
        information_need_outcomes = [];
      },
      none,
    )
    else (s, some not_begun_snapshot)

-- The checks of `Restore` on a checkpoint that has begun, in their order.
check_begun : State → Snapshot → Option Error
unfolding valid_phase
check_begun s p =
    if not (valid_phase p.phase)
    then some bad_snapshot_phase
    else if not (is_positive p.collection_rounds_used)
    then some bad_snapshot_rounds
    else if not (is_positive s.max_collection_rounds)
    then some bad_max_rounds
    else if not (leb (to_ℕ p.collection_rounds_used) (to_ℕ s.max_collection_rounds))
    then some over_max_rounds
    else if not (is_natural p.cursor && leb (to_ℕ p.cursor) (to_ℕ p.collection_rounds_used))
    then some bad_snapshot_cursor
    else if not (is_natural p.unreviewed_count)
    then some bad_snapshot_count
    else none

restore_begun : Option Error → State → Snapshot → State × Option Error
restore_begun (some e) s p = (s, some e)
restore_begun none s p = (
  record s {
    phase = p.phase;
    begun = true;
    collection_rounds_used = to_ℕ p.collection_rounds_used;
    cursor = to_ℕ p.cursor;
    unreviewed_count = to_ℕ p.unreviewed_count;
    checkpoint_pending = p.checkpoint_pending;
    information_need_outcomes = p.information_need_outcomes;
  },
  none,
)

unfoldable pub restore : State → Snapshot → State × Option Error
unfolding restore_blank check_begun restore_begun
restore s p = if p.begun then restore_begun (check_begun s p) s p else restore_blank s p

unfoldable pub begin : State → State × Option Error
begin s =
    if not (is_positive s.max_collection_rounds)
    then (s, some bad_max_rounds)
    else if not (is_positive s.batch_size)
    then (s, some bad_batch_size)
    else if s.begun
    then (s, none)
    else (record s { phase = collection; collection_rounds_used = 1; begun = true }, none)

-- The method `Phase`.
unfoldable pub current_phase : State → Phase
current_phase s = if s.begun then s.phase else unset

unfoldable pub collection_limit_exhausted : State → Bool
collection_limit_exhausted s = reaches s.collection_rounds_used s.max_collection_rounds

unfoldable pub register_evidence_artifact : State → State × Option Error
register_evidence_artifact s =
    if not s.begun
    then (s, some not_begun)
    else if not (is_positive s.batch_size)
    then (s, some bad_batch_size)
    else let count = s.unreviewed_count + 1 in
      (
        record s {
          unreviewed_count = count;
          checkpoint_pending = reaches count s.batch_size || s.checkpoint_pending;
        },
        none,
      )

-- The method `Checkpoint`.
unfoldable pub submit_checkpoint : State → State × Option Error
submit_checkpoint s =
    if not s.begun
    then (s, some not_begun)
    else if s.unreviewed_count == 0
    then (s, some empty_checkpoint)
    else (record s { unreviewed_count = 0; checkpoint_pending = false }, none)

unfoldable pub acquire_gate : State → Option Error
acquire_gate s =
    if not s.begun
    then some not_begun
    else if s.checkpoint_pending
    then some checkpoint_pending
    else none

-- The `switch` of `Advance`; the last clause is the return below it.
advance_from : Phase → Event → State → State × Option Error
unfolding collection_limit_exhausted
advance_from collection checkpoint s = (record s { phase = collection_qc }, none)
advance_from collection_qc sufficient s =
    (record s { phase = research; cursor = s.cursor + 1 }, none)
advance_from collection_qc needs_more s =
    if collection_limit_exhausted s
    then (s, some (budget_exhausted collection_qc needs_more))
    else (
      record s {
        phase = collection;
        collection_rounds_used = s.collection_rounds_used + 1;
        cursor = s.cursor + 1;
      },
      none,
    )
advance_from research research_complete s = (record s { phase = final_qc }, none)
advance_from research research_complete_without_qc s = (record s { phase = complete }, none)
advance_from final_qc pass s = (record s { phase = complete }, none)
advance_from final_qc final_qc_retry s = (s, none)
advance_from final_qc revise_research s = (record s { phase = research }, none)
advance_from p e s = (s, some (invalid_transition p e))

unfoldable pub advance : State → Event → State × Option Error
unfolding advance_from
advance s e = if not s.begun then (s, some not_begun) else advance_from s.phase e s

unfoldable pub set_information_need_outcomes : State → List ℕ → State
set_information_need_outcomes s outcomes = record s { information_need_outcomes = outcomes }
