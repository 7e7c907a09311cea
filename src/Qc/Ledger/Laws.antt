-- ===== src/Qc/Ledger/Laws.antt =====
-- What resolving does to the ledger of Final QC issues (internal/qc/runner.go, `ResolveFinalIssues`).
use r.Prelude.{
  ℕ, ◌+◌, ◌≡◌, ◌≢◌, refl, ◌∙◌, ap, ◌⊎◌, inl, inr, String, true, false, not, ◌&&◌, ◌||◌, none, List,
  [], ◌∷◌, arith, str_eq, eq_iff,
}
use r.Prelude.Text.{trim_space}
use r.Prelude.Sets.{contains, insert, contains-insert}
use r.Qc.{Issue}
use r.Qc.Ledger.{
  Ledger, LedgerError, issue_ids, remove, remove_all, resolve_ids, resolved, resolve_final_issues,
}

remove-contains :
    (id : String) (is : List Issue) (other : String)
    → contains (issue_ids (remove id is)) other
      ≡ (contains (issue_ids is) other && not (str_eq id other))
unfolding remove contains
remove-contains id [] other = refl
remove-contains id (i ∷ is) other =
    ground (arith, remove-contains id is other, eq_iff id i.id, eq_iff i.id other, eq_iff id other)

remove_all-contains :
    (ids : List String) (is : List Issue) (other : String)
    → contains (issue_ids (remove_all ids is)) other
      ≡ (contains (issue_ids is) other && not (contains ids other))
unfolding remove_all contains
remove_all-contains [] is other = ground arith
remove_all-contains (id ∷ ids) is other =
    ground (arith, remove_all-contains ids (remove id is) other, remove-contains id is other)

-- The IDs of a call as the ledger reads them.
abbrev pub trimmed : List String → List String
trimmed [] = []
trimmed (raw ∷ ids) = trim_space raw ∷ trimmed ids

resolve_ids-contains :
    (seen : List String) (index : ℕ) (ids : List String) (is : List Issue) (found : List String)
    (other : String)
    → resolve_ids seen index ids is ≡ inr found
    → contains found other ≡ (contains seen other || contains (trimmed ids) other)
unfolding resolve_ids contains
resolve_ids-contains seen index [] is found other h = ground (arith, h)
resolve_ids-contains seen index (raw ∷ ids) is found other h =
    let id = trim_space raw in
    ground (
      arith,
      h,
      resolve_ids-contains (insert id seen) (index + 1) ids is found other,
      contains-insert seen id other,
    )

resolve_ids-known :
    (seen : List String) (index : ℕ) (ids : List String) (is : List Issue) (found : List String)
    (other : String)
    → resolve_ids seen index ids is ≡ inr found
    → contains (trimmed ids) other ≡ true
    → contains (issue_ids is) other ≡ true
unfolding resolve_ids contains
resolve_ids-known seen index [] is found other h m = cc
resolve_ids-known seen index (raw ∷ ids) is found other h m =
    let id = trim_space raw in
    ground (
      arith,
      h,
      m,
      resolve_ids-known (insert id seen) (index + 1) ids is found other,
      eq_iff id other,
    )

-- What a call of `ResolveFinalIssues` that succeeds has done to the ledger.
pub record IsResolved (ids : List String) (l l' : Ledger) : Type 0 where
  pub known :
      (id : String)
      → contains (trimmed ids) id ≡ true
      → contains (issue_ids l.final_issues) id ≡ true
  pub left :
      (id : String)
      → contains (issue_ids l'.final_issues) id
        ≡ (contains (issue_ids l.final_issues) id && not (contains (trimmed ids) id))
  pub same_history : l'.final_issue_history ≡ l.final_issue_history
  pub same_next : l'.next_final_issue_id ≡ l.next_final_issue_id
  pub same_pending : l'.completion_pending ≡ l.completion_pending

kept_all :
    (is : List Issue) (other : String)
    → contains (issue_ids is) other ≡ (contains (issue_ids is) other && not false)
kept_all is other = ground arith

resolved-IsResolved :
    (ids found : List String) (l : Ledger)
    → ((id : String) → contains found id ≡ contains (trimmed ids) id)
    → ((id : String)
        → contains (trimmed ids) id ≡ true
        → contains (issue_ids l.final_issues) id ≡ true)
    → IsResolved ids l (resolved (inr found) l).0
unfolding resolved contains
resolved-IsResolved ids [] l same known = record {
  known = known;
  left = λ id. ground (arith, same id);
  same_history = refl;
  same_next = refl;
  same_pending = refl;
}
resolved-IsResolved ids (x ∷ found) l same known = record {
  known = known;
  left = λ id.
      remove_all-contains (x ∷ found) l.final_issues id
      ∙ ap (λ b. contains (issue_ids l.final_issues) id && not b) (same id);
  same_history = refl;
  same_next = refl;
  same_pending = refl;
}

resolved_ok : (found : List String) (l : Ledger) → (resolved (inr found) l).1 ≡ none
unfolding resolved
resolved_ok [] l = refl
resolved_ok (id ∷ ids) l = refl

resolved_cases :
    (ids : List String) (l : Ledger) (a : LedgerError ⊎ List String)
    → resolve_ids [] 0 ids l.final_issues ≡ a
    → (((resolved a l).1 ≢ none) × ((resolved a l).0 ≡ l))
      ⊎ (((resolved a l).1 ≡ none) × IsResolved ids l (resolved a l).0)
unfolding resolved contains
resolved_cases ids l (inl e) h = inl (λ k. ground (arith, k), refl)
resolved_cases ids l (inr found) h = inr (
  resolved_ok found l,
  resolved-IsResolved ids found l (λ id. resolve_ids-contains [] 0 ids l.final_issues found id h)
      (λ id m. resolve_ids-known [] 0 ids l.final_issues found id h m),
)

-- A call that resolves issues either returns an error and changes nothing, or every ID in it, but for
-- white space around it, was that of an open issue, and the issues that stay open are the others; the
-- history, the IDs still to give and a pending completion are what they were.
pub resolve_final_issues_lem :
    (ids : List String) (l : Ledger)
    → (((resolve_final_issues ids l).1 ≢ none) × ((resolve_final_issues ids l).0 ≡ l))
      ⊎ (((resolve_final_issues ids l).1 ≡ none) × IsResolved ids l (resolve_final_issues ids l).0)
unfolding resolve_final_issues
resolve_final_issues_lem ids l = resolved_cases ids l (resolve_ids [] 0 ids l.final_issues) refl
