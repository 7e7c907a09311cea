-- ===== src/Collection/Verdict/Sound.antt =====
-- What the checks of internal/collection/tools.go on a verdict accept, said without the code's
-- loops.
use r.Prelude.{
  ℕ, ◌+◌, String, ◌≡◌, refl, sym, ◌∙◌, ◌⊎◌, inl, inr, Bool, true, false, ◌||◌, some, List, [], ◌∷◌,
  ◌==◌, length, arith, eq_iff, Bool-cases, Option-cases, ◌↔◌, ◌≢◌,
}
use r.Prelude.Sets.{
  contains, insert, lookup_last, IsNodup, IsNodup_of_length, length_of_IsNodup, contains-insert,
  contains-insert_all,
}
use r.Collection.Issues.{issue_if, append_nil_parts, issue_if_parts}
use r.Collection.{AssessmentStatus, material, no_progress, QcAssessment, NeedState, Issue}
use r.Collection.Verdict.{
  condition_ids, state_ids, assessed_ids, by_id, condition_set, all_seen, shape_issues,
  unsatisfied_issues, assessment_issues, seen_assessments, validate_assessments, conclude,
}

-- An assessment fits an active need: it is sufficient and lists nothing, or it needs more and lists
-- conditions; material progress needs new artifacts; the conditions are distinct, are conditions of
-- the need, and after the first assessment were unsatisfied before.
pub record Fits (s : NeedState) (has_new : Bool) (a : QcAssessment) : Type 0 where
  pub status_fits :
      ((a.status ≡ AssessmentStatus.sufficient) × (a.unsatisfied_condition_ids ≡ []))
      ⊎ ((a.status ≡ AssessmentStatus.needs_more) × (a.unsatisfied_condition_ids ≢ []))
  pub progress_fits :
      (a.evidence_progress ≡ no_progress) ⊎ ((a.evidence_progress ≡ material) × (has_new ≡ true))
  pub distinct : IsNodup a.unsatisfied_condition_ids
  pub known :
      (c : String)
      → contains a.unsatisfied_condition_ids c ≡ true
      → contains (condition_ids s.need.stop_conditions) c ≡ true
  pub shrinks :
      (c : String)
      → contains a.unsatisfied_condition_ids c ≡ true
      → (s.assessed ≡ false) ⊎ (contains s.previous_unsatisfied c ≡ true)

unsatisfied_sound :
    (index : ℕ) (s : NeedState) (cs : List String)
    → unsatisfied_issues index s cs ≡ []
    → (c : String) → contains cs c ≡ true
    → (contains (condition_ids s.need.stop_conditions) c ≡ true)
      × ((s.assessed ≡ false) ⊎ (contains s.previous_unsatisfied c ≡ true))
unfolding unsatisfied_issues contains
unsatisfied_sound index s [] h c m = cc
unsatisfied_sound index s (d ∷ cs) h c m =
    let known = issue_if_parts _ _ _ h in
    let open' = issue_if_parts _ _ _ known.1 in
    ground (arith, unsatisfied_sound index s cs open'.1 c, eq_iff d c, known.0, open'.0)

shape_sound :
    (index : ℕ) (s : NeedState) (has_new : Bool) (a : QcAssessment)
    → shape_issues index s has_new a ≡ []
    → Fits s has_new a
unfolding shape_issues contains
shape_sound index s has_new a h =
    let t1 = issue_if_parts _ _ _ h in
    let t2 = issue_if_parts _ _ _ t1.1 in
    let t3 = issue_if_parts _ _ _ t2.1 in
    let t4 = issue_if_parts _ _ _ t3.1 in
    let t5 = issue_if_parts _ _ _ t4.1 in
    let t6 = issue_if_parts _ _ _ t5.1 in
    let u = unsatisfied_sound index s (condition_set a.unsatisfied_condition_ids) t6.1 in
    let in_set = contains-insert_all [] a.unsatisfied_condition_ids in
    record {
      status_fits = ground (arith, t1.0, t4.0, t5.0);
      progress_fits = ground (arith, t2.0, t3.0);
      distinct = (IsNodup_of_length [] a.unsatisfied_condition_ids (ground (arith, t6.0))).0;
      known = λ c m. (u c (in_set c ∙ m)).0;
      shrinks = λ c m. (u c (in_set c ∙ m)).1;
    }

unsatisfied_complete :
    (index : ℕ) (s : NeedState) (cs : List String)
    → ((c : String)
        → contains cs c ≡ true
        → contains (condition_ids s.need.stop_conditions) c ≡ true)
    → ((c : String)
        → contains cs c ≡ true
        → (s.assessed ≡ false) ⊎ (contains s.previous_unsatisfied c ≡ true))
    → unsatisfied_issues index s cs ≡ []
unfolding unsatisfied_issues contains issue_if
unsatisfied_complete index s [] k o = refl
unsatisfied_complete index s (d ∷ cs) k o =
    let here : contains (d ∷ cs) d ≡ true = ground (arith, eq_iff d d) in
    let ih =
      unsatisfied_complete index s cs (λ c m. k c (ground (arith, m)))
        (λ c m. o c (ground (arith, m))) in
    simp (k d here, ih) (ground (arith, o d here))

shape_complete :
    (index : ℕ) (s : NeedState) (has_new : Bool) (a : QcAssessment)
    → Fits s has_new a
    → shape_issues index s has_new a ≡ []
unfolding shape_issues contains issue_if
shape_complete index s has_new a f =
    let in_set = contains-insert_all [] a.unsatisfied_condition_ids in
    let u =
      unsatisfied_complete index s (condition_set a.unsatisfied_condition_ids)
        (λ c m. f.known c (sym (in_set c) ∙ m)) (λ c m. f.shrinks c (sym (in_set c) ∙ m)) in
    let n = length_of_IsNodup [] a.unsatisfied_condition_ids f.distinct (λ c m. refl) in
    simp u (ground (arith, f.status_fits, f.progress_fits, n))

-- Every assessment is of an active need, and fits it.
abbrev pub FitsAll : List NeedState → Bool → List QcAssessment → Type 0
FitsAll states has_new [] = Unit
FitsAll states has_new (a ∷ as') =
    ((s : NeedState) × (lookup_last a.information_need_id (by_id states) ≡ some s)
      × Fits s has_new a)
    × FitsAll states has_new as'

-- What one round of the loop without an issue says.
assessment_step :
    (states : List NeedState) (has_new : Bool) (index : ℕ) (seen : List String) (a : QcAssessment)
    (as' : List QcAssessment)
    → assessment_issues states has_new index seen (a ∷ as') ≡ []
    → (s : NeedState) × (lookup_last a.information_need_id (by_id states) ≡ some s)
      × (contains seen a.information_need_id ≡ false)
      × (shape_issues index s has_new a ≡ [])
      × (assessment_issues states has_new (index + 1) (insert a.information_need_id seen) as' ≡ [])
unfolding assessment_issues
assessment_step states has_new index seen a as' h =
    elim (Option-cases (lookup_last a.information_need_id (by_id states))) [
      | inl missing ↦ cc (rw (missing, assessment_issues) at h)
      | inr (s, found) ↦
          let k = rw (found, assessment_issues) at h in
          let dup = issue_if_parts _ _ _ k in
          let rest = append_nil_parts _ _ dup.1 in (s, found, dup.0, rest.0, rest.1)
    ]

assessments_sound :
    (states : List NeedState) (has_new : Bool) (index : ℕ) (seen : List String)
    (as' : List QcAssessment)
    → assessment_issues states has_new index seen as' ≡ []
    → FitsAll states has_new as'
      × IsNodup (assessed_ids as')
      × ((id : String) → contains (assessed_ids as') id ≡ true → contains seen id ≡ false)
unfolding contains
assessments_sound states has_new index seen [] h = (tt, tt, λ id c. cc)
assessments_sound states has_new index seen (a ∷ as') h =
    let (s, found, new, shape, rest) = assessment_step states has_new index seen a as' h in
    let ih =
      assessments_sound states has_new (index + 1) (insert a.information_need_id seen) as' rest in
    let id = a.information_need_id in
    (
      ((s, found, shape_sound index s has_new a shape), ih.0),
      (ground (arith, ih.2 id, contains-insert seen id id, eq_iff id id), ih.1),
      λ id' c. ground (arith, ih.2 id', contains-insert seen id id', eq_iff id id', new),
    )

seen-eq-assessed :
    (states : List NeedState) (has_new : Bool) (seen : List String) (as' : List QcAssessment)
    (id : String)
    → FitsAll states has_new as'
    → contains (seen_assessments states seen as') id
      ≡ (contains seen id || contains (assessed_ids as') id)
unfolding seen_assessments contains
seen-eq-assessed states has_new seen [] id f = ground arith
seen-eq-assessed states has_new seen (a ∷ as') id ((s, found, _), f) = rw found (
    ground (
      arith,
      seen-eq-assessed states has_new (insert a.information_need_id seen) as' id f,
      contains-insert seen a.information_need_id id,
    ))

all_seen_iff :
    (seen ids : List String)
    → (all_seen seen ids ≡ true)
      ↔ ((id : String) → contains ids id ≡ true → contains seen id ≡ true)
unfolding all_seen contains
all_seen_iff seen [] = (λ h id c. cc, λ h. refl)
all_seen_iff seen (x ∷ ids) =
    let ih = all_seen_iff seen ids in
    (
      λ h id c. ground (arith, ih.0 (ground arith) id, eq_iff x id),
      λ h. ground (arith, h x, eq_iff x x, ih.1 (λ id c. h id (ground arith))),
    )

-- A verdict assesses every active need exactly once, and each assessment fits its need.
pub record IsComplete (states : List NeedState) (has_new : Bool) (assessments : List QcAssessment)
    : Type 0 where
  pub as_many : length assessments ≡ length states
  pub fits : FitsAll states has_new assessments
  pub once : IsNodup (assessed_ids assessments)
  pub every :
      (id : String)
      → contains (state_ids states) id ≡ true
      → contains (assessed_ids assessments) id ≡ true

assessments_complete :
    (states : List NeedState) (has_new : Bool) (index : ℕ) (seen : List String)
    (as' : List QcAssessment)
    → FitsAll states has_new as'
    → IsNodup (assessed_ids as')
    → ((id : String) → contains (assessed_ids as') id ≡ true → contains seen id ≡ false)
    → assessment_issues states has_new index seen as' ≡ []
unfolding assessment_issues contains issue_if
assessments_complete states has_new index seen [] f n d = refl
assessments_complete states has_new index seen (a ∷ as') ((s, found, fit), f) n d =
    let id = a.information_need_id in
    let new : contains seen id ≡ false = d id (ground (arith, eq_iff id id)) in
    let rest =
      assessments_complete states has_new (index + 1) (insert id seen) as' f n.1
        (λ id' c. ground (arith, d id', contains-insert seen id id', eq_iff id id', n.0)) in
    rw (found, assessment_issues) (simp (new, shape_complete index s has_new a fit, rest))

conclude_parts :
    (is : List Issue) (b : Bool) (i : Issue) → conclude is b i ≡ [] → (is ≡ []) × (b ≡ true)
unfolding conclude
conclude_parts [] true i h = (refl, refl)
conclude_parts [] false i h = cc
conclude_parts (x ∷ is) b i h = cc

validate_parts :
    (states : List NeedState) (as' : List QcAssessment) (has_new : Bool)
    → validate_assessments states as' has_new ≡ []
    → (length as' ≡ length states)
      × (assessment_issues states has_new 0 [] as' ≡ [])
      × (all_seen (seen_assessments states [] as') (state_ids states) ≡ true)
unfolding validate_assessments
validate_parts states as' has_new h = elim (Bool-cases (length as' == length states)) [
  | inl same ↦ let t = conclude_parts _ _ _ (rw same at h) in (ground arith, t.0, t.1)
  | inr other ↦ cc (rw other at h)
]

-- The check of a Collection QC verdict raises no issue exactly when the verdict assesses every
-- active need once and every assessment fits its need.
pub validate_assessments_iff :
    (states : List NeedState) (assessments : List QcAssessment) (has_new : Bool)
    → (validate_assessments states assessments has_new ≡ []) ↔ IsComplete states has_new assessments
unfolding contains
validate_assessments_iff states as' has_new = (
  λ h.
      let p = validate_parts states as' has_new h in
      let t = assessments_sound states has_new 0 [] as' p.1 in
      record {
        as_many = p.0;
        fits = t.0;
        once = t.1;
        every = λ id c.
            sym (seen-eq-assessed states has_new [] as' id t.0) ∙ (all_seen_iff _ _).0 p.2 id c;
      },
  λ c.
      let e = assessments_complete states has_new 0 [] as' c.fits c.once (λ id m. refl) in
      let a =
        (all_seen_iff (seen_assessments states [] as') (state_ids states)).1
          (λ id m. seen-eq-assessed states has_new [] as' id c.fits ∙ c.every id m) in
      unfold validate_assessments in simp (c.as_many, e, a) (ground arith),
)
