-- ===== src/Collection/Lifecycle/Ready.antt =====
-- A verdict that passed its check has, for every open need, the assessment that the update reads.
use r.Prelude.{
  String, ◌≡◌, refl, sym, ap, ◌∙◌, ◌⊎◌, inl, inr, Bool, true, false, none, some, List, [], ◌∷◌,
  arith, eq_iff, All, All-map, Bool-cases,
}
use mathlib.Core.Path.{subst}
use r.Prelude.Sets.{contains, lookup_last, IsNodup}
use r.Collection.{QcAssessment, NeedState}
use r.Collection.Verdict.{state_ids, assessed_ids, by_id}
use r.Collection.Verdict.Sound.{Fits, FitsAll, IsComplete}
use r.Collection.Lifecycle.{is_active, active_need_states, assessments_by_id, assessment_of}

lookup-absent :
    (ss : List NeedState) (id : String)
    → contains (state_ids ss) id ≡ false
    → lookup_last id (by_id ss) ≡ none
unfolding contains lookup_last
lookup-absent [] id h = refl
lookup-absent (s ∷ ss) id h = ground (arith, lookup-absent ss id)

Found : List NeedState → NeedState → Type 0
Found all s = lookup_last s.need.id (by_id all) ≡ some s

All-Found-cons :
    (x : NeedState) (all ss : List NeedState) → All (Found all) ss → All (Found (x ∷ all)) ss
unfolding Found lookup_last
All-Found-cons x all [] h = tt
All-Found-cons x all (s ∷ ss) h = (rw (h.0) refl, All-Found-cons x all ss h.1)

All-Found : (ss : List NeedState) → IsNodup (state_ids ss) → All (Found ss) ss
unfolding Found lookup_last
All-Found [] n = tt
All-Found (s ∷ ss) n = (
  rw (lookup-absent ss s.need.id n.0) (ground (arith, eq_iff s.need.id s.need.id)),
  All-Found-cons s ss ss (All-Found ss n.1),
)

contains-active :
    (ss : List NeedState) (id : String)
    → contains (state_ids ss) id ≡ false
    → contains (state_ids (active_need_states ss)) id ≡ false
unfolding contains active_need_states
contains-active [] id h = h
contains-active (s ∷ ss) id h = ground (arith, contains-active ss id)

IsNodup-active :
    (ss : List NeedState) → IsNodup (state_ids ss) → IsNodup (state_ids (active_need_states ss))
unfolding active_need_states
IsNodup-active [] n = tt
IsNodup-active (s ∷ ss) n = elim (Bool-cases (is_active s)) [
  | inl yes' ↦ rw yes' (contains-active ss s.need.id n.0, IsNodup-active ss n.1)
  | inr no' ↦ rw no' (IsNodup-active ss n.1)
]

-- What holds of every open need holds of every need, or the need is closed.
All-active :
    (Q : NeedState → Type 0) (ss : List NeedState)
    → All Q (active_need_states ss)
    → All (λ s. (is_active s ≡ false) ⊎ Q s) ss
unfolding active_need_states
All-active Q [] h = tt
All-active Q (s ∷ ss) h = elim (Bool-cases (is_active s)) [
  | inl yes' ↦ let k = rw yes' at h in (inr k.0, All-active Q ss k.1)
  | inr no' ↦ (inl no', All-active Q ss (rw no' at h))
]

assessed-absent :
    (as' : List QcAssessment) (id : String)
    → contains (assessed_ids as') id ≡ false
    → lookup_last id (assessments_by_id as') ≡ none
unfolding contains lookup_last
assessed-absent [] id h = refl
assessed-absent (a ∷ as') id h = ground (arith, assessed-absent as' id)

lookup-assessed :
    (states : List NeedState) (has_new : Bool) (as' : List QcAssessment) (id : String)
    → FitsAll states has_new as'
    → contains (assessed_ids as') id ≡ true
    → (a : QcAssessment) × (lookup_last id (assessments_by_id as') ≡ some a)
      × (s : NeedState) × (lookup_last id (by_id states) ≡ some s)
      × Fits s has_new a
unfolding contains lookup_last
lookup-assessed states has_new [] id f c = cc
lookup-assessed states has_new (a ∷ as') id f c =
    elim (Bool-cases (contains (assessed_ids as') id)) [
      | inl later ↦
          let (b, e, s, found, fit) = lookup-assessed states has_new as' id f.1 later in
          (b, rw (e, lookup_last) refl, s, found, fit)
      | inr last ↦
          let same : a.information_need_id ≡ id = ground (arith, eq_iff a.information_need_id id) in
          let (s, found, fit) = f.0 in
          (
            a,
            rw (assessed-absent as' id last, lookup_last)
                (ground (arith, eq_iff a.information_need_id id)),
            s,
            ap (λ k. lookup_last k (by_id states)) (sym same) ∙ found,
            fit,
          )
    ]

-- The need is closed, or the assessment that the update reads for it fits it.
abbrev pub IsReady : List QcAssessment → Bool → NeedState → Type 0
IsReady as' has_new s = (is_active s ≡ false) ⊎ Fits s has_new (assessment_of as' s.need.id)

ready_one :
    (active : List NeedState) (has_new : Bool) (as' : List QcAssessment)
    → IsComplete active has_new as'
    → (s : NeedState) → contains (state_ids active) s.need.id ≡ true
    → Found active s
    → Fits s has_new (assessment_of as' s.need.id)
unfolding Found assessment_of
ready_one active has_new as' c s m found =
    let (a, e, t, found', fit) =
      lookup-assessed active has_new as' s.need.id c.fits (c.every s.need.id m) in
    let same : t ≡ s = cc in rw e (subst (λ x. Fits x has_new a) same fit)

All-contains : (ss : List NeedState) → All (λ s. contains (state_ids ss) s.need.id ≡ true) ss
unfolding contains
All-contains [] = tt
All-contains (s ∷ ss) = (
  ground (arith, eq_iff s.need.id s.need.id),
  All-map _ _ ss (λ x h. ground arith) (All-contains ss),
)

All-both :
    (P Q : NeedState → Type 0) (ss : List NeedState) → All P ss → All Q ss → All (λ s. P s × Q s) ss
All-both P Q [] p q = tt
All-both P Q (s ∷ ss) p q = ((p.0, q.0), All-both P Q ss p.1 q.1)

pub All-IsReady :
    (states : List NeedState) (has_new : Bool) (as' : List QcAssessment)
    → IsNodup (state_ids states)
    → IsComplete (active_need_states states) has_new as'
    → All (IsReady as' has_new) states
All-IsReady states has_new as' n c =
    let active = active_need_states states in
    All-active (λ s. Fits s has_new (assessment_of as' s.need.id)) states
      (All-map _ _ active (λ s h. ready_one active has_new as' c s h.0 h.1)
        (All-both _ _ active (All-contains active) (All-Found active (IsNodup-active states n))))
