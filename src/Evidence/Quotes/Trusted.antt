-- ===== src/Evidence/Quotes/Trusted.antt =====
-- internal/evidence/quote.go: what holds of the registry of quotes, whatever is captured.
use r.Prelude.{
  ◌≡◌, refl, sym, subst, ◌∙◌, String, none, some, List, ◌⊎◌, inl, inr, str_eq, eq_iff, arith,
  Bool-cases, Option-cases,
}
use r.Prelude.Maps.{get, put, get-put}
use r.Evidence.Quotes.{Quote, Quotes, Hash, range_key, quote_ref, put_quote}
use text.Mathlib.TextLemmas.{append_cancel_left}

-- No reference is lost or comes to mean another quote.
abbrev pub Keeps : Quotes → Quotes → Type 0
Keeps r r' = (ref : String) (q : Quote) → get ref r.by_ref ≡ some q → get ref r'.by_ref ≡ some q

module _ (h : Hash) where
  -- Each quote stands under its own reference, the hash of its range, and each range under its quote.
  pub record IsTrusted (r : Quotes) : Type 0 where
    pub refs :
        (ref : String) (q : Quote)
        → get ref r.by_ref ≡ some q
        → (q.ref ≡ ref)
          × (ref ≡ quote_ref h (range_key q))
          × (get (range_key q) r.by_range ≡ some ref)
    pub ranges :
        (key ref : String)
        → get key r.by_range ≡ some ref
        → (q : Quote) × (get ref r.by_ref ≡ some q) × (range_key q ≡ key)

  quote_ref_injective : (k j : String) → quote_ref h k ≡ quote_ref h j → k ≡ j
  unfolding quote_ref
  quote_ref_injective k j q =
      h.short_injective k j (append_cancel_left "quote-ref-" (h.short k) (h.short j) q)

  -- A new range has a new reference.
  pub ref_new :
      (r : Quotes) (key : String)
      → IsTrusted r
      → get key r.by_range ≡ none
      → get (quote_ref h key) r.by_ref ≡ none
  ref_new r key v new = elim (Option-cases (get (quote_ref h key) r.by_ref)) [
    | inl q ↦ q
    | inr (q, at) ↦
        let (own, named, range) = v.refs (quote_ref h key) q at in
        let same = quote_ref_injective key (range_key q) named in
        cc (subst (λ (k : String). get k r.by_range ≡ some (quote_ref h key)) (sym same) range)
  ]

  pub put-same :
      {V : Type 0} (k : String) (v : V) (m : List (String × V)) → get k (put k v m) ≡ some v
  put-same k v m = ground (arith, get-put k k v m, eq_iff k k)

  pub put-kept :
      {V : Type 0} (k j : String) (v w : V) (m : List (String × V))
      → get k m ≡ none
      → get j m ≡ some w
      → get j (put k v m) ≡ some w
  put-kept k j v w m new at = elim (Bool-cases (str_eq k j)) [
    | inl same ↦
        let e : k ≡ j = ground (arith, same, eq_iff k j) in
        cc (subst (λ (i : String). get i m ≡ none) e new)
    | inr other ↦ get-put k j v m ∙ rw other at
  ]

  -- Where a value of the larger map is from.
  put-origin :
      {V : Type 0} (k j : String) (v w : V) (m : List (String × V))
      → get j (put k v m) ≡ some w
      → ((k ≡ j) × (v ≡ w)) ⊎ (get j m ≡ some w)
  put-origin k j v w m at = elim (Bool-cases (str_eq k j)) [
    | inl same ↦
        let e : k ≡ j = ground (arith, same, eq_iff k j) in
        let q : some v ≡ some w = (sym (get-put k j v m ∙ rw same refl)) ∙ at in inl (e, cc)
    | inr other ↦ inr (sym (get-put k j v m ∙ rw other refl) ∙ at)
  ]

  pub put_quote-IsTrusted :
      (ref : String) (q : Quote) (r : Quotes)
      → IsTrusted r
      → q.ref ≡ ref
      → ref ≡ quote_ref h (range_key q)
      → get (range_key q) r.by_range ≡ none
      → get ref r.by_ref ≡ none
      → IsTrusted (put_quote ref q r)
  unfolding put_quote
  put_quote-IsTrusted ref q r v own named new_range new_ref = record {
    refs = λ ref' q' at. elim (put-origin ref ref' q q' r.by_ref at) [
      | inl (e, same) ↦
          subst
            (λ (x : String).
              (q'.ref ≡ x)
              × (x ≡ quote_ref h (range_key q'))
              × (get (range_key q') (put (range_key q) ref r.by_range) ≡ some x))
            e
            (subst
              (λ (y : Quote).
                (y.ref ≡ ref)
                × (ref ≡ quote_ref h (range_key y))
                × (get (range_key y) (put (range_key q) ref r.by_range) ≡ some ref))
              same (own, named, put-same (range_key q) ref r.by_range))
      | inr old ↦
          let (mine, hashed, range) = v.refs ref' q' old in
          (mine, hashed, put-kept (range_key q) (range_key q') ref ref' r.by_range new_range range)
    ];
    ranges = λ key ref' at. elim (put-origin (range_key q) key ref ref' r.by_range at) [
      | inl (e, same) ↦ (
        q,
        subst (λ (x : String). get x (put ref q r.by_ref) ≡ some q) same (put-same ref q r.by_ref),
        e,
      )
      | inr old ↦
          let (q', there, e) = v.ranges key ref' old in
          (q', put-kept ref ref' q q' r.by_ref new_ref there, e)
    ];
  }
