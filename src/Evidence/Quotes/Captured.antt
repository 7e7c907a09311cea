-- ===== src/Evidence/Quotes/Captured.antt =====
-- internal/evidence/quote.go: what a call that captures a quote does with the registry.
use r.Prelude.{
  ◌≡◌, refl, sym, ap, subst, ◌∙◌, String, Option, none, some, ◌⊎◌, inl, inr, ◌||◌, ◌&&◌, leb,
  Bool-cases, Option-cases,
}
use r.Prelude.Int.{ℤ}
use r.Prelude.Maps.{get, put}
use r.Artifact
use r.Artifact.{Record, Registry}
use r.Artifact.Evidence.{record_of}
use r.Prelude.Text.{is_empty}
use r.Evidence.Quotes.{
  Quote, Quotes, Match, Hash, QuoteError, range_key, quote_ref, put_quote, quote_or_zero, store,
  resolve, stored, captured, capture_found, capture_match,
}
use r.Evidence.Quotes.Expansion.{
  is_bound, is_zero, expand_base, store_expanded, expand, with_context, capture_match_with_context,
}
use r.Evidence.Quotes.Trusted.{Keeps, IsTrusted, ref_new, put-same, put-kept, put_quote-IsTrusted}

module _ (h : Hash) where
  -- What a call does with the registry, and the quote that it gives: that quote can be resolved.
  pub record Captures (r r' : Quotes) (x : QuoteError ⊎ Quote) : Type 0 where
    pub trusted : IsTrusted h r'
    pub kept : Keeps r r'
    pub given : (q : Quote) → x ≡ inr q → get q.ref r'.by_ref ≡ some q

  nothing-Captures : (r : Quotes) (e : QuoteError) → IsTrusted h r → Captures r r (inl e)
  nothing-Captures r e v = record { trusted = v; kept = λ ref q at. at; given = λ q at. cc }

  store-new :
      (q : Quote) (r : Quotes)
      → get (range_key q) r.by_range ≡ none
      → store h q r ≡ (
        put_quote (quote_ref h (range_key q)) (record q { ref = quote_ref h (range_key q) }) r,
        record q { ref = quote_ref h (range_key q) },
      )
  unfolding store
  store-new q r new = rw (new, store) refl

  store-old :
      (q : Quote) (r : Quotes) (ref : String)
      → get (range_key q) r.by_range ≡ some ref
      → store h q r ≡ (r, quote_or_zero (get ref r.by_ref))
  unfolding store
  store-old q r ref old = rw (old, store) refl

  -- Captures, of both results at once.
  abbrev Gives : Quotes → Quotes × Quote → Type 0
  Gives r x = Captures r x.0 (inr x.1)

  named-Gives :
      (q : Quote) (r : Quotes)
      → IsTrusted h r
      → q.ref ≡ quote_ref h (range_key q)
      → get (range_key q) r.by_range ≡ none
      → Gives r (put_quote (quote_ref h (range_key q)) q r, q)
  unfolding put_quote
  named-Gives q r v own new = record {
    trusted =
        put_quote-IsTrusted h (quote_ref h (range_key q)) q r v own refl new
          (ref_new h r (range_key q) v new);
    kept = λ ref q' at.
        put-kept h (quote_ref h (range_key q)) ref q q' r.by_ref (ref_new h r (range_key q) v new)
          at;
    given = λ q' at.
        let e : q ≡ q' = cc in
        subst (λ (y : Quote). get y.ref (put (quote_ref h (range_key q)) q r.by_ref) ≡ some y) e
          (subst (λ (i : String). get i (put (quote_ref h (range_key q)) q r.by_ref) ≡ some q)
            (sym own) (put-same h (quote_ref h (range_key q)) q r.by_ref));
  }

  store-Gives : (q : Quote) (r : Quotes) → IsTrusted h r → Gives r (store h q r)
  unfolding range_key
  store-Gives q r v = elim (Option-cases (get (range_key q) r.by_range)) [
    | inl new ↦
        let named : Quote = record q { ref = quote_ref h (range_key q) } in
        subst (λ (x : Quotes × Quote). Gives r x) (sym (store-new q r new))
          (named-Gives named r v refl new)
    | inr (ref, old) ↦
        let (q', at, e) = v.ranges (range_key q) ref old in
        let (own, hashed, range) = v.refs ref q' at in
        subst (λ (x : Quotes × Quote). Gives r x)
          (sym (store-old q r ref old ∙ ap (λ (o : Option Quote). (r, quote_or_zero o)) at))
          (record {
            trusted = v;
            kept = λ j k there. there;
            given = λ k there.
                let same : q' ≡ k = cc in
                subst (λ (y : Quote). get y.ref r.by_ref ≡ some y) same
                  (subst (λ (i : String). get i r.by_ref ≡ some q') (sym own) at);
          })
  ]

  stored-Captures :
      (r : Quotes) (x : Quotes × Quote) → Gives r x → Captures r (stored x).0 (stored x).1
  unfolding stored
  stored-Captures r (r', q) g = g

  capture_found-Captures :
      (id : String) (m : Match) (x : Artifact.Error ⊎ Record) (r : Quotes)
      → IsTrusted h r
      → Captures r (capture_found h id m x r).0 (capture_found h id m x r).1
  unfolding capture_found
  capture_found-Captures id m (inl e) r v = nothing-Captures r _ v
  capture_found-Captures id m (inr item) r v =
      stored-Captures r _ (store-Gives (captured id m item) r v)

  pub capture_match-Captures :
      (artifacts : Registry) (id : String) (m : Match) (r : Quotes)
      → IsTrusted h r
      → Captures r (capture_match h artifacts id m r).0 (capture_match h artifacts id m r).1
  unfolding capture_match
  capture_match-Captures artifacts id m r v =
      elim (Bool-cases (is_empty m.digest || leb m.end m.start)) [
        | inl bad ↦ rw (bad, capture_match) (nothing-Captures r _ v)
        | inr good ↦
            rw (good, capture_match) (capture_found-Captures id m (record_of id artifacts) r v)
      ]

  store_expanded-Captures :
      (x : QuoteError ⊎ Quote) (r : Quotes)
      → IsTrusted h r
      → Captures r (store_expanded h x r).0 (store_expanded h x r).1
  unfolding store_expanded
  store_expanded-Captures (inl e) r v = nothing-Captures r e v
  store_expanded-Captures (inr q) r v = stored-Captures r _ (store-Gives q r v)

  module _ (read : String → Option String) (artifacts : Registry) where
    expand_base-Captures :
        (ref : String) (before after : ℤ) (x : Option Quote) (r : Quotes)
        → IsTrusted h r
        → Captures r
            (expand_base h read artifacts ref before after x r).0
            (expand_base h read artifacts ref before after x r).1
    unfolding expand_base
    expand_base-Captures ref before after none r v = nothing-Captures r _ v
    expand_base-Captures ref before after (some base) r v = store_expanded-Captures _ r v

    pub expand-Captures :
        (ref : String) (before after : ℤ) (r : Quotes)
        → IsTrusted h r
        → Captures r
            (expand h read artifacts ref before after r).0
            (expand h read artifacts ref before after r).1
    unfolding expand
    expand-Captures ref before after r v = elim (Bool-cases (is_bound before && is_bound after)) [
      | inl good ↦ rw (good, expand) (expand_base-Captures ref before after (resolve ref r) r v)
      | inr bad ↦ rw (bad, expand) (nothing-Captures r _ v)
    ]

    with_context-Captures :
        (before after : ℤ) (x : Quotes × (QuoteError ⊎ Quote)) (r : Quotes)
        → Captures r x.0 x.1
        → Captures r
            (with_context h read artifacts before after x).0
            (with_context h read artifacts before after x).1
    unfolding with_context
    with_context-Captures before after (r', inl e) r c = c
    with_context-Captures before after (r', inr base) r c =
        elim (Bool-cases (is_zero before && is_zero after)) [
          | inl bare ↦ rw (bare, with_context) c
          | inr wide ↦
              let g = expand-Captures base.ref before after r' c.trusted in
              rw (wide, with_context)
                (record {
                  trusted = g.trusted;
                  kept = λ ref q at. g.kept ref q (c.kept ref q at);
                  given = g.given;
                })
        ]

    pub capture_with_context-Captures :
        (id : String) (m : Match) (before after : ℤ) (r : Quotes)
        → IsTrusted h r
        → Captures r
            (capture_match_with_context h read artifacts id m before after r).0
            (capture_match_with_context h read artifacts id m before after r).1
    unfolding capture_match_with_context
    capture_with_context-Captures id m before after r v =
        with_context-Captures before after (capture_match h artifacts id m r) r
          (capture_match-Captures artifacts id m r v)
