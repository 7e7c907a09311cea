-- ===== src/Evidence/Quotes/Saved/Trust.antt =====
-- internal/evidence/quote.go: the quotes of a checkpoint are as trusted as those that are captured.
use r.Prelude.{
  ◌≡◌, refl, subst, String, false, Option, none, some, List, [], ◌∷◌, ◌⊎◌, inl, inr, str_eq, eq_iff,
  arith, Bool-cases, Option-cases, All,
}
use r.Prelude.Maps.{get, put, has}
use r.Evidence.Quotes.{Quote, Quotes, Hash, QuoteError, new_quotes, range_key, quote_ref, put_quote}
use r.Evidence.Quotes.Trusted.{Keeps, IsTrusted, put_quote-IsTrusted, put-kept}
use r.Evidence.Quotes.Saved.{
  SavedQuote, quote_of, quote_from_saved, add_saved, saved_maps, replaced, restore, merge_quote,
  after_quote, merge_quotes, merge_maps, merge, is_valid, same_quote,
}

Sum-cases :
    {A : Type 0} (x : QuoteError ⊎ A) → ((e : QuoteError) × (x ≡ inl e)) ⊎ ((a : A) × (x ≡ inr a))
Sum-cases (inl e) = inl (e, refl)
Sum-cases (inr a) = inr (a, refl)

missing_of_has :
    {V : Type 0} (k : String) (m : List (String × V)) → has k m ≡ false → get k m ≡ none
unfolding has
missing_of_has k m q = elim (Option-cases (get k m)) [
  | inl n ↦ n
  | inr (v, n) ↦ cc (rw (n, has) at q)
]

module _ (h : Hash) where
  -- A pair of the map that a checkpoint gives.
  abbrev pub IsNamed : String × Quote → Type 0
  IsNamed p = (p.1.ref ≡ p.0) × (p.0 ≡ quote_ref h (range_key p.1))

  quote_from_saved-IsNamed :
      (s : SavedQuote) (q : Quote)
      → quote_from_saved h s ≡ inr q
      → q.ref ≡ quote_ref h (range_key q)
  unfolding quote_from_saved quote_of
  quote_from_saved-IsNamed s q at = elim (Bool-cases (is_valid s)) [
    | inr bad ↦ cc (rw (bad, quote_from_saved) at at)
    | inl good ↦ elim (Bool-cases (str_eq s.ref (quote_ref h (range_key (quote_of s))))) [
      | inr other ↦ cc (rw (good, other, quote_from_saved) at at)
      | inl same ↦
          let e : quote_of s ≡ q = cc (rw (good, same, quote_from_saved) at at) in
          subst (λ (y : Quote). y.ref ≡ quote_ref h (range_key y)) e
            (ground (arith, same, eq_iff s.ref (quote_ref h (range_key (quote_of s)))))
    ]
  ]

  All-put :
      (k : String) (v : Quote) (m : List (String × Quote))
      → IsNamed (k, v)
      → All IsNamed m
      → All IsNamed (put k v m)
  unfolding put
  All-put k v [] n a = (n, tt)
  All-put k v ((j, w) ∷ m) n a = elim (Bool-cases (str_eq j k)) [
    | inl same ↦
        let e : k ≡ j = ground (arith, same, eq_iff j k) in
        rw same (subst (λ (i : String). IsNamed (i, v)) e n, a.1)
    | inr other ↦ rw other (a.0, All-put k v m n a.1)
  ]

  -- What the maps of a checkpoint satisfy.
  abbrev IsSaved : Quotes → Type 0
  IsSaved r = IsTrusted h r × All IsNamed r.by_ref

  add_saved-IsSaved :
      (q : Quote) (r r' : Quotes)
      → q.ref ≡ quote_ref h (range_key q)
      → IsSaved r
      → add_saved (inr q) r ≡ inr r'
      → IsSaved r'
  unfolding add_saved put_quote
  add_saved-IsSaved q r r' named v at = elim (Bool-cases (has q.ref r.by_ref)) [
    | inl old ↦ cc (rw old at at)
    | inr new ↦ elim (Bool-cases (has (range_key q) r.by_range)) [
      | inl taken ↦ cc (rw (new, taken) at at)
      | inr free ↦
          let e : put_quote q.ref q r ≡ r' = cc (rw (new, free) at at) in
          subst (λ (x : Quotes). IsSaved x) e
            (
              put_quote-IsTrusted h q.ref q r v.0 refl named (missing_of_has _ _ free)
                  (missing_of_has _ _ new),
              All-put q.ref q r.by_ref (refl, named) v.1,
            )
    ]
  ]

  saved_maps-IsSaved :
      (ss : List SavedQuote) (r r' : Quotes) → IsSaved r → saved_maps h ss r ≡ inr r' → IsSaved r'
  unfolding saved_maps add_saved
  saved_maps-IsSaved [] r r' v q = let e : r ≡ r' = cc in subst (λ (x : Quotes). IsSaved x) e v
  saved_maps-IsSaved (s ∷ ss) r r' v q = elim (Sum-cases (quote_from_saved h s)) [
    | inl (e, bad) ↦ cc (rw (bad, saved_maps) at q)
    | inr (quote, good) ↦ elim (Sum-cases (add_saved (inr quote) r)) [
      | inl (e, bad) ↦ cc (rw (good, bad, saved_maps) at q)
      | inr (next, added) ↦
          saved_maps-IsSaved ss next r'
            (add_saved-IsSaved quote r next (quote_from_saved-IsNamed s quote good) v added)
            (rw (good, added, saved_maps) at q)
    ]
  ]

  new-IsSaved : IsSaved new_quotes
  unfolding get
  new-IsSaved = (record { refs = λ ref q at. cc; ranges = λ key ref at. cc }, tt)

  -- The registry stays trusted and keeps its quotes.
  abbrev pub Stays : Quotes → Quotes → Type 0
  Stays r r' = IsTrusted h r' × Keeps r r'

  merge_new-Stays :
      (ref : String) (q : Quote) (r : Quotes)
      → IsNamed (ref, q)
      → IsTrusted h r
      → get ref r.by_ref ≡ none
      → get (range_key q) r.by_range ≡ none
      → Stays r (put_quote ref q r)
  unfolding put_quote
  merge_new-Stays ref q r n v new free = (
    put_quote-IsTrusted h ref q r v n.0 n.1 free new,
    λ ref' q' at. put-kept h ref ref' q q' r.by_ref new at,
  )

  merge_quote-Stays :
      (ref : String) (q : Quote) (r : Quotes)
      → IsNamed (ref, q)
      → IsTrusted h r
      → Stays r (merge_quote ref q r).0
  unfolding merge_quote
  merge_quote-Stays ref q r n v = elim (Option-cases (get ref r.by_ref)) [
    | inr (old, at) ↦ elim (Bool-cases (same_quote old q)) [
      | inl same ↦ rw (at, same, merge_quote) (v, λ j k there. there)
      | inr other ↦ rw (at, other, merge_quote) (v, λ j k there. there)
    ]
    | inl new ↦ elim (Option-cases (get (range_key q) r.by_range)) [
      | inl free ↦ rw (new, free, merge_quote) (merge_new-Stays ref q r n v new free)
      | inr (other, taken) ↦ elim (Bool-cases (str_eq other ref)) [
        | inl same ↦
            let (q', there, e) = v.ranges (range_key q) other taken in
            let is_ref : other ≡ ref = ground (arith, same, eq_iff other ref) in
            cc (subst (λ (i : String). get i r.by_ref ≡ some q') is_ref there)
        | inr differs ↦ rw (new, taken, differs, merge_quote) (v, λ j k there. there)
      ]
    ]
  ]

  after_quote-Stays :
      (r : Quotes) (next : Quotes → Quotes × Option QuoteError) (x : Quotes × Option QuoteError)
      → ((s : Quotes) → IsTrusted h s → Stays s (next s).0)
      → Stays r x.0
      → Stays r (after_quote next x).0
  unfolding after_quote
  after_quote-Stays r next (s, some e) f v = v
  after_quote-Stays r next (s, none) f v =
      let (trusted, kept) = f s v.0 in (trusted, λ j k there. kept j k (v.1 j k there))

  merge_quotes-Stays :
      (qs : List (String × Quote)) (r : Quotes)
      → All IsNamed qs
      → IsTrusted h r
      → Stays r (merge_quotes qs r).0
  unfolding merge_quotes
  merge_quotes-Stays [] r n v = (v, λ j k there. there)
  merge_quotes-Stays ((ref, q) ∷ qs) r n v =
      after_quote-Stays r (merge_quotes qs) (merge_quote ref q r)
        (λ s t. merge_quotes-Stays qs s n.1 t) (merge_quote-Stays ref q r n.0 v)

  merge_maps-Stays :
      (ss : List SavedQuote) (x : QuoteError ⊎ Quotes) (r : Quotes)
      → saved_maps h ss new_quotes ≡ x
      → IsTrusted h r
      → Stays r (merge_maps x r).0
  unfolding merge_maps
  merge_maps-Stays ss (inl e) r q v = (v, λ j k there. there)
  merge_maps-Stays ss (inr m) r q v =
      merge_quotes-Stays m.by_ref r (saved_maps-IsSaved ss new_quotes m new-IsSaved q).1 v

  pub merge-Stays : (ss : List SavedQuote) (r : Quotes) → IsTrusted h r → Stays r (merge h ss r).0
  unfolding merge
  merge-Stays ss r v = merge_maps-Stays ss (saved_maps h ss new_quotes) r refl v

  replaced-IsTrusted :
      (ss : List SavedQuote) (x : QuoteError ⊎ Quotes) (r : Quotes)
      → saved_maps h ss new_quotes ≡ x
      → IsTrusted h r
      → IsTrusted h (replaced x r).0
  unfolding replaced
  replaced-IsTrusted ss (inl e) r q v = v
  replaced-IsTrusted ss (inr m) r q v = (saved_maps-IsSaved ss new_quotes m new-IsSaved q).0

  pub restore-IsTrusted :
      (ss : List SavedQuote) (r : Quotes) → IsTrusted h r → IsTrusted h (restore h ss r).0
  unfolding restore
  restore-IsTrusted ss r v = replaced-IsTrusted ss (saved_maps h ss new_quotes) r refl v

  pub new-IsTrusted : IsTrusted h new_quotes
  new-IsTrusted = new-IsSaved.0
