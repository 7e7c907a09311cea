-- ===== src/Evidence/Quotes/Saved.antt =====
-- internal/evidence/quote.go: the quotes of a checkpoint, which a resumed run restores or merges. Go
-- ranges over the quotes to merge in any order.
pub mod Trust
use Prim.Native.Nat.{Ordering}
use Prim.Native.String
use r.Prelude.{
  ℕ, String, Bool, true, false, not, ◌&&◌, ◌||◌, Option, none, some, List, [], ◌∷◌, ◌⊎◌, inl, inr,
  ltb, leb, ◌==◌, if◌then◌else◌, str_eq,
}
use r.Prelude.Int.{ℤ, pos, is_natural, is_positive, to_ℕ}
use r.Prelude.Text.{is_blank}
use r.Prelude.Maps.{get, has}
use r.Evidence.Quotes.{
  Quote, Quotes, Hash, QuoteError, invalid_snapshot, bad_integrity, duplicate_ref, duplicate_range,
  conflicting_ref, conflicting_range, new_quotes, range_key, quote_ref, put_quote,
}

-- `QuoteSnapshotRecord`.
pub record SavedQuote : Type 0 where
  pub ref : String
  pub submit_ready : Bool
  pub artifact_id : String
  pub artifact_digest : String
  pub source_title : String
  pub url : String
  pub locator : String
  pub exact_quote : String
  pub start_line : ℤ
  pub end_line : ℤ
  pub normalized_start : ℤ
  pub normalized_end : ℤ

-- `quoteSnapshotRecord`.
unfoldable pub saved_quote : Quote → SavedQuote
saved_quote q = record {
  ref = q.ref;
  submit_ready = q.submit_ready;
  artifact_id = q.artifact_id;
  artifact_digest = q.artifact_digest;
  source_title = q.source_title;
  url = q.url;
  locator = q.locator;
  exact_quote = q.exact_quote;
  start_line = pos q.start_line;
  end_line = pos q.end_line;
  normalized_start = pos q.normalized_start;
  normalized_end = pos q.normalized_end;
}

insert_by_ref : SavedQuote → List SavedQuote → List SavedQuote
insert_by_ref s [] = s ∷ []
insert_by_ref s (t ∷ ts) =
    let rest = insert_by_ref s ts in
    elim (String.compare s.ref t.ref) [ Ordering.gt ↦ t ∷ rest | _ ↦ s ∷ t ∷ ts ]

-- The quotes, sorted by their references.
sorted_quotes : List (String × Quote) → List SavedQuote
unfolding insert_by_ref saved_quote
sorted_quotes [] = []
sorted_quotes ((ref, q) ∷ qs) = insert_by_ref (saved_quote q) (sorted_quotes qs)

-- `Snapshot`.
unfoldable pub snapshot : Quotes → List SavedQuote
unfolding sorted_quotes
snapshot r = sorted_quotes r.by_ref

-- n ≤ m, where n is not negative.
abbrev from_natural : ℤ → ℤ → Bool
from_natural n m = is_natural n && is_natural m && leb (to_ℕ n) (to_ℕ m)

abbrev is_valid : SavedQuote → Bool
is_valid s =
    s.submit_ready
    && not (is_blank s.artifact_id)
    && not (is_blank s.artifact_digest)
    && not (is_blank s.exact_quote)
    && is_positive s.start_line
    && from_natural s.start_line s.end_line
    && from_natural s.normalized_start s.normalized_end
    && not (to_ℕ s.normalized_start == to_ℕ s.normalized_end)

unfoldable pub quote_of : SavedQuote → Quote
quote_of s = record {
  ref = s.ref;
  submit_ready = s.submit_ready;
  artifact_id = s.artifact_id;
  artifact_digest = s.artifact_digest;
  source_title = s.source_title;
  url = s.url;
  locator = s.locator;
  exact_quote = s.exact_quote;
  start_line = to_ℕ s.start_line;
  end_line = to_ℕ s.end_line;
  normalized_start = to_ℕ s.normalized_start;
  normalized_end = to_ℕ s.normalized_end;
}

-- `quoteFromSnapshotRecord`.
unfoldable pub quote_from_saved : Hash → SavedQuote → QuoteError ⊎ Quote
unfolding quote_of
quote_from_saved h s =
    if not (is_valid s)
    then inl invalid_snapshot
    else if str_eq s.ref (quote_ref h (range_key (quote_of s)))
    then inr (quote_of s)
    else inl (bad_integrity s.ref)

-- A quote of the checkpoint, added to the maps.
unfoldable pub add_saved : QuoteError ⊎ Quote → Quotes → QuoteError ⊎ Quotes
unfolding put_quote
add_saved (inl e) r = inl e
add_saved (inr q) r =
    if has q.ref r.by_ref
    then inl (duplicate_ref q.ref)
    else if has (range_key q) r.by_range
    then inl duplicate_range
    else inr (put_quote q.ref q r)

-- `quoteSnapshotMaps`.
unfoldable pub saved_maps : Hash → List SavedQuote → Quotes → QuoteError ⊎ Quotes
unfolding add_saved quote_from_saved
saved_maps h [] r = inr r
saved_maps h (s ∷ ss) r = elim (add_saved (quote_from_saved h s) r) [
  | inl e ↦ inl e
  | inr r' ↦ saved_maps h ss r'
]

unfoldable pub replaced : QuoteError ⊎ Quotes → Quotes → Quotes × Option QuoteError
replaced (inl e) r = (r, some e)
replaced (inr r') r = (r', none)

-- `Restore`.
unfoldable pub restore : Hash → List SavedQuote → Quotes → Quotes × Option QuoteError
unfolding saved_maps replaced
restore h ss r = replaced (saved_maps h ss new_quotes) r

-- existing == quote
unfoldable pub same_quote : Quote → Quote → Bool
same_quote p q =
    str_eq p.ref q.ref
    && (if p.submit_ready then q.submit_ready else not q.submit_ready)
    && str_eq p.artifact_id q.artifact_id
    && str_eq p.artifact_digest q.artifact_digest
    && str_eq p.source_title q.source_title
    && str_eq p.url q.url
    && str_eq p.locator q.locator
    && str_eq p.exact_quote q.exact_quote
    && p.start_line == q.start_line
    && p.end_line == q.end_line
    && p.normalized_start == q.normalized_start
    && p.normalized_end == q.normalized_end

-- One quote of a merge: the registry, with an error or none.
unfoldable pub merge_quote : String → Quote → Quotes → Quotes × Option QuoteError
unfolding put_quote same_quote
merge_quote ref q r = elim (get ref r.by_ref) [
  | some existing ↦ if same_quote existing q then (r, none) else (r, some (conflicting_ref ref))
  | none ↦ elim (get (range_key q) r.by_range) [
    | some other ↦
        if str_eq other ref then (put_quote ref q r, none) else (r, some conflicting_range)
    | none ↦ (put_quote ref q r, none)
  ]
]

after_quote :
    (Quotes → Quotes × Option QuoteError) → Quotes × Option QuoteError → Quotes × Option QuoteError
after_quote next (r, some e) = (r, some e)
after_quote next (r, none) = next r

-- The loop of `Merge`; what it has added before an error stays.
unfoldable pub merge_quotes : List (String × Quote) → Quotes → Quotes × Option QuoteError
unfolding merge_quote after_quote
merge_quotes [] r = (r, none)
merge_quotes ((ref, q) ∷ qs) r = after_quote (merge_quotes qs) (merge_quote ref q r)

merge_maps : QuoteError ⊎ Quotes → Quotes → Quotes × Option QuoteError
unfolding merge_quotes
merge_maps (inl e) r = (r, some e)
merge_maps (inr m) r = merge_quotes m.by_ref r

-- `Merge`.
unfoldable pub merge : Hash → List SavedQuote → Quotes → Quotes × Option QuoteError
unfolding merge_maps saved_maps
merge h ss r = merge_maps (saved_maps h ss new_quotes) r
