-- ===== src/Evidence/Quotes.antt =====
-- internal/evidence/quote.go: the registry of quotes that a run trusts.
pub mod Expansion
pub mod Trusted
pub mod Captured
pub mod Saved
pub mod Calls
use Prim.Native.String.{◌++◌}
use r.Prelude.{
  ℕ, zero, suc, ◌+◌, ◌-◌, ◌≡◌, String, Bool, true, false, not, ◌&&◌, ◌||◌, Option, none, some, List,
  [], ◌∷◌, ◌⊎◌, inl, inr, ltb, leb, ◌==◌, if◌then◌else◌, str_eq,
}
use r.Prelude.Int.{ℤ, is_natural, is_positive, to_ℕ}
use r.Prelude.Text.{is_blank, is_empty, trim_space, concat, decimal}
use r.Prelude.Maps.{get, put, has}
use r.Artifact
use r.Artifact.{Record, Registry}
use r.Artifact.Evidence.{record_of}
use r.Evidence.Normal.{
  LineStart, normalize_with_lines, line_range, byte_length, rune_count, drop_bytes, take_bytes,
}

-- `QuoteRecord`.
pub record Quote : Type 0 where
  pub ref : String
  pub submit_ready : Bool
  pub artifact_id : String
  pub artifact_digest : String
  pub source_title : String
  pub url : String
  pub locator : String
  pub exact_quote : String
  pub start_line : ℕ
  pub end_line : ℕ
  pub normalized_start : ℕ
  pub normalized_end : ℕ

-- `QuoteRegistry`.
pub record Quotes : Type 0 where
  pub by_ref : List (String × Quote)
  pub by_range : List (String × String)

-- What a search has found in an artifact: `ArtifactSearchMatch`, as far as a quote reads it.
pub record Match : Type 0 where
  pub line : ℕ
  pub end_line : ℕ
  pub matched_text : String
  pub digest : String
  pub start : ℕ
  pub end : ℕ

-- SHA-256 in hexadecimal: of a file, and the first 16 bytes for a range. No two ranges meet in these.
pub record Hash : Type 0 where
  pub digest : String → String
  pub short : String → String
  pub short_injective : (s t : String) → short s ≡ short t → s ≡ t

pub data QuoteError : Type 0 where
  not_from_search context_out_of_bounds empty_quote too_long : QuoteError
  unknown_quote changed : String → QuoteError
  unreadable : String → QuoteError
  bad_artifact : Artifact.Error → QuoteError
  conflicting_ref : String → QuoteError
  conflicting_range : QuoteError
  invalid_snapshot duplicate_range : QuoteError
  bad_integrity duplicate_ref : String → QuoteError

-- `NewQuoteRegistry`.
abbrev pub new_quotes : Quotes
new_quotes = record { by_ref = []; by_range = [] }

-- `quoteRangeKey`.
unfoldable pub range_key : Quote → String
range_key q = concat (
    q.artifact_id
    ∷ "\0"
    ∷ q.artifact_digest
    ∷ "\0"
    ∷ decimal q.normalized_start
    ∷ "\0"
    ∷ decimal q.normalized_end
    ∷ [])

-- `lineLocator`.
unfoldable pub line_locator : ℕ → ℕ → String
line_locator start end =
    if start == end
    then concat ("line " ∷ decimal start ∷ [])
    else concat ("lines " ∷ decimal start ∷ "-" ∷ decimal end ∷ [])

-- The zero value that a map gives for a missing reference.
abbrev pub zero_quote : Quote
zero_quote = record {
  ref = "";
  submit_ready = false;
  artifact_id = "";
  artifact_digest = "";
  source_title = "";
  url = "";
  locator = "";
  exact_quote = "";
  start_line = 0;
  end_line = 0;
  normalized_start = 0;
  normalized_end = 0;
}

abbrev pub quote_or_zero : Option Quote → Quote
quote_or_zero none = zero_quote
quote_or_zero (some q) = q

unfoldable pub quote_ref : Hash → String → String
quote_ref h key = "quote-ref-" ++ h.short key

-- r.byRef[ref] = record; r.byRange[key] = ref
unfoldable pub put_quote : String → Quote → Quotes → Quotes
unfolding range_key
put_quote ref q r = record r {
  by_ref = put ref q r.by_ref;
  by_range = put (range_key q) ref r.by_range;
}

-- `store`.
unfoldable pub store : Hash → Quote → Quotes → Quotes × Quote
unfolding put_quote quote_ref
store h q r = elim (get (range_key q) r.by_range) [
  | some ref ↦ (r, quote_or_zero (get ref r.by_ref))
  | none ↦
      let named = record q { ref = quote_ref h (range_key q) } in
      (put_quote (quote_ref h (range_key q)) named r, named)
]

-- `Resolve`.
unfoldable pub resolve : String → Quotes → Option Quote
resolve ref r = get (trim_space ref) r.by_ref

captured : String → Match → Record → Quote
unfolding line_locator
captured id m item = record {
  ref = "";
  submit_ready = true;
  artifact_id = id;
  artifact_digest = m.digest;
  source_title = item.description;
  url = item.source;
  locator = line_locator m.line m.end_line;
  exact_quote = m.matched_text;
  start_line = m.line;
  end_line = m.end_line;
  normalized_start = m.start;
  normalized_end = m.end;
}

stored : Quotes × Quote → Quotes × (QuoteError ⊎ Quote)
stored (r, q) = (r, inr q)

capture_found :
    Hash → String → Match → Artifact.Error ⊎ Record → Quotes → Quotes × (QuoteError ⊎ Quote)
unfolding stored store captured
capture_found h id m (inl e) r = (r, inl (bad_artifact e))
capture_found h id m (inr item) r = stored (store h (captured id m item) r)

-- `CaptureMatch`.
unfoldable pub capture_match :
    Hash → Registry → String → Match → Quotes → Quotes × (QuoteError ⊎ Quote)
unfolding capture_found
capture_match h artifacts id m r =
    if is_empty m.digest || leb m.end m.start
    then (r, inl not_from_search)
    else capture_found h id m (record_of id artifacts) r
