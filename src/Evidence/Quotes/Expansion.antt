-- ===== src/Evidence/Quotes/Expansion.antt =====
-- internal/evidence/quote.go: `Expand`, which adds lines around a quote, and the capture of a match with
-- its context.
use r.Prelude.{
  ℕ, ◌+◌, ◌-◌, String, Bool, true, not, ◌&&◌, Option, none, some, List, [], ◌∷◌, ◌⊎◌, inl, inr, ltb,
  leb, ◌==◌, if◌then◌else◌, str_eq,
}
use r.Prelude.Int.{ℤ, is_natural, to_ℕ}
use r.Prelude.Text.{trim_space}
use r.Artifact
use r.Artifact.{Record, Registry}
use r.Artifact.Evidence.{record_of}
use r.Evidence.Normal.{
  LineStart, normalize_with_lines, line_range, byte_length, rune_count, drop_bytes, take_bytes,
}
use r.Evidence.Quotes.{
  Quote, Quotes, Match, Hash, QuoteError, empty_quote, too_long, unreadable, changed, unknown_quote,
  bad_artifact, context_out_of_bounds, line_locator, store, stored, resolve, capture_match,
}

abbrev max_captured_quote_runes : ℕ
max_captured_quote_runes = 12000

-- The last line of the text; without any the source panics, which counts as an error here.
last_line : List LineStart → Option ℕ
last_line [] = none
last_line (l ∷ []) = some l.source_line
last_line (_ ∷ l ∷ ls) = last_line (l ∷ ls)

abbrev lesser : ℕ → ℕ → ℕ
lesser m n = if ltb n m then n else m

-- The expanded quote, from the normalized text and the range of lines.
expanded : Quote → String → ℕ → ℕ → ℕ × ℕ → QuoteError ⊎ Quote
unfolding line_locator take_bytes drop_bytes rune_count
expanded base text start_line end_line (start, end) =
    let exact = trim_space (take_bytes (end - start) (drop_bytes start text)) in
    if leb end start
    then inl empty_quote
    else if ltb max_captured_quote_runes (rune_count exact)
    then inl too_long
    else inr (record {
      ref = "";
      submit_ready = true;
      artifact_id = base.artifact_id;
      artifact_digest = base.artifact_digest;
      source_title = base.source_title;
      url = base.url;
      locator = line_locator start_line end_line;
      exact_quote = exact;
      start_line = start_line;
      end_line = end_line;
      normalized_start = start;
      normalized_end = end;
    })

expand_lines : Quote → ℕ → ℕ → String × List LineStart → QuoteError ⊎ Quote
unfolding last_line expanded
expand_lines base before after (text, ls) = elim (last_line ls) [
  | none ↦ inl empty_quote
  | some last ↦
      let first = if leb base.start_line before then 1 else base.start_line - before in
      let end = lesser (base.end_line + after) last in
      expanded base text first end (line_range ls first end (byte_length text))
]

expand_content : Hash → Quote → ℕ → ℕ → Option String → QuoteError ⊎ Quote
unfolding expand_lines
expand_content h base before after none = inl (unreadable base.artifact_id)
expand_content h base before after (some content) =
    if not (str_eq (h.digest content) base.artifact_digest)
    then inl (changed base.ref)
    else expand_lines base before after (normalize_with_lines content)

expand_record :
    Hash → (String → Option String) → Quote → ℕ → ℕ → Artifact.Error ⊎ Record → QuoteError ⊎ Quote
unfolding expand_content
expand_record h read base before after (inl e) = inl (bad_artifact e)
expand_record h read base before after (inr item) =
    expand_content h base before after (read item.path)

unfoldable pub store_expanded : Hash → QuoteError ⊎ Quote → Quotes → Quotes × (QuoteError ⊎ Quote)
unfolding stored store
store_expanded h (inl e) r = (r, inl e)
store_expanded h (inr q) r = stored (store h q r)

pub is_bound : ℤ → Bool
is_bound n = is_natural n && leb (to_ℕ n) 20

abbrev pub is_zero : ℤ → Bool
is_zero n = is_natural n && to_ℕ n == 0

-- What `Expand` does once it has looked for the quote.
unfoldable pub expand_base :
    Hash
    → (String → Option String)
    → Registry
    → String
    → ℤ
    → ℤ
    → Option Quote
    → Quotes
    → Quotes × (QuoteError ⊎ Quote)
unfolding expand_record store_expanded
expand_base h read artifacts ref before after none r = (r, inl (unknown_quote ref))
expand_base h read artifacts ref before after (some base) r =
    store_expanded h
      (expand_record h read base (to_ℕ before) (to_ℕ after) (record_of base.artifact_id artifacts))
      r

-- `Expand`; the argument after the hash is `os.ReadFile`.
unfoldable pub expand :
    Hash
    → (String → Option String)
    → Registry
    → String
    → ℤ
    → ℤ
    → Quotes
    → Quotes × (QuoteError ⊎ Quote)
unfolding is_bound resolve expand_base
expand h read artifacts ref before after r =
    if is_bound before && is_bound after
    then expand_base h read artifacts ref before after (resolve ref r) r
    else (r, inl context_out_of_bounds)

-- What `CaptureMatchWithContext` does with the captured quote.
unfoldable pub with_context :
    Hash
    → (String → Option String)
    → Registry
    → ℤ
    → ℤ
    → Quotes × (QuoteError ⊎ Quote)
    → Quotes × (QuoteError ⊎ Quote)
unfolding expand
with_context h read artifacts before after (r, inl e) = (r, inl e)
with_context h read artifacts before after (r, inr base) =
    let grown = expand h read artifacts base.ref before after r in
    if is_zero before && is_zero after then (r, inr base) else grown

-- `CaptureMatchWithContext`.
unfoldable pub capture_match_with_context :
    Hash
    → (String → Option String)
    → Registry
    → String
    → Match
    → ℤ
    → ℤ
    → Quotes
    → Quotes × (QuoteError ⊎ Quote)
unfolding capture_match with_context
capture_match_with_context h read artifacts id m before after r =
    with_context h read artifacts before after (capture_match h artifacts id m r)
