-- ===== src/Tests/Quotes.antt =====
-- Tests of internal/evidence/quote.go: a quote of a checkpoint, another that is captured, and its
-- expansion by a line.
use r.Prelude.{String, ◌≡◌, refl, true, Option, none, some, List, [], ◌∷◌}
use r.Prelude.Int.{pos}
use r.Prelude.Maps.{get, put, has}
use r.Prelude.Text.{is_blank, decimal}
use r.Artifact.{Entry, Registry, new_registry}
use r.Artifact.Evidence.{record_of}
use r.Evidence.Normal.{normalize_with_lines, line_range}
use r.Evidence.Quotes.{Quote, Match, Hash, new_quotes, quote_ref, resolve, capture_match}
use r.Evidence.Quotes.Expansion.{expand}
use r.Evidence.Quotes.Trusted.{Keeps, IsTrusted}
use r.Evidence.Quotes.Saved.{SavedQuote, restore, merge}
use r.Evidence.Quotes.Calls.{Call, capture_call, expand_call, merge_call, run, restore-run-Keeps}

abbrev hash : Hash
hash = record { digest = λ s. s; short = λ s. s; short_injective = λ s t q. q }

abbrev content : String
content = "one\n two\nthree"

abbrev entry : Entry
entry = record {
  item = record {
    id = "artifact-1";
    name = "";
    path = "/w/a.md";
    description = "a page";
    kind = "artifact";
    artifact_type = "file";
    purpose = "evidence";
    source = "https://a.b";
  };
  workspace = "/w";
  directory_root = "";
  relative_path = "";
  purposes = "evidence" ∷ [];
}

abbrev artifacts : Registry
artifacts = record new_registry { entries = ("artifact-1", entry) ∷ []; order = "artifact-1" ∷ [] }

abbrev found : Match
found = record {
  line = 2;
  end_line = 2;
  matched_text = "two";
  digest = content;
  start = 4;
  end = 7;
}

abbrev saved : SavedQuote
saved = record {
  ref = "quote-ref-artifact-1\0d\00\03";
  submit_ready = true;
  artifact_id = "artifact-1";
  artifact_digest = "d";
  source_title = "a page";
  url = "https://a.b";
  locator = "line 1";
  exact_quote = "one";
  start_line = pos 1;
  end_line = pos 1;
  normalized_start = pos 0;
  normalized_end = pos 3;
}

abbrev captured_ref : String
captured_ref = "quote-ref-artifact-1\0one\n two\nthree\04\07"

abbrev calls : List Call
calls =
    capture_call artifacts "artifact-1" found
    ∷ expand_call (λ p. some content) artifacts captured_ref (pos 1) (pos 0)
    ∷ merge_call (saved ∷ [])
    ∷ []

restore-run-Keeps_example :
    Keeps
      (restore hash (saved ∷ []) new_quotes).0
      (run hash calls (restore hash (saved ∷ []) new_quotes).0)
    × IsTrusted hash (run hash calls (restore hash (saved ∷ []) new_quotes).0)
restore-run-Keeps_example = restore-run-Keeps hash (saved ∷ []) calls

-- The text of a quote, and none for an error or a missing one.
abbrev text_of : Option Quote → String
text_of none = ""
text_of (some q) = q.exact_quote

abbrev two_lines : String
two_lines = "quote-ref-artifact-1\0one\n two\nthree\00\08"

quotes-resolve :
    let r = run hash calls (restore hash (saved ∷ []) new_quotes).0 in
    (text_of (resolve "quote-ref-artifact-1\0d\00\03" r) ≡ "one")
    × (text_of (resolve captured_ref r) ≡ "two")
    × (text_of (resolve two_lines r) ≡ "one two")
unfolding run resolve get merge is_blank quote_ref decimal has put expand capture_match record_of
    restore normalize_with_lines line_range
quotes-resolve = (refl, refl, refl)
