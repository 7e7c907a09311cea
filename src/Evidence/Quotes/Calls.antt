-- ===== src/Evidence/Quotes/Calls.antt =====
-- internal/evidence/quote.go: sequences of calls on the registry of quotes.
use r.Prelude.{String, Option, List, [], ◌∷◌}
use r.Prelude.Int.{ℤ}
use r.Artifact.{Registry}
use r.Evidence.Quotes.{Quotes, Match, Hash, capture_match, new_quotes}
use r.Evidence.Quotes.Expansion.{expand, capture_match_with_context}
use r.Evidence.Quotes.Trusted.{Keeps, IsTrusted}
use r.Evidence.Quotes.Captured.{
  capture_match-Captures, capture_with_context-Captures, expand-Captures,
}
use r.Evidence.Quotes.Saved.{SavedQuote, merge, restore}
use r.Evidence.Quotes.Saved.Trust.{merge-Stays, restore-IsTrusted, new-IsTrusted}

-- The files and the artifact registry are those of the time of the call.
pub data Call : Type 0 where
  capture_call : Registry → String → Match → Call
  context_call : (String → Option String) → Registry → String → Match → ℤ → ℤ → Call
  expand_call : (String → Option String) → Registry → String → ℤ → ℤ → Call
  merge_call : List SavedQuote → Call

module _ (h : Hash) where
  abbrev call : Call → Quotes → Quotes
  call (capture_call artifacts id m) r = (capture_match h artifacts id m r).0
  call (context_call read artifacts id m before after) r =
      (capture_match_with_context h read artifacts id m before after r).0
  call (expand_call read artifacts ref before after) r =
      (expand h read artifacts ref before after r).0
  call (merge_call ss) r = (merge h ss r).0

  unfoldable pub run : List Call → Quotes → Quotes
  run [] r = r
  run (c ∷ cs) r = run cs (call c r)

  call-IsTrusted :
      (c : Call) (r : Quotes) → IsTrusted h r → IsTrusted h (call c r) × Keeps r (call c r)
  call-IsTrusted (capture_call artifacts id m) r v =
      let c = capture_match-Captures h artifacts id m r v in (c.trusted, c.kept)
  call-IsTrusted (context_call read artifacts id m before after) r v =
      let c = capture_with_context-Captures h read artifacts id m before after r v in
      (c.trusted, c.kept)
  call-IsTrusted (expand_call read artifacts ref before after) r v =
      let c = expand-Captures h read artifacts ref before after r v in (c.trusted, c.kept)
  call-IsTrusted (merge_call ss) r v = merge-Stays h ss r v

  run-IsTrusted :
      (cs : List Call) (r : Quotes) → IsTrusted h r → IsTrusted h (run cs r) × Keeps r (run cs r)
  unfolding run
  run-IsTrusted [] r v = (v, λ ref q at. at)
  run-IsTrusted (c ∷ cs) r v =
      let (trusted, kept) = call-IsTrusted c r v in
      let (later, rest) = run-IsTrusted cs (call c r) trusted in
      (later, λ ref q at. rest ref q (kept ref q at))

  -- A registry of quotes that starts from a checkpoint, or empty where that is refused, keeps under
  -- each reference the same quote for ever, whatever is captured, expanded and merged; a quote stands
  -- under its own reference, which is the hash of its range, and a range under one reference.
  pub restore-run-Keeps :
      (ss : List SavedQuote) (cs : List Call)
      → let start = (restore h ss new_quotes).0 in
        Keeps start (run cs start) × IsTrusted h (run cs start)
  restore-run-Keeps ss cs =
      let start = (restore h ss new_quotes).0 in
      let (trusted, kept) =
        run-IsTrusted cs start (restore-IsTrusted h ss new_quotes (new-IsTrusted h)) in
      (kept, trusted)
