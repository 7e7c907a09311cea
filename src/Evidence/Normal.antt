-- ===== src/Evidence/Normal.antt =====
-- internal/evidence/io.go: text with its white space made single spaces, and the lines that its bytes
-- come from. A text is valid UTF-8.
use Prim.Native.Char.{Char, code}
use Prim.Native.String.{◌++◌}
use r.Prelude.{
  ◌≡◌, refl, ℕ, suc, ◌+◌, ◌-◌, String, Bool, true, false, List, [], ◌∷◌, ltb, leb, ◌==◌,
  if◌then◌else◌,
}
use r.Prelude.Text.{is_space}

-- `normalizedLineStart`.
pub record LineStart : Type 0 where
  pub normalized_byte : ℕ
  pub source_line : ℕ

-- The bytes of a character, and those of a text.
abbrev pub width : Char → ℕ
width c =
    if ltb (code c) 0x80
    then 1
    else if ltb (code c) 0x800
    then 2
    else if ltb (code c) 0x10000
    then 3
    else 4

unfoldable pub byte_length : String → ℕ
byte_length String.[] = 0
byte_length (String.◌∷◌ c s) = width c + byte_length s

unfoldable pub rune_count : String → ℕ
rune_count String.[] = 0
rune_count (String.◌∷◌ c s) = suc (rune_count s)

pending_space : Bool → String → String
pending_space true s = " " ++ s
pending_space false s = s

-- A line's first character that is kept, unless the line has one already.
line_start : ℕ → ℕ → ℕ → List LineStart → List LineStart
line_start line last byte starts =
    if line == last then starts else record { normalized_byte = byte; source_line = line } ∷ starts

after_space : Bool → ℕ → ℕ
after_space true n = suc n
after_space false n = n

-- The loop of `normalizeWhitespaceWithLines`: the line, how many bytes are written, whether a space is
-- pending, and the last line that has its start.
normalize_from : ℕ → ℕ → Bool → ℕ → String → String × List LineStart
unfolding pending_space line_start after_space
normalize_from line written pending last String.[] = ("", [])
normalize_from line written pending last (String.◌∷◌ c s) =
    let here_line = if code c == 10 then suc line else line in
    let spaced = normalize_from here_line written (ltb 0 written) last s in
    let at = after_space pending written in
    let rest = normalize_from here_line (at + width c) false here_line s in
    if is_space c
    then spaced
    else (pending_space pending (String.◌∷◌ c rest.0), line_start here_line last at rest.1)

-- `normalizeWhitespaceWithLines`.
unfoldable pub normalize_with_lines : String → String × List LineStart
unfolding normalize_from
normalize_with_lines s = normalize_from 1 0 false 0 s

-- What `sort.Search` finds: the byte of the first line for which the test holds, or the end.
first_byte : (ℕ → Bool) → List LineStart → ℕ → ℕ
first_byte p [] total = total
first_byte p (l ∷ ls) total =
    let rest = first_byte p ls total in if p l.source_line then l.normalized_byte else rest

-- `normalizedLineRange`.
unfoldable pub line_range : List LineStart → ℕ → ℕ → ℕ → ℕ × ℕ
unfolding first_byte
line_range ls start_line end_line total =
    (first_byte (λ n. leb start_line n) ls total, first_byte (λ n. ltb end_line n) ls total)

-- s[n:] and s[:n], where n is at the start of a character.
unfoldable pub drop_bytes : ℕ → String → String
drop_bytes n String.[] = ""
drop_bytes n (String.◌∷◌ c s) =
    let rest = drop_bytes (n - width c) s in if n == 0 then String.◌∷◌ c s else rest

unfoldable pub take_bytes : ℕ → String → String
take_bytes n String.[] = ""
take_bytes n (String.◌∷◌ c s) =
    let rest = take_bytes (n - width c) s in if n == 0 then "" else String.◌∷◌ c rest

normal_tests :
    ((normalize_with_lines " a\tb\n\n c ").0 ≡ "a b c")
    × ((normalize_with_lines " a\tb\n\n c ").1
        ≡ record { normalized_byte = 0; source_line = 1 }
          ∷ record { normalized_byte = 4; source_line = 3 }
          ∷ [])
    × (take_bytes 3 (drop_bytes 2 "é€x") ≡ "€")
unfolding normalize_with_lines take_bytes drop_bytes
normal_tests = (refl, refl, refl)
