-- ===== src/Prelude/Text.antt =====
-- What the source uses of Go's `strings` and `fmt`: white space, `TrimSpace`, and the `%03d` of
-- `Sprintf`.
pub mod Sorting
use Prim.Native.Char.{Char, code}
use Prim.Native.Nat.{Ordering, ◌/◌, ◌%◌}
use Prim.Native.String
use Prim.Native.String.{◌++◌}
use r.Prelude.{
  List, [], ◌∷◌, ℕ, zero, suc, String, Bool, true, false, ◌&&◌, ◌||◌, leb, ltb, ◌==◌, if◌then◌else◌,
  ◌≡◌, refl, Option, none, some,
}

-- unicode.IsSpace
abbrev pub is_space : Char → Bool
is_space c =
    let n = code c in
    (leb 9 n && leb n 13)
    || n == 32
    || n == 0x85
    || n == 0xa0
    || n == 0x1680
    || (leb 0x2000 n && leb n 0x200a)
    || n == 0x2028
    || n == 0x2029
    || n == 0x202f
    || n == 0x205f
    || n == 0x3000

abbrev pub is_empty : String → Bool
is_empty String.[] = true
is_empty (String.◌∷◌ _ _) = false

trim_left : String → String
trim_left String.[] = ""
trim_left (String.◌∷◌ c s) = let rest = trim_left s in if is_space c then rest else String.◌∷◌ c s

trim_right : String → String
trim_right String.[] = ""
trim_right (String.◌∷◌ c s) =
    let rest = trim_right s in if is_space c && is_empty rest then "" else String.◌∷◌ c rest

-- strings.TrimSpace
unfoldable pub trim_space : String → String
unfolding trim_left trim_right
trim_space s = trim_right (trim_left s)

-- The test strings.TrimSpace(s) == "".
unfoldable pub is_blank : String → Bool
unfolding trim_space
is_blank s = is_empty (trim_space s)

-- `+` over a whole list of strings.
abbrev pub concat : List String → String
concat [] = ""
concat (s ∷ ss) = s ++ concat ss

insert_sorted : String → List String → List String
insert_sorted s [] = s ∷ []
insert_sorted s (t ∷ ts) =
    let rest = insert_sorted s ts in
    elim (String.compare s t) [ Ordering.gt ↦ t ∷ rest | _ ↦ s ∷ t ∷ ts ]

-- sort.Strings
unfoldable pub sort_strings : List String → List String
unfolding insert_sorted
sort_strings [] = []
sort_strings (s ∷ ss) = insert_sorted s (sort_strings ss)

digit : ℕ → String
digit zero = "0"
digit (suc zero) = "1"
digit (suc (suc zero)) = "2"
digit (suc (suc (suc zero))) = "3"
digit (suc (suc (suc (suc zero)))) = "4"
digit (suc (suc (suc (suc (suc zero))))) = "5"
digit (suc (suc (suc (suc (suc (suc zero)))))) = "6"
digit (suc (suc (suc (suc (suc (suc (suc zero))))))) = "7"
digit (suc (suc (suc (suc (suc (suc (suc (suc zero)))))))) = "8"
digit _ = "9"

-- The decimal digits of `n`, most significant first; there are at most `n + 1` of them.
decimal_fuel : ℕ → ℕ → String
unfolding digit
decimal_fuel zero n = ""
decimal_fuel (suc f) n =
    let rest = decimal_fuel f (n / 10) in if ltb n 10 then digit n else rest ++ digit (n % 10)

unfoldable pub decimal : ℕ → String
unfolding decimal_fuel
decimal n = decimal_fuel (suc n) n

-- fmt.Sprintf("%03d", n)
unfoldable pub pad3 : ℕ → String
unfolding decimal
pad3 n = if ltb n 10 then "00" ++ decimal n else if ltb n 100 then "0" ++ decimal n else decimal n

pad3_tests :
    ((pad3 7 ++ pad3 42 ++ pad3 1234) ≡ "0070421234")
    × (trim_space "  a b\t" ≡ "a b")
    × (sort_strings ("c2" ∷ "c10" ∷ "a" ∷ []) ≡ "a" ∷ "c10" ∷ "c2" ∷ [])
unfolding pad3 trim_space sort_strings
pad3_tests = (refl, refl, refl)

-- strings.CutPrefix
unfoldable pub cut_prefix : String → String → Option String
cut_prefix String.[] s = some s
cut_prefix (String.◌∷◌ c p) String.[] = none
cut_prefix (String.◌∷◌ c p) (String.◌∷◌ d s) = if code c == code d then cut_prefix p s else none

-- strings.HasPrefix(s, prefix)
unfoldable pub has_prefix : String → String → Bool
unfolding cut_prefix
has_prefix p s = elim (cut_prefix p s) [ none ↦ false | some _ ↦ true ]

add_char : Bool → Char → List String → List String
add_char true c ws = "" ∷ ws
add_char false c [] = String.◌∷◌ c "" ∷ []
add_char false c (w ∷ ws) = String.◌∷◌ c w ∷ ws

-- The parts of a text between the characters of which the test holds.
unfoldable pub split_by : (Char → Bool) → String → List String
unfolding add_char
split_by p String.[] = "" ∷ []
split_by p (String.◌∷◌ c s) = add_char (p c) c (split_by p s)

without_empty : List String → List String
without_empty [] = []
without_empty (s ∷ ss) = let rest = without_empty ss in if is_empty s then rest else s ∷ rest

-- strings.Fields
unfoldable pub fields : String → List String
unfolding split_by without_empty
fields s = without_empty (split_by is_space s)

-- strings.Split(s, "\n")
unfoldable pub lines : String → List String
unfolding split_by
lines s = split_by (λ c. code c == 10) s

-- strings.Join
unfoldable pub join : String → List String → String
join sep [] = ""
join sep (s ∷ []) = s
join sep (s ∷ t ∷ ss) = s ++ sep ++ join sep (t ∷ ss)

text_tests :
    (join " " (fields "  a\tbc \n d ") ≡ "a bc d")
    × (lines "a\n\nb\n" ≡ "a" ∷ "" ∷ "b" ∷ "" ∷ [])
    × (cut_prefix "- URL:" "- URL: x" ≡ some " x")
    × (cut_prefix "- URL:" "- UR" ≡ none)
unfolding join fields lines cut_prefix
text_tests = (refl, refl, refl, refl)
