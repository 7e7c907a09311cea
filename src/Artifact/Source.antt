-- ===== src/Artifact/Source.antt =====
-- internal/artifact/registry.go: the source of a document of evidence, in its header. A document is a
-- text, as it is valid UTF-8.
use Prim.Native.String.{◌++◌}
use r.Prelude.{
  ℕ, zero, suc, String, not, ◌||◌, Option, none, some, List, [], ◌∷◌, ◌≡◌, refl, if◌then◌else◌,
}
use r.Prelude.Text.{is_empty, is_blank, trim_space, cut_prefix, fields, lines, join}

-- lines[:n], for a list that may be shorter
take : ℕ → List String → List String
take zero ls = []
take (suc n) [] = []
take (suc n) (l ∷ ls) = l ∷ take n ls

-- The value of a header line, if it has one that is not blank.
value_of : Option String → Option String
value_of none = none
value_of (some v) = if is_blank v then none else some (trim_space v)

source_of_line : String → Option String
unfolding value_of
source_of_line l = elim (value_of (cut_prefix "- Source:" (trim_space l))) [
  | some v ↦ some v
  | none ↦ value_of (cut_prefix "- URL:" (trim_space l))
]

first_source : List String → String
unfolding source_of_line
first_source [] = ""
first_source (l ∷ ls) = elim (source_of_line l) [ some v ↦ v | none ↦ first_source ls ]

-- `sourceFromContent`.
unfoldable pub source_from_content : String → String
unfolding take first_source
source_from_content content = first_source (take 64 (lines content))

-- strings.Join(strings.Fields(source), " ")
unfoldable pub normalized : String → String
normalized source = join " " (fields source)

-- `withSourceHeader`.
unfoldable pub with_source_header : String → String → String
unfolding normalized source_from_content
with_source_header content source =
    if is_empty (normalized source) || not (is_empty (source_from_content content))
    then content
    else "- Source: " ++ normalized source ++ "\n\n" ++ content

source_tests :
    (source_from_content "# T\n - URL:  https://a.b \n" ≡ "https://a.b")
    × (with_source_header "# T\n" " a  b" ≡ "- Source: a b\n\n# T\n")
    × (source_from_content (with_source_header "# T\n" " a  b") ≡ "a b")
    × (with_source_header "- Source: x\n" "y" ≡ "- Source: x\n")
unfolding source_from_content with_source_header trim_space cut_prefix fields lines join is_blank
source_tests = (refl, refl, refl, refl)
