-- ===== src/Tests/Pages.antt =====
-- `ReadPage` (internal/artifact/registry.go) on a file of six characters.
use r.Prelude.{arith, ℕ, ◌≡◌, refl, inr, true, some, List, [], ◌∷◌}
use r.Prelude.Int.{pos}
use r.Prelude.Maps.{get}
use r.Artifact.{Entry, Registry, new_registry, zero_entry}
use r.Artifact.Page.{
  Files, Page, holding, cannot_open, open_entry, read_page, read_bytes, read_opened, read_found,
  valid, valid_after, valid_prefix, rune_start, lead, cut_page, page_of, starts_character,
}
use r.Artifact.Page.Bounds.{IsPage, read_page-IsPage}
use r.Artifact.Page.Reading.{read_all, read_all-whole}

-- "h" and the bytes of four accented letters and a sign of three bytes
abbrev bytes : List ℕ
bytes = 0x68 ∷ 0xc3 ∷ 0xa9 ∷ 0xc3 ∷ 0xa8 ∷ 0xe2 ∷ 0x82 ∷ 0xac ∷ 0xc3 ∷ 0xa0 ∷ 0xc3 ∷ 0xb9 ∷ []

abbrev fs : Files
fs = record { open_in = λ root path. cannot_open; open_file = λ path. holding bytes }

abbrev file : Entry
file = record zero_entry { purposes = "evidence" ∷ [] }

abbrev registry : Registry
registry = record new_registry { entries = ("x", file) ∷ [] }

abbrev second_page : Page
second_page = record {
  content = 0xc3 ∷ 0xa8 ∷ [];
  offset_bytes = 3;
  next_offset_bytes = 5;
  total_bytes = 12;
  truncated = true;
}

second_page_read : read_page fs registry "x" (pos 3) (pos 4) ≡ inr second_page
unfolding read_page read_found read_opened read_bytes cut_page page_of valid_prefix valid
    valid_after lead rune_start starts_character open_entry get
second_page_read = refl

read_page-IsPage_example :
    (e : Entry) × (bs : List ℕ) × (get "x" registry.entries ≡ some e)
    × (open_entry fs e ≡ holding bs)
    × IsPage bs 3 4 second_page
read_page-IsPage_example = read_page-IsPage fs registry "x" 3 4 second_page second_page_read

known : get "x" registry.entries ≡ some file
unfolding get
known = refl

opened : open_entry fs file ≡ holding bytes
unfolding open_entry
opened = refl

bytes_valid : valid bytes ≡ true
unfolding valid valid_after lead
bytes_valid = refl

read_all-whole_example : read_all fs registry "x" 4 13 0 ≡ some bytes
read_all-whole_example =
    read_all-whole fs registry "x" file bytes known opened 4 (omega arith) bytes_valid
