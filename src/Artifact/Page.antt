-- ===== src/Artifact/Page.antt =====
-- internal/artifact/registry.go: `ReadPage`, a bounded part of an artifact's file, and what it uses of
-- `unicode/utf8`. A file is its bytes, which do not change while a page is read.
pub mod Bytes
pub mod Bounds
pub mod Reading
use r.Prelude.{
  ℕ, zero, suc, ◌+◌, String, Bool, true, false, not, ◌&&◌, ◌||◌, Option, none, some, List, [], ◌∷◌,
  ◌⊎◌, inl, inr, leb, ltb, ◌==◌, if◌then◌else◌, length,
}
use r.Prelude.Int.{ℤ, pos, negsuc, is_positive}
use r.Prelude.Text.{is_empty}
use r.Prelude.Maps.{get}
use r.Artifact.{Entry, Registry}

abbrev pub take : ℕ → List ℕ → List ℕ
take zero bs = []
take (suc n) [] = []
take (suc n) (b ∷ bs) = b ∷ take n bs

abbrev pub drop : ℕ → List ℕ → List ℕ
drop zero bs = bs
drop (suc n) [] = []
drop (suc n) (b ∷ bs) = drop n bs

-- How many bytes follow the first byte of a character, and the range of the second.
pub record Lead : Type 0 where
  pub more : ℕ
  pub lowest : ℕ
  pub highest : ℕ

abbrev lead_of : ℕ → ℕ → ℕ → Option Lead
lead_of more lowest highest = some (record { more = more; lowest = lowest; highest = highest })

unfoldable pub lead : ℕ → Option Lead
lead b =
    if ltb b 0x80
    then lead_of 0 0x80 0xbf
    else if ltb b 0xc2
    then none
    else if ltb b 0xe0
    then lead_of 1 0x80 0xbf
    else if b == 0xe0
    then lead_of 2 0xa0 0xbf
    else if b == 0xed
    then lead_of 2 0x80 0x9f
    else if ltb b 0xf0
    then lead_of 2 0x80 0xbf
    else if b == 0xf0
    then lead_of 3 0x90 0xbf
    else if ltb b 0xf4
    then lead_of 3 0x80 0xbf
    else if b == 0xf4
    then lead_of 3 0x80 0x8f
    else none

-- The bytes end with a whole character; the first ones belong to a character that has begun.
unfoldable pub valid_after : ℕ → ℕ → ℕ → List ℕ → Bool
valid_after zero lowest highest [] = true
valid_after zero lowest highest (b ∷ bs) = elim (lead b) [
  | none ↦ false
  | some l ↦ valid_after l.more l.lowest l.highest bs
]
valid_after (suc n) lowest highest [] = false
valid_after (suc n) lowest highest (b ∷ bs) =
    leb lowest b && leb b highest && valid_after n 0x80 0xbf bs

-- utf8.Valid
unfoldable pub valid : List ℕ → Bool
valid bs = valid_after 0 0 0 bs

-- utf8.RuneStart
unfoldable pub rune_start : ℕ → Bool
rune_start b = ltb b 0x80 || leb 0xc0 b

-- What opening a file, its `Stat` and its reads give: its bytes, or its size where a read fails.
pub data Opened : Type 0 where
  cannot_open : Opened
  no_info : Opened
  folder : Opened
  unreadable : ℕ → Opened
  holding : List ℕ → Opened

-- The file system: a path below a directory that no link leaves, and a path.
pub record Files : Type 0 where
  pub open_in : String → String → Opened
  pub open_file : String → Opened

pub data PageError : Type 0 where
  negative_offset : PageError
  bound_not_positive : PageError
  unknown : String → PageError
  not_opened : String → PageError
  no_stat : String → PageError
  not_a_file : String → PageError
  offset_beyond : ℕ → ℕ → PageError
  not_a_boundary : ℕ → PageError
  not_read : String → PageError
  bound_too_small : ℕ → PageError

-- `Page`.
pub record Page : Type 0 where
  pub content : List ℕ
  pub offset_bytes : ℕ
  pub next_offset_bytes : ℕ
  pub total_bytes : ℕ
  pub truncated : Bool

-- The loop that takes the last byte away while the rest is not valid, from a prefix of n bytes.
unfoldable pub valid_prefix : ℕ → List ℕ → List ℕ
valid_prefix zero bs = []
valid_prefix (suc n) bs =
    let rest = valid_prefix n bs in if valid (take (suc n) bs) then take (suc n) bs else rest

unfoldable pub page_of : ℕ → ℕ → ℕ → List ℕ → PageError ⊎ Page
page_of offset max total content =
    if length content == 0 && ltb offset total
    then inl (bound_too_small max)
    else inr (record {
      content = content;
      offset_bytes = offset;
      next_offset_bytes = offset + length content;
      total_bytes = total;
      truncated = ltb (offset + length content) total;
    })

-- The page of the bytes from the offset on.
unfoldable pub cut_page : ℕ → ℕ → ℕ → List ℕ → PageError ⊎ Page
unfolding page_of valid_prefix
cut_page offset max total bs =
    page_of offset max total (valid_prefix (length (take max bs)) (take max bs))

unfoldable pub starts_character : List ℕ → Bool
starts_character [] = true
starts_character (b ∷ bs) = rune_start b

unfoldable pub read_bytes : ℕ → ℕ → List ℕ → PageError ⊎ Page
unfolding cut_page starts_character
read_bytes offset max bs =
    if ltb (length bs) offset
    then inl (offset_beyond offset (length bs))
    else if not (starts_character (drop offset bs))
    then inl (not_a_boundary offset)
    else cut_page offset max (length bs) (drop offset bs)

unfoldable pub read_opened : String → ℕ → ℕ → Opened → PageError ⊎ Page
unfolding read_bytes
read_opened id offset max cannot_open = inl (not_opened id)
read_opened id offset max no_info = inl (no_stat id)
read_opened id offset max folder = inl (not_a_file id)
read_opened id offset max (unreadable size) =
    if ltb size offset then inl (offset_beyond offset size) else inl (not_read id)
read_opened id offset max (holding bs) = read_bytes offset max bs

unfoldable pub open_entry : Files → Entry → Opened
open_entry fs e =
    if is_empty e.directory_root
    then fs.open_file e.item.path
    else fs.open_in e.directory_root e.relative_path

unfoldable pub read_found : Files → String → ℕ → ℕ → Option Entry → PageError ⊎ Page
unfolding read_opened open_entry
read_found fs id offset max none = inl (unknown id)
read_found fs id offset max (some e) = read_opened id offset max (open_entry fs e)

-- `Registry.ReadPage`.
unfoldable pub read_page : Files → Registry → String → ℤ → ℤ → PageError ⊎ Page
unfolding read_found
read_page fs r id (negsuc n) max = inl negative_offset
read_page fs r id (pos offset) (negsuc n) = inl bound_not_positive
read_page fs r id (pos offset) (pos zero) = inl bound_not_positive
read_page fs r id (pos offset) (pos (suc max)) =
    read_found fs id offset (suc max) (get id r.entries)
