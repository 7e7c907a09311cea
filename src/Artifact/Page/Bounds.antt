-- ===== src/Artifact/Page/Bounds.antt =====
-- internal/artifact/registry.go, `ReadPage`: what a page is of its file.
use r.Prelude.{
  ℕ, zero, suc, ◌+◌, ◌≤◌, ◌<◌, ◌≡◌, refl, subst, ◌∙◌, ◌⊎◌, inl, inr, String, true, false, ◌&&◌,
  some, List, arith, ltb, ◌==◌, length, Bool-cases, Option-cases,
}
use r.Prelude.Int.{pos}
use r.Prelude.Maps.{get}
use r.Artifact.{Entry, Registry}
use r.Artifact.Page.{
  Page, Opened, cannot_open, no_info, folder, unreadable, holding, Files, take, drop, valid,
  valid_prefix, page_of, cut_page, starts_character, read_bytes, read_opened, open_entry,
  read_found, read_page,
}
use r.Artifact.Page.Bytes.{
  length-take, take-take, length-take_le, length-drop, valid_prefix-valid, valid_prefix-take,
  length-valid_prefix_le,
}

-- A page of a file: the bytes from the offset up to the next one, whole characters and at most the
-- bound of them, and at least one unless the offset is the end.
pub record IsPage (bs : List ℕ) (offset max : ℕ) (p : Page) : Type 0 where
  pub within : offset ≤ length bs
  pub from_offset : p.offset_bytes ≡ offset
  pub total : p.total_bytes ≡ length bs
  pub content : p.content ≡ take (length p.content) (drop offset bs)
  pub whole : valid p.content ≡ true
  pub bounded : length p.content ≤ max
  pub next : p.next_offset_bytes ≡ offset + length p.content
  pub next_within : p.next_offset_bytes ≤ length bs
  pub cut : p.truncated ≡ ltb p.next_offset_bytes (length bs)
  pub progress : (offset ≡ length bs) ⊎ (0 < length p.content)

-- The content of a page of the bytes from an offset.
abbrev pub content_of : ℕ → List ℕ → List ℕ
content_of max bs = valid_prefix (length (take max bs)) (take max bs)

pub length-content_of : (max : ℕ) (bs : List ℕ) → length (content_of max bs) ≤ max
length-content_of max bs =
    omega (arith, length-valid_prefix_le (length (take max bs)) (take max bs), length-take max bs)

pub content_of-take :
    (max : ℕ) (bs : List ℕ) → content_of max bs ≡ take (length (content_of max bs)) bs
content_of-take max bs =
    valid_prefix-take (length (take max bs)) (take max bs)
    ∙ take-take (length (content_of max bs)) max bs (length-content_of max bs)

length-content_of_le : (max : ℕ) (bs : List ℕ) → length (content_of max bs) ≤ length bs
length-content_of_le max bs =
    omega
      (arith, length-valid_prefix_le (length (take max bs)) (take max bs), length-take_le max bs)

progress_of :
    (offset total size : ℕ)
    → offset ≤ total
    → (size == 0 && ltb offset total) ≡ false
    → (offset ≡ total) ⊎ (0 < size)
progress_of offset total zero le fits = inl (ground arith)
progress_of offset total (suc size) le fits = inr (omega arith)

-- The page that `ReadPage` makes of this content.
abbrev pub page_at : ℕ → ℕ → List ℕ → Page
page_at offset max bs = record {
  content = content_of max (drop offset bs);
  offset_bytes = offset;
  next_offset_bytes = offset + length (content_of max (drop offset bs));
  total_bytes = length bs;
  truncated = ltb (offset + length (content_of max (drop offset bs))) (length bs);
}

pub page_at-IsPage :
    (offset max : ℕ) (bs : List ℕ)
    → offset ≤ length bs
    → (length (content_of max (drop offset bs)) == 0 && ltb offset (length bs)) ≡ false
    → IsPage bs offset max (page_at offset max bs)
page_at-IsPage offset max bs le fits = record {
  within = le;
  from_offset = refl;
  total = refl;
  content = content_of-take max (drop offset bs);
  whole = valid_prefix-valid (length (take max (drop offset bs))) (take max (drop offset bs));
  bounded = length-content_of max (drop offset bs);
  next = refl;
  next_within = omega (arith, length-content_of_le max (drop offset bs), length-drop offset bs le);
  cut = refl;
  progress = progress_of offset (length bs) (length (content_of max (drop offset bs))) le fits;
}

cut_page-IsPage :
    (offset max : ℕ) (bs : List ℕ) (p : Page)
    → offset ≤ length bs
    → cut_page offset max (length bs) (drop offset bs) ≡ inr p
    → IsPage bs offset max p
unfolding cut_page page_of
cut_page-IsPage offset max bs p le q =
    elim (Bool-cases (length (content_of max (drop offset bs)) == 0 && ltb offset (length bs))) [
      | inl small ↦ cc (rw small at q)
      | inr fits ↦
          let e : page_at offset max bs ≡ p = cc (rw fits at q) in
          subst (IsPage bs offset max) e (page_at-IsPage offset max bs le fits)
    ]

read_bytes-IsPage :
    (offset max : ℕ) (bs : List ℕ) (p : Page)
    → read_bytes offset max bs ≡ inr p
    → IsPage bs offset max p
unfolding read_bytes
read_bytes-IsPage offset max bs p q = elim (Bool-cases (ltb (length bs) offset)) [
  | inl beyond ↦ cc (rw beyond at q)
  | inr within ↦ elim (Bool-cases (starts_character (drop offset bs))) [
    | inl starts ↦
        cut_page-IsPage offset max bs p (ground (arith, within)) (rw (within, starts) at q)
    | inr inside ↦ cc (rw (within, inside) at q)
  ]
]

read_opened-IsPage :
    (id : String) (offset max : ℕ) (o : Opened) (p : Page)
    → read_opened id offset max o ≡ inr p
    → (bs : List ℕ) × (o ≡ holding bs) × IsPage bs offset max p
unfolding read_opened
read_opened-IsPage id offset max cannot_open p q = cc
read_opened-IsPage id offset max no_info p q = cc
read_opened-IsPage id offset max folder p q = cc
read_opened-IsPage id offset max (unreadable size) p q = elim (Bool-cases (ltb size offset)) [
  | inl beyond ↦ cc (rw beyond at q)
  | inr within ↦ cc (rw within at q)
]
read_opened-IsPage id offset max (holding bs) p q = (bs, refl, read_bytes-IsPage offset max bs p q)

-- A page that `ReadPage` returns is the part of the artifact's file from the offset on that ends with a
-- whole character within the bound: it starts and ends within the file, is valid UTF-8 and not empty
-- but at the end, names the offset after it, and is truncated exactly if the file goes on.
pub read_page-IsPage :
    (fs : Files) (r : Registry) (id : String) (offset max : ℕ) (p : Page)
    → read_page fs r id (pos offset) (pos max) ≡ inr p
    → (e : Entry) × (bs : List ℕ) × (get id r.entries ≡ some e)
      × (open_entry fs e ≡ holding bs)
      × IsPage bs offset max p
unfolding read_page read_found
read_page-IsPage fs r id offset zero p q = cc
read_page-IsPage fs r id offset (suc max) p q = elim (Option-cases (get id r.entries)) [
  | inl n ↦ cc (rw (n, read_found) at q)
  | inr (e, n) ↦
      let (bs, o, g) =
        read_opened-IsPage id offset (suc max) (open_entry fs e) p (rw (n, read_found) at q) in
      (e, bs, n, o, g)
]
