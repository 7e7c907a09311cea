-- ===== src/Artifact/Page/Reading.antt =====
-- internal/artifact/registry.go, `ReadPage`: reading a file of valid UTF-8 page after page.
use r.Prelude.{
  ℕ, zero, suc, ◌+◌, ◌≤◌, ◌<◌, ◌≡◌, refl, sym, ap, ◌∙◌, inl, inr, String, true, false, ◌&&◌, Option,
  none, some, List, [], ◌∷◌, ◌++◌, arith, ltb, ◌==◌, if◌then◌else◌, length, Bool-cases,
}
use mathlib.Core.Option
use mathlib.Core.List.{append-nil}
use r.Prelude.Int.{pos}
use r.Prelude.Maps.{get}
use r.Artifact.{Entry, Registry}
use r.Artifact.Page.{
  holding, Files, take, drop, valid, page_of, cut_page, read_bytes, read_opened, open_entry,
  read_found, read_page,
}
use r.Artifact.Page.Bytes.{
  take-append-drop, take-take, drop-drop, drop-all, length-take_ge, length-drop, valid-rest,
  valid-starts, first_character, length-valid_prefix_ge, valid_prefix-valid,
}
use r.Artifact.Page.Bounds.{content_of, content_of-take, page_at, page_at-IsPage}

-- A reader that asks for the next page while the last one is truncated, for at most `fuel` pages.
unfoldable pub read_all : Files → Registry → String → ℕ → ℕ → ℕ → Option (List ℕ)
read_all fs r id max zero offset = none
read_all fs r id max (suc fuel) offset = elim (read_page fs r id (pos offset) (pos max)) [
  | inl e ↦ none
  | inr p ↦
      if p.truncated
      then Option.map (λ rest. p.content ++ rest) (read_all fs r id max fuel p.next_offset_bytes)
      else some p.content
]

-- Four bytes hold the next character.
content_of-progress :
    (max : ℕ) (b : ℕ) (bs : List ℕ)
    → 4 ≤ max
    → valid (b ∷ bs) ≡ true
    → 0 < length (content_of max (b ∷ bs))
content_of-progress max b bs h v =
    let (k, positive, small, within, whole) = first_character b bs v in
    omega (
      arith,
      length-valid_prefix_ge k (length (take max (b ∷ bs))) (take max (b ∷ bs))
          (rw (take-take k max (b ∷ bs) (omega arith)) whole)
          (length-take_ge k max (b ∷ bs) (omega arith) within)
          (length-take_ge k max (b ∷ bs) (omega arith) within),
    )

content_fits :
    (max offset : ℕ) (bs rest : List ℕ)
    → 4 ≤ max
    → drop offset bs ≡ rest
    → offset ≤ length bs
    → valid rest ≡ true
    → (length (content_of max (drop offset bs)) == 0 && ltb offset (length bs)) ≡ false
content_fits max offset bs [] h e le v =
    let empty : length (drop offset bs) ≡ 0 = ap (λ (l : List ℕ). length l) e in
    ground (arith, length-drop offset bs le, empty)
content_fits max offset bs (b ∷ rest) h e le v =
    rw e (ground (arith, content_of-progress max b rest h v))

read_bytes_valid :
    (max offset : ℕ) (bs : List ℕ)
    → 4 ≤ max
    → offset ≤ length bs
    → valid (drop offset bs) ≡ true
    → read_bytes offset max bs ≡ inr (page_at offset max bs)
unfolding read_bytes cut_page page_of
read_bytes_valid max offset bs h le v =
    let in_file : ltb (length bs) offset ≡ false = ground (arith, le) in
    rw
      (
        in_file,
        valid-starts (drop offset bs) v,
        content_fits max offset bs (drop offset bs) h refl le v,
      )
      refl

module _ (fs : Files) (r : Registry) (id : String) (e : Entry) (bs : List ℕ)
    (known : get id r.entries ≡ some e) (opened : open_entry fs e ≡ holding bs) where
  read_page_valid :
      (max offset : ℕ)
      → 4 ≤ max
      → offset ≤ length bs
      → valid (drop offset bs) ≡ true
      → read_page fs r id (pos offset) (pos max) ≡ inr (page_at offset max bs)
  unfolding read_page read_found read_opened
  read_page_valid zero offset h le v = absurd (omega arith)
  read_page_valid (suc max) offset h le v =
      rw (known, read_found)
        (rw (opened, read_opened) (read_bytes_valid (suc max) offset bs h le v))

  abbrev next : ℕ → ℕ → ℕ
  next max offset = offset + length (content_of max (drop offset bs))

  -- The content of the page, and the bytes after it.
  content-append :
      (max offset : ℕ)
      → offset ≤ length bs
      → content_of max (drop offset bs)
          ++ drop (offset + length (content_of max (drop offset bs))) bs
        ≡ drop offset bs
  content-append max offset le =
      let c = content_of max (drop offset bs) in
      rw (← drop-drop offset (length c) bs) (
        ap (λ (l : List ℕ). l ++ drop (length c) (drop offset bs))
          (content_of-take max (drop offset bs))
        ∙ take-append-drop (length c) (drop offset bs))

  rest_valid :
      (max offset : ℕ)
      → offset ≤ length bs
      → valid (drop offset bs) ≡ true
      → valid (drop (next max offset) bs) ≡ true
  rest_valid max offset le v =
      valid-rest (content_of max (drop offset bs)) (drop (next max offset) bs)
        (valid_prefix-valid (length (take max (drop offset bs))) (take max (drop offset bs)))
        (rw (content-append max offset le) v)

  last_content :
      (max offset : ℕ)
      → offset ≤ length bs
      → length bs ≤ next max offset
      → content_of max (drop offset bs) ≡ drop offset bs
  last_content max offset le all =
      sym (append-nil (content_of max (drop offset bs)))
      ∙ (ap (λ (l : List ℕ). content_of max (drop offset bs) ++ l)
            (sym (drop-all (next max offset) bs all))
          ∙ content-append max offset le)

  content_positive :
      (max offset : ℕ)
      → 4 ≤ max
      → offset ≤ length bs
      → valid (drop offset bs) ≡ true
      → ltb (next max offset) (length bs) ≡ true
      → 0 < length (content_of max (drop offset bs))
  content_positive max offset h le v more =
      elim (page_at-IsPage offset max bs le
        (content_fits max offset bs (drop offset bs) h refl le v)).progress [
          | inl end ↦ absurd (ground (arith, more, end))
          | inr positive ↦ positive
        ]

  read_all-eq :
      (max fuel offset : ℕ)
      → 4 ≤ max
      → offset ≤ length bs
      → valid (drop offset bs) ≡ true
      → length bs < fuel + offset
      → read_all fs r id max fuel offset ≡ some (drop offset bs)
  unfolding read_all
  read_all-eq max zero offset h le v f = absurd (omega arith)
  read_all-eq max (suc fuel) offset h le v f =
      rw (read_page_valid max offset h le v, read_all)
        (elim (Bool-cases (ltb (next max offset) (length bs))) [
          | inl more ↦ rw more (
              ap
                (λ (o : Option (List ℕ)).
                  Option.map (λ rest. content_of max (drop offset bs) ++ rest) o)
                (read_all-eq max fuel (next max offset) h (ground (arith, more))
                  (rest_valid max offset le v)
                  (omega (arith, f, content_positive max offset h le v more)))
              ∙ ap (λ (l : List ℕ). some l) (content-append max offset le))
          | inr last ↦
              rw last
                (ap (λ (l : List ℕ). some l) (last_content max offset le (ground (arith, last))))
        ])

  -- A reader that asks for pages of at least four bytes, from the start of an artifact whose file is
  -- valid UTF-8, gets the whole file: no page is an error, and there are at most as many pages as the
  -- file has bytes, and one more.
  pub read_all-whole :
      (max : ℕ) → 4 ≤ max → valid bs ≡ true → read_all fs r id max (suc (length bs)) 0 ≡ some bs
  read_all-whole max h v = read_all-eq max (suc (length bs)) 0 h (omega arith) v (omega arith)
