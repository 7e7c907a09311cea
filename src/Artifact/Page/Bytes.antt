-- ===== src/Artifact/Page/Bytes.antt =====
-- Laws of prefixes of bytes and of valid UTF-8 (internal/artifact/registry.go, `ReadPage`).
use r.Prelude.{
  ℕ, zero, suc, ◌+◌, ◌≤◌, ◌<◌, ◌≡◌, refl, sym, ap, ◌∙◌, inl, inr, true, some, List, [], ◌∷◌, ◌++◌,
  arith, length, Bool-cases, Option-cases,
}
use r.Artifact.Page.{
  Lead, lead, valid_after, valid, rune_start, take, drop, valid_prefix, starts_character,
}

pub length-take : (n : ℕ) (bs : List ℕ) → length (take n bs) ≤ n
length-take zero bs = omega arith
length-take (suc n) [] = omega arith
length-take (suc n) (b ∷ bs) = omega (arith, length-take n bs)

pub take-append-drop : (n : ℕ) (bs : List ℕ) → take n bs ++ drop n bs ≡ bs
take-append-drop zero bs = refl
take-append-drop (suc n) [] = refl
take-append-drop (suc n) (b ∷ bs) = ap (λ (l : List ℕ). b ∷ l) (take-append-drop n bs)

pub take-take : (m n : ℕ) (bs : List ℕ) → m ≤ n → take m (take n bs) ≡ take m bs
take-take zero n bs h = refl
take-take (suc m) zero bs h = absurd (omega arith)
take-take (suc m) (suc n) [] h = refl
take-take (suc m) (suc n) (b ∷ bs) h = ap (λ (l : List ℕ). b ∷ l) (take-take m n bs (omega arith))

pub drop-all : (n : ℕ) (bs : List ℕ) → length bs ≤ n → drop n bs ≡ []
drop-all zero [] h = refl
drop-all zero (b ∷ bs) h = absurd (omega arith)
drop-all (suc n) [] h = refl
drop-all (suc n) (b ∷ bs) h = drop-all n bs (omega arith)

drop-nil : (n : ℕ) → drop n [] ≡ []
drop-nil zero = refl
drop-nil (suc n) = refl

pub drop-drop : (m n : ℕ) (bs : List ℕ) → drop n (drop m bs) ≡ drop (m + n) bs
drop-drop zero n bs = let e : n ≡ 0 + n = omega arith in ap (λ (t : ℕ). drop t bs) e
drop-drop (suc m) n [] = drop-nil n ∙ sym (drop-nil (suc m + n))
drop-drop (suc m) n (b ∷ bs) =
    let e : suc (m + n) ≡ suc m + n = omega arith in
    drop-drop m n bs ∙ ap (λ (t : ℕ). drop t (b ∷ bs)) e

pub take-length : (n : ℕ) (bs : List ℕ) → take n bs ≡ take (length (take n bs)) bs
take-length zero bs = refl
take-length (suc n) [] = refl
take-length (suc n) (b ∷ bs) = ap (λ (l : List ℕ). b ∷ l) (take-length n bs)

pub length-take_ge : (k n : ℕ) (bs : List ℕ) → k ≤ n → k ≤ length bs → k ≤ length (take n bs)
length-take_ge k zero bs h g = omega arith
length-take_ge k (suc n) [] h g = omega arith
length-take_ge zero (suc n) (b ∷ bs) h g = omega arith
length-take_ge (suc k) (suc n) (b ∷ bs) h g =
    omega (arith, length-take_ge k n bs (omega arith) (omega arith))

pub length-drop : (n : ℕ) (bs : List ℕ) → n ≤ length bs → length (drop n bs) + n ≡ length bs
length-drop zero bs h = omega arith
length-drop (suc n) [] h = absurd (omega arith)
length-drop (suc n) (b ∷ bs) h = omega (arith, length-drop n bs (omega arith))

pub length-take_le : (n : ℕ) (bs : List ℕ) → length (take n bs) ≤ length bs
length-take_le zero bs = omega arith
length-take_le (suc n) [] = omega arith
length-take_le (suc n) (b ∷ bs) = omega (arith, length-take_le n bs)

valid_after-zero : (l l' k k' : ℕ) (bs : List ℕ) → valid_after 0 l k bs ≡ valid_after 0 l' k' bs
unfolding valid_after
valid_after-zero l l' k k' [] = refl
valid_after-zero l l' k k' (b ∷ bs) = refl

-- What follows whole characters is valid if all is.
valid_after-rest :
    (n l k : ℕ) (xs ys : List ℕ)
    → valid_after n l k xs ≡ true
    → valid_after n l k (xs ++ ys) ≡ true
    → valid ys ≡ true
unfolding valid_after valid
valid_after-rest zero l k [] ys h g = valid_after-zero 0 l 0 k ys ∙ g
valid_after-rest (suc n) l k [] ys h g = cc
valid_after-rest zero l k (x ∷ xs) ys h g = elim (Option-cases (lead x)) [
  | inl q ↦ cc (rw (q, valid_after) at h)
  | inr (d, q) ↦
      valid_after-rest d.more d.lowest d.highest xs ys (rw (q, valid_after) at h)
        (rw (q, valid_after) at g)
]
valid_after-rest (suc n) l k (x ∷ xs) ys h g =
    ground (arith, h, g, valid_after-rest n 0x80 0xbf xs ys)

pub valid-rest : (xs ys : List ℕ) → valid xs ≡ true → valid (xs ++ ys) ≡ true → valid ys ≡ true
unfolding valid
valid-rest xs ys h g = valid_after-rest 0 0 0 xs ys h g

pub valid-starts : (bs : List ℕ) → valid bs ≡ true → starts_character bs ≡ true
unfolding starts_character valid valid_after lead rune_start
valid-starts [] h = refl
valid-starts (b ∷ bs) h = ground (arith, h)

-- A character that has begun takes as many bytes as it still needs.
valid_after-take :
    (n l k : ℕ) (bs : List ℕ)
    → valid_after n l k bs ≡ true
    → (valid_after n l k (take n bs) ≡ true) × (n ≤ length bs)
unfolding valid_after
valid_after-take zero l k bs h = (refl, omega arith)
valid_after-take (suc n) l k [] h = cc
valid_after-take (suc n) l k (b ∷ bs) h =
    let (v, le) = valid_after-take n 0x80 0xbf bs (ground (arith, h)) in
    (ground (arith, h, v), omega arith)

lead-le : (b : ℕ) (d : Lead) → lead b ≡ some d → d.more ≤ 3
unfolding lead
lead-le b d h = ground (arith, h)

-- Valid bytes begin with a character of at most four.
pub first_character :
    (b : ℕ) (bs : List ℕ)
    → valid (b ∷ bs) ≡ true
    → (k : ℕ) × (0 < k) × (k ≤ 4) × (k ≤ length (b ∷ bs)) × (valid (take k (b ∷ bs)) ≡ true)
unfolding valid valid_after
first_character b bs h = elim (Option-cases (lead b)) [
  | inl q ↦ cc (rw (q, valid_after) at h)
  | inr (d, q) ↦
      let (v, le) = valid_after-take d.more d.lowest d.highest bs (rw (q, valid_after) at h) in
      (suc d.more, omega arith, omega (arith, lead-le b d q), omega arith, rw (q, valid_after) v)
]

pub valid_prefix-valid : (n : ℕ) (bs : List ℕ) → valid (valid_prefix n bs) ≡ true
unfolding valid_prefix
valid_prefix-valid zero bs = unfold valid valid_after in refl
valid_prefix-valid (suc n) bs = elim (Bool-cases (valid (take (suc n) bs))) [
  | inl v ↦ rw v v
  | inr cut ↦ rw cut (valid_prefix-valid n bs)
]

pub valid_prefix-take :
    (n : ℕ) (bs : List ℕ) → valid_prefix n bs ≡ take (length (valid_prefix n bs)) bs
unfolding valid_prefix
valid_prefix-take zero bs = refl
valid_prefix-take (suc n) bs = elim (Bool-cases (valid (take (suc n) bs))) [
  | inl v ↦ rw v (take-length (suc n) bs)
  | inr cut ↦ rw cut (valid_prefix-take n bs)
]

pub length-valid_prefix_le : (n : ℕ) (bs : List ℕ) → length (valid_prefix n bs) ≤ n
unfolding valid_prefix
length-valid_prefix_le zero bs = omega arith
length-valid_prefix_le (suc n) bs = elim (Bool-cases (valid (take (suc n) bs))) [
  | inl v ↦ rw v (length-take (suc n) bs)
  | inr cut ↦ rw cut (omega (arith, length-valid_prefix_le n bs))
]

pub length-valid_prefix_ge :
    (k n : ℕ) (bs : List ℕ)
    → valid (take k bs) ≡ true
    → k ≤ n
    → k ≤ length bs
    → k ≤ length (valid_prefix n bs)
unfolding valid_prefix
length-valid_prefix_ge k zero bs v h g = omega arith
length-valid_prefix_ge k (suc n) bs v h g = elim (Bool-cases (valid (take (suc n) bs))) [
  | inl w ↦ rw w (length-take_ge k (suc n) bs h g)
  | inr cut ↦ rw cut (length-valid_prefix_ge k n bs v (ground arith) g)
]
