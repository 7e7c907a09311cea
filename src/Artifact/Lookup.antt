-- ===== src/Artifact/Lookup.antt =====
-- internal/artifact/registry.go: the queries of the registry.
use r.Prelude.{
  String, ◌≡◌, refl, ◌⊎◌, inl, inr, true, none, some, List, [], ◌∷◌, if◌then◌else◌, arith,
  Option-cases, eq_iff,
}
use r.Prelude.Sets.{contains}
use r.Prelude.Maps.{get}
use r.Artifact.{Record, Registry, Error, ◌>>=◌, entry_has_purpose, has_purpose}
use r.Artifact.Evidence.{record_of}

-- `Registry.Records`.
unfoldable pub records : List String → Registry → Error ⊎ List Record
unfolding record_of
records [] r = inr []
records (id ∷ ids) r = do item ← record_of id r; items ← records ids r; inr (item ∷ items)

-- `Registry.RecordsByPurpose`, along the order of registration.
unfoldable pub purpose_records : String → List String → Registry → List Record
unfolding entry_has_purpose
purpose_records p [] r = []
purpose_records p (id ∷ ids) r =
    let rest = purpose_records p ids r in
    elim (get id r.entries) [
      | none ↦ rest
      | some e ↦ if entry_has_purpose p e then e.item ∷ rest else rest
    ]

unfoldable pub records_by_purpose : String → Registry → List Record
unfolding purpose_records
records_by_purpose p r = purpose_records p r.order r

record_of_known :
    (id p : String) (r : Registry)
    → has_purpose id p r ≡ true
    → (item : Record) × (record_of id r ≡ inr item)
unfolding has_purpose record_of
record_of_known id p r h = elim (Option-cases (get id r.entries)) [
  | inl q ↦ cc (rw (q, has_purpose) at h)
  | inr (e, q) ↦ (e.item, rw (q, record_of))
]

-- The records of IDs that all have a purpose are found.
pub records_known :
    (p : String) (ids : List String) (r : Registry)
    → ((id : String) → contains ids id ≡ true → has_purpose id p r ≡ true)
    → (items : List Record) × (records ids r ≡ inr items)
unfolding records contains
records_known p [] r h = ([], refl)
records_known p (id ∷ ids) r h =
    let (item, q) = record_of_known id p r (h id (ground (arith, eq_iff id id))) in
    let (items, q') = records_known p ids r (λ j m. h j (ground (arith, m))) in
    (item ∷ items, rw (q, q'))
