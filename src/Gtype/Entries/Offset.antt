-- ===== src/Gtype/Entries/Offset.antt =====
-- The offsets and lengths that are read from entries are those of the values.
use neo_post_graph.Common.{
  ℕ, zero, suc, ◌+◌, ◌%◌, ◌≤◌, ◌<◌, ◌≡◌, refl, ap, ◌∙◌, ◌==◌, ltb, true, false, List, [], ◌∷◌,
  length, arith, Bool-cases, inl, inr, ◌⊎◌,
}
use neo_post_graph.Storage.{ok, ◌>>=◌}
use neo_post_graph.Storage.Outcomes.{bind_ok}
use neo_post_graph.Gtype.Entries.{
  gtentry_offlenmask, gte_offlenfld, gte_has_off, gte_type, stride_entry, stride_entries, children,
  offset_back, get_gtype_offset, get_gtype_length,
}

-- The bytes of the first so many values.
abbrev pub total_of : List ℕ → ℕ → ℕ
total_of metas zero = 0
total_of [] (suc k) = 0
total_of (meta ∷ metas) (suc k) = gte_offlenfld meta + total_of metas k

-- Entries that have lengths.
abbrev pub HaveLengths : List ℕ → Type 0
HaveLengths [] = Unit
HaveLengths (meta ∷ metas) = (meta < 2147483648) × HaveLengths metas

stride_offlen :
    (i t meta : ℕ)
    → t ≤ gtentry_offlenmask
    → i % 32 ≡ 0
    → (gte_offlenfld (stride_entry i t meta) ≡ t) × (gte_has_off (stride_entry i t meta) ≡ true)
unfolding gte_offlenfld gte_has_off stride_entry gte_type
stride_offlen i t meta le h = ground arith

no_offset : (meta : ℕ) → meta < 2147483648 → gte_has_off meta ≡ false
unfolding gte_has_off
no_offset meta lt = ground arith

total_of-suc :
    (metas : List ℕ) (k : ℕ)
    → k < length metas
    → total_of metas (suc k) ≡ total_of metas k + gte_offlenfld (children metas k)
total_of-suc [] k lt = absurd (ground arith)
total_of-suc (meta ∷ metas) zero lt = omega arith
total_of-suc (meta ∷ metas) (suc k) lt = ground (arith, total_of-suc metas k)

HaveLengths-children :
    (metas : List ℕ) (k : ℕ) → HaveLengths metas → k < length metas → children metas k < 2147483648
HaveLengths-children [] k h lt = absurd (ground arith)
HaveLengths-children (meta ∷ metas) zero h lt = h.0
HaveLengths-children (meta ∷ metas) (suc k) h lt = HaveLengths-children metas k (h.1) (ground arith)

stride_entries_uncons :
    (meta : ℕ) (metas : List ℕ) (i total : ℕ) (es : List ℕ)
    → stride_entries i total (meta ∷ metas) ≡ ok es
    → (r : List ℕ) × (total + gte_offlenfld meta ≤ gtentry_offlenmask)
      × (stride_entries (suc i) (total + gte_offlenfld meta) metas ≡ ok r)
      × (es ≡ stride_entry i (total + gte_offlenfld meta) meta ∷ r)
unfolding stride_entries
stride_entries_uncons meta metas i total es h =
    let t = total + gte_offlenfld meta in
    elim (Bool-cases (ltb gtentry_offlenmask t)) [
      | inl c ↦ absurd (ground arith)
      | inr c ↦
          let whole : (stride_entries (suc i) t metas >>= λ r. ok (stride_entry i t meta ∷ r))
              ≡ ok es =
            ground arith in
          let (r, later, same) =
            bind_ok (stride_entries (suc i) t metas) (λ r. ok (stride_entry i t meta ∷ r)) es
              whole in
          (r, ground arith, later, cc)
    ]

stride_entries-children :
    (metas : List ℕ) (i total : ℕ) (es : List ℕ) (k : ℕ)
    → stride_entries i total metas ≡ ok es
    → k < length metas
    → (total + total_of metas (suc k) ≤ gtentry_offlenmask)
      × (children es k ≡ stride_entry (i + k) (total + total_of metas (suc k)) (children metas k))
stride_entries-children [] i total es k h lt = absurd (ground arith)
stride_entries-children (meta ∷ metas) i total es zero h lt =
    let (r, within, later, same) = stride_entries_uncons meta metas i total es h in
    let here : i + 0 ≡ i = omega arith in
    let alone : total + (gte_offlenfld meta + 0) ≡ total + gte_offlenfld meta = omega arith in
    (omega arith, rw (same, here, alone) refl)
stride_entries-children (meta ∷ metas) i total es (suc k) h lt =
    let (r, within, later, same) = stride_entries_uncons meta metas i total es h in
    let t = total + gte_offlenfld meta in
    let (le, at) = stride_entries-children metas (suc i) t r k later (ground arith) in
    let there : i + suc k ≡ suc i + k = omega arith in
    let sum : total + (gte_offlenfld meta + total_of metas (suc k)) ≡ t + total_of metas (suc k) =
      omega arith in
    (omega arith, rw (same, there, sum) at)

stride_entries_total :
    (metas : List ℕ) (i total : ℕ)
    → total + total_of metas (length metas) ≤ gtentry_offlenmask
    → (es : List ℕ) × (stride_entries i total metas ≡ ok es)
unfolding stride_entries
stride_entries_total [] i total le = ([], refl)
stride_entries_total (meta ∷ metas) i total le =
    let t = total + gte_offlenfld meta in
    let (es, h) = stride_entries_total metas (suc i) t (ground arith) in
    let fits : ltb gtentry_offlenmask t ≡ false = ground arith in
    (stride_entry i t meta ∷ es, rw (fits, h) refl)

module _ (metas es : List ℕ) (lengths : HaveLengths metas)
    (written : stride_entries 0 0 metas ≡ ok es) where
  -- An entry is an offset, or a length.
  Entry-cases :
      (k : ℕ)
      → k < length metas
      → (total_of metas (suc k) ≤ gtentry_offlenmask)
        × (((gte_has_off (children es k) ≡ true)
              × (gte_offlenfld (children es k) ≡ total_of metas (suc k)))
            ⊎ ((gte_has_off (children es k) ≡ false)
                × (gte_offlenfld (children es k) ≡ gte_offlenfld (children metas k))))
  unfolding stride_entry
  Entry-cases k lt =
      let (le, at) = stride_entries-children metas 0 0 es k written lt in
      let within : total_of metas (suc k) ≤ gtentry_offlenmask = omega arith in
      let whole : 0 + total_of metas (suc k) ≡ total_of metas (suc k) = omega arith in
      let first : 0 + k ≡ k = omega arith in
      let same : children es k ≡ stride_entry k (total_of metas (suc k)) (children metas k) =
        at ∙ rw (whole, first) refl in
      (
        within,
        elim (Bool-cases (k % 32 == 0)) [
          | inl c ↦
              let (len, off) =
                stride_offlen k (total_of metas (suc k)) (children metas k) within (ground arith) in
              inl (rw same off, rw same len)
          | inr c ↦
              let as_was : children es k ≡ children metas k = ground arith in
              inr (
                rw as_was (no_offset (children metas k) (HaveLengths-children metas k lengths lt)),
                ap gte_offlenfld as_was,
              )
        ],
      )

  offset_back_lem :
      (k offset : ℕ)
      → k ≤ length metas
      → offset + total_of metas k ≤ 4294967295
      → offset_back es k offset ≡ offset + total_of metas k
  unfolding offset_back
  offset_back_lem zero offset le small = omega arith
  offset_back_lem (suc k) offset le small =
      let (within, cases) = Entry-cases k (omega arith) in
      let sum : total_of metas (suc k) ≡ total_of metas k + gte_offlenfld (children metas k) =
        total_of-suc metas k (omega arith) in
      elim cases [
        | inl (off, len) ↦ rw (off, len) (omega arith)
        | inr (off, len) ↦
            let more : (offset + gte_offlenfld (children es k)) % 4294967296
                ≡ offset + gte_offlenfld (children metas k) =
              rw len (omega arith) in
            let rest =
              offset_back_lem k (offset + gte_offlenfld (children metas k)) (omega arith)
                (omega arith) in
            rw (off, more, rest) (omega arith)
      ]

  get_gtype_offset-total_of :
      (k : ℕ)
      → k ≤ length metas
      → total_of metas k ≤ 4294967295
      → get_gtype_offset es k ≡ total_of metas k
  unfolding get_gtype_offset
  get_gtype_offset-total_of k le small =
      let e = offset_back_lem k 0 le (omega arith) in e ∙ omega arith

  get_gtype_length_lem :
      (k : ℕ)
      → k < length metas
      → (get_gtype_offset es k ≡ total_of metas k)
        × (get_gtype_length es k ≡ gte_offlenfld (children metas k))
  unfolding get_gtype_length
  get_gtype_length_lem k lt =
      let (within, cases) = Entry-cases k lt in
      let sum : total_of metas (suc k) ≡ total_of metas k + gte_offlenfld (children metas k) =
        total_of-suc metas k lt in
      let offset = get_gtype_offset-total_of k (omega arith) (omega arith) in
      (
        offset,
        elim cases [
          | inl (off, len) ↦ rw (off, len, offset) (omega arith)
          | inr (off, len) ↦ rw off len
        ],
      )

-- From the entries that the values of a container were given, each a length, the loop makes entries
-- without an error, if the values are within the mask together. From these get_gtype_offset gives the
-- number of bytes of the values before any one, and get_gtype_length its own.
pub get_gtype_length-stride_entries :
    (metas : List ℕ) (k : ℕ)
    → HaveLengths metas
    → total_of metas (length metas) ≤ gtentry_offlenmask
    → k < length metas
    → (es : List ℕ) × (stride_entries 0 0 metas ≡ ok es)
      × (get_gtype_offset es k ≡ total_of metas k)
      × (get_gtype_length es k ≡ gte_offlenfld (children metas k))
get_gtype_length-stride_entries metas k lengths le lt =
    let (es, written) = stride_entries_total metas 0 0 (omega arith) in
    let (offset, len) = get_gtype_length_lem metas es lengths written k lt in
    (es, written, offset, len)
