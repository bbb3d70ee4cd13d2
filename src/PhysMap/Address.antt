-- ===== src/PhysMap/Address.antt =====
-- Addresses computed from ids.
use neo_post_graph.Common.{
  ℕ, ◌+◌, ◌-◌, ◌*◌, ◌/◌, ◌%◌, ◌^◌, ◌≤◌, ◌<◌, ◌≡◌, ◌≢◌, arith, refl, sym, ap, ◌∙◌,
}
use native.Mathlib.Nat.{div-add-mod', mod-lt, mod-eq_of_lt}
use neo_post_graph.Storage.{tid}
use neo_post_graph.PhysMap.{
  id_to_tid, tid_to_id, calculate_tuples_per_page, pmap_tuples_per_page, size_of_phys_map_record,
}

-- An id whose block number fits 32 bits.
abbrev pub Addressable : ℕ → ℕ → Type 0
Addressable tpp id = (0 < id) × (id < 2 ^ 64) × ((id - 1) / tpp < 2 ^ 32)

module _ (tpp : ℕ) (tpos : 0 < tpp) (tsmall : tpp < 2 ^ 16) where
  id_to_tid-eq :
      (id : ℕ) → Addressable tpp id → id_to_tid id tpp ≡ tid ((id - 1) / tpp) ((id - 1) % tpp + 1)
  unfolding id_to_tid
  id_to_tid-eq id (pos, small, fits) =
      let bound : (id - 1) % tpp < tpp = mod-lt (id - 1) tpos in
      let offset : (id - 1) % tpp + 1 < 2 ^ 16 = omega arith in
      rw (mod-eq_of_lt fits, mod-eq_of_lt offset)

  tid_to_id-eq :
      (b r m id : ℕ)
      → b * tpp ≡ m
      → m + r ≡ id - 1
      → 0 < id
      → id < 2 ^ 64
      → tid_to_id (tid b (r + 1)) tpp ≡ id
  unfolding tid_to_id
  tid_to_id-eq b r m id e h pos small = rw e (omega arith)

  -- An id is recovered from its address, which is valid and has an offset of a page of `tpp`
  -- records, if the block number fits its 32 bits and `tpp` the 16 bits of an offset.
  pub tid_to_id-id_to_tid :
      (id : ℕ)
      → Addressable tpp id
      → (tid_to_id (id_to_tid id tpp) tpp ≡ id)
        × (0 < (id_to_tid id tpp).offset)
        × ((id_to_tid id tpp).offset ≤ tpp)
  tid_to_id-id_to_tid id a =
      let (pos, small, fits) = a in
      let bound : (id - 1) % tpp < tpp = mod-lt (id - 1) tpos in
      rw (id_to_tid-eq id a) (
        tid_to_id-eq ((id - 1) / tpp) ((id - 1) % tpp) ((id - 1) / tpp * tpp) id refl
            (div-add-mod' (id - 1) tpp) pos small,
        omega arith,
        omega arith,
      )

  -- No two ids have the same address.
  pub id_to_tid-injective :
      (id id' : ℕ)
      → Addressable tpp id
      → Addressable tpp id'
      → id_to_tid id tpp ≡ id_to_tid id' tpp
      → id ≡ id'
  id_to_tid-injective id id' a a' e =
      let (same, _, _) = tid_to_id-id_to_tid id a in
      let (same', _, _) = tid_to_id-id_to_tid id' a' in
      sym same ∙ (ap (λ t. tid_to_id t tpp) e ∙ same')

-- The two formulas for the number of records of a page put every vertex id above 157 and below
-- 2 ^ 32 into different blocks.
pub id_to_tid_differ :
    (id : ℕ)
    → 157 < id
    → id < 2 ^ 32
    → (id_to_tid id (calculate_tuples_per_page size_of_phys_map_record)).block
      ≢ (id_to_tid id (pmap_tuples_per_page size_of_phys_map_record)).block
unfolding id_to_tid calculate_tuples_per_page pmap_tuples_per_page
id_to_tid_differ id big small e = omega arith

pub id_to_tid-offset :
    (id tpp : ℕ) → 0 < tpp → tpp < 2 ^ 16 → (id_to_tid id tpp).offset ≡ (id - 1) % tpp + 1
unfolding id_to_tid
id_to_tid-offset id tpp pos small =
    let bound : (id - 1) % tpp < tpp = mod-lt (id - 1) pos in
    let offset : (id - 1) % tpp + 1 < 2 ^ 16 = omega arith in mod-eq_of_lt offset
