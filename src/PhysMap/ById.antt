-- ===== src/PhysMap/ById.antt =====
-- The map as a function of the ids.
use neo_post_graph.Common.{
  ℕ, ◌-◌, ◌*◌, ◌%◌, ◌^◌, ◌≤◌, ◌<◌, ◌≡◌, ap, true, ◌&&◌, none, arith, ◌==◌, if◌then◌else◌, get_elem?,
  lt_of_get_elem?, Bool-cases, Option-cases, inl, inr,
}
use mathlib.Core.Path.{subst}
use neo_post_graph.Layout.{blcksz, size_of_page_header}
use neo_post_graph.Storage.{Tid, PageOps, ok, Rel, fetch, store}
use neo_post_graph.Storage.Fetch.{fetch-store}
use neo_post_graph.Storage.Append.{length-store}
use neo_post_graph.PhysMap.{
  NeoPhysMapRecord, MapPages, id_to_tid, place_record, calculate_tuples_per_page,
  pmap_tuples_per_page, size_of_phys_map_record, update_vertex_phys_map, get_current_head_tid,
}
use neo_post_graph.PhysMap.Address.{Addressable, tid_to_id-id_to_tid, id_to_tid-injective}
use neo_post_graph.PhysMap.Place.{item_space, UniformMap, entry}
use neo_post_graph.PhysMap.Upsert.{place_record-Upserted}

-- Two addresses with the same numbers are the same.
Tid-ext : (t u : Tid) → t.block ≡ u.block → t.offset ≡ u.offset → t ≡ u
Tid-ext t u b o = cc

module _ (tpp : ℕ) (tpos : 0 < tpp) (tsmall : tpp < 2 ^ 16) where
  pub same_tid :
      (id id' : ℕ)
      → Addressable tpp id
      → Addressable tpp id'
      → let t = id_to_tid id tpp in
        let u = id_to_tid id' tpp in (u.block == t.block && u.offset == t.offset) ≡ (id == id')
  same_tid id id' a a' =
      let t = id_to_tid id tpp in
      let u = id_to_tid id' tpp in
      elim (Bool-cases (id == id')) [
        | inl same ↦
            let e : id ≡ id' = ground arith in
            let b : t.block ≡ u.block = ap (λ (k : ℕ). (id_to_tid k tpp).block) e in
            let o : t.offset ≡ u.offset = ap (λ (k : ℕ). (id_to_tid k tpp).offset) e in ground arith
        | inr other ↦ elim (Bool-cases (u.block == t.block && u.offset == t.offset)) [
          | inl both ↦
              let e = Tid-ext t u (ground arith) (ground arith) in
              absurd (ground (arith, id_to_tid-injective tpp tpos tsmall id id' a a' e))
          | inr apart ↦ ground arith
        ]
      ]

  module _ {I : Type 0} (pg : PageOps I) (mp : MapPages pg) (pad : I) (record_size : ℕ) where
    -- A map whose address computation leaves room for its records is a function of the ids: an upsert
    -- at an id sets the entry of that id and of no other, if both have an address and the id's offset
    -- is one that a page has room for.
    pub place_record_by_id :
        (rel : Rel pg) (id id' : ℕ) (new : I)
        → UniformMap pg mp pad record_size rel
        → Addressable tpp id
        → Addressable tpp id'
        → item_space pg mp pad record_size * (id_to_tid id tpp).offset
          ≤ blcksz - size_of_page_header
        → (rel' : Rel pg) × (place_record pg mp pad record_size rel (id_to_tid id tpp) new
            ≡ ok rel')
          × (entry pg mp pad record_size rel' (id_to_tid id' tpp)
              ≡ (if id == id' then new else entry pg mp pad record_size rel (id_to_tid id' tpp)))
    place_record_by_id rel id id' new u a a' fits =
        let (_, pos, _) = tid_to_id-id_to_tid tpp tpos tsmall id a in
        let (rel', e, r) =
          place_record-Upserted pg mp pad record_size rel (id_to_tid id tpp) new u pos in
        (rel', e, ground (arith, r.entries (id_to_tid id' tpp), same_tid id id' a a'))

module _ (pg : PageOps NeoPhysMapRecord) (mp : MapPages pg) (pad : NeoPhysMapRecord) where
  -- With the number of records that the inserts of vertices compute for a page, 314, the record of
  -- an id whose turn on its page is past 291 is dropped: the upsert returns, and nothing stands at
  -- its address.
  pub vertex_entry_lost :
      (rel : Rel pg) (id : ℕ) (new : NeoPhysMapRecord)
      → UniformMap pg mp pad size_of_phys_map_record rel
      → Addressable 314 id
      → 291 ≤ (id - 1) % 314
      → let t = id_to_tid id (pmap_tuples_per_page size_of_phys_map_record) in
        (rel' : Rel pg) × (place_record pg mp pad size_of_phys_map_record rel t new ≡ ok rel')
        × (fetch pg rel' t ≡ none)
  unfolding id_to_tid pmap_tuples_per_page
  vertex_entry_lost rel id new u a late =
      let t = id_to_tid id (pmap_tuples_per_page size_of_phys_map_record) in
      let (rel', e, r) =
        place_record-Upserted pg mp pad size_of_phys_map_record rel t new u (ground arith) in
      (rel', e, ground (arith, r.present))

module _ (pg : PageOps NeoPhysMapRecord) where
  -- An update of a vertex's edge pointer that succeeds is what the next insert of an edge reads as
  -- the head of that vertex's list, and no other vertex's head has changed.
  pub update_vertex_phys_map-head :
      (rel rel' : Rel pg) (id id' oid : ℕ) (t : Tid)
      → Addressable 157 id
      → Addressable 157 id'
      → update_vertex_phys_map pg rel id oid t ≡ ok rel'
      → get_current_head_tid pg rel' id'
        ≡ (if id == id' then (oid, t) else get_current_head_tid pg rel id')
  unfolding update_vertex_phys_map get_current_head_tid calculate_tuples_per_page
  update_vertex_phys_map-head rel rel' id id' oid t a a' h =
      let at = id_to_tid id 157 in
      let at' = id_to_tid id' 157 in
      let same = same_tid 157 (ground arith) (ground arith) id id' a a' in
      elim (Option-cases (get_elem? rel at.block)) [
        | inl e ↦ absurd (ground arith)
        | inr (p, e) ↦ elim (Option-cases (fetch pg rel at)) [
          | inl gone ↦ absurd (ground arith)
          | inr (r, here) ↦
              let new = record r { e_tbl_id = oid; e_itemptr = t } in
              let stored : store pg rel at new ≡ rel' = ground arith in
              let lt = lt_of_get_elem? rel at.block e in
              let same_block : (id == id') ≡ true → at'.block ≡ at.block =
                λ q. ground (arith, same) in
              subst
                (λ w.
                  get_current_head_tid pg w id'
                  ≡ (if id == id' then (oid, t) else get_current_head_tid pg rel id'))
                stored
                (ground (
                  arith,
                  fetch-store pg rel at new r at' here,
                  length-store pg rel at new,
                  same,
                  same_block,
                ))
        ]
      ]
