-- ===== src/Graph/Vertex.antt =====
-- A vertex that was inserted is found again.
use neo_post_graph.Common.{
  ℕ, ◌+◌, ◌-◌, ◌%◌, ◌≤◌, ◌<◌, ◌≡◌, ap, ◌∙◌, true, false, ◌||◌, none, some, arith, ◌==◌,
  if◌then◌else◌, length, lt_of_get_elem?, Bool-cases, Option-cases, inl, inr,
}
use neo_post_graph.Layout.{maxalign, size_of_item_id}
use neo_post_graph.Mvcc.{Xact}
use neo_post_graph.Storage.{Tid, invalid_tid, PageOps, ok, is_held, Rel, fetch}
use neo_post_graph.Storage.Fetch.{fetch-block}
use neo_post_graph.Storage.Append.{RelNormal, write_record-IsAppended, write_record_total}
use neo_post_graph.Entity.{Bytes, EntityTuple, tuple_size}
use neo_post_graph.Entity.Pack.{IsVarlena}
use neo_post_graph.PhysMap.{
  NeoPhysMapRecord, MapPages, size_of_phys_map_record, pmap_tuples_per_page, id_to_tid, pad_record,
}
use neo_post_graph.PhysMap.Address.{Addressable, id_to_tid-offset, tid_to_id-id_to_tid}
use neo_post_graph.PhysMap.Place.{UniformMap, entry}
use neo_post_graph.PhysMap.Upsert.{place_record-Upserted}
use neo_post_graph.PhysMap.ById.{same_tid}
use neo_post_graph.Graph.{props_at, insert_vertex, fetch_vertex_properties}
use neo_post_graph.Graph.Props.{inserted, Leads, props_at-inserted, props_at-kept}

module _ (x : Xact) (varsize : Bytes → ℕ) (empty_object : Bytes) (pe : PageOps EntityTuple)
    (pm : PageOps NeoPhysMapRecord) (mp : MapPages pm) where
  -- The map's entry for an id, by the address that inserts and reads compute.
  abbrev pub vertex_entry : Rel pm → ℕ → NeoPhysMapRecord
  vertex_entry pmap id =
      entry pm mp pad_record size_of_phys_map_record pmap
        (id_to_tid id (pmap_tuples_per_page size_of_phys_map_record))

  fetch_vertex_properties-entry :
      (g l id : ℕ) (rel : Rel pe) (pmap : Rel pm)
      → fetch_vertex_properties x varsize empty_object pe pm mp g l (some (rel, pmap)) id ≡ (
          if g == 0 || l == 0
          then ok empty_object
          else props_at x varsize empty_object pe rel (vertex_entry pmap id).v_itemptr)
  unfolding fetch_vertex_properties props_at
  fetch_vertex_properties-entry g l id rel pmap =
      let t = id_to_tid id (pmap_tuples_per_page size_of_phys_map_record) in
      elim (Option-cases (fetch pm pmap t)) [
        | inl e ↦ ground arith
        | inr (r, e) ↦
            let (p, at) = fetch-block pm pmap t r e in
            let lt = lt_of_get_elem? pmap t.block at in ground arith
      ]

  -- After the insert of a vertex the read of its properties gives the inserted ones, and the read of
  -- any other vertex of the label gives what it gave before. This holds for ids whose turn on their
  -- page of the map is at most 291, in a label whose map holds its records alone, whose line
  -- pointers are in use, and whose entries lead to entities, if an empty page has room for the new
  -- one.
  pub insert_vertex-fetch :
      (fxid cid g l id id' : ℕ) (v props : Bytes) (a_itemptr : Tid) (rel : Rel pe) (pmap : Rel pm)
      → IsVarlena varsize v
      → IsVarlena varsize props
      → x.is_valid fxid ≡ true
      → x.is_valid 0 ≡ false
      → x.is_current (x.xid fxid) ≡ true
      → (g == 0 || l == 0) ≡ false
      → RelNormal pe rel
      → UniformMap pm mp pad_record size_of_phys_map_record pmap
      → Addressable 314 id
      → (id - 1) % 314 < 291
      → Addressable 314 id'
      → Leads x varsize empty_object pe rel (vertex_entry pmap id').v_itemptr
      → maxalign (tuple_size (inserted x varsize empty_object pe fxid cid id v props))
          + size_of_item_id
        ≤ pe.free_space pe.empty
      → (rel' : Rel pe) × (pmap' : Rel pm) × (insert_vertex x varsize empty_object pe pm mp fxid cid
            (rel, pmap)
            id
            v
            (some props)
            a_itemptr
          ≡ ok (rel', pmap'))
        × (fetch_vertex_properties x varsize empty_object pe pm mp g l (some (rel', pmap')) id' ≡ (
            if id == id'
            then ok props
            else fetch_vertex_properties x varsize empty_object pe pm mp g l
                (some (rel, pmap))
                id'))
  unfolding insert_vertex pmap_tuples_per_page
  insert_vertex-fetch fxid cid g l id id' v props a_itemptr rel pmap m p valid zero current known
        normal uniform a early a' leads fits =
      let new = inserted x varsize empty_object pe fxid cid id v props in
      let free : is_held none (length rel - 1) ≡ false = λ i. false in
      let ((rel', t), w) = write_record_total pe none rel new (tuple_size new) free fits in
      let app = write_record-IsAppended pe none rel new (tuple_size new) rel' t normal w in
      let at = id_to_tid id 314 in
      let (_, pos, _) = tid_to_id-id_to_tid 314 (omega arith) (omega arith) id a in
      let rec : NeoPhysMapRecord = record {
        v_itemptr = t;
        e_tbl_id = 0;
        e_itemptr = invalid_tid;
        a_itemptr = a_itemptr;
      } in
      let (pmap', e, up) =
        place_record-Upserted pm mp pad_record size_of_phys_map_record pmap at rec uniform pos in
      let same = same_tid 314 (omega arith) (omega arith) id id' a a' in
      let slot : vertex_entry pmap' id' ≡ (if id == id' then rec else vertex_entry pmap id') =
        ground (arith, up.entries (id_to_tid id' 314), same, id_to_tid-offset id 314) in
      let read : props_at x varsize empty_object pe rel' (vertex_entry pmap' id').v_itemptr ≡ (
          if id == id'
          then ok props
          else props_at x varsize empty_object pe rel (vertex_entry pmap id').v_itemptr) =
        elim (Bool-cases (id == id')) [
          | inl this ↦
              let found : vertex_entry pmap' id' ≡ rec = ground arith in
              ap (λ r. props_at x varsize empty_object pe rel' r.v_itemptr) found
              ∙ (props_at-inserted x varsize empty_object pe fxid cid id v props rel rel' t m p
                    valid zero current app
                  ∙ ground arith)
          | inr other ↦
              let found : vertex_entry pmap' id' ≡ vertex_entry pmap id' = ground arith in
              ap (λ r. props_at x varsize empty_object pe rel' r.v_itemptr) found
              ∙ (props_at-kept x varsize empty_object pe new rel rel' t
                    (vertex_entry pmap id').v_itemptr app leads
                  ∙ ground arith)
        ] in
      (
        rel',
        pmap',
        ground (arith, w, e),
        ground (
          arith,
          read,
          fetch_vertex_properties-entry g l id' rel' pmap',
          fetch_vertex_properties-entry g l id' rel pmap,
        ),
      )
