-- ===== src/Graph/Edge.antt =====
-- An edge that was inserted is found again.
use neo_post_graph.Common.{
  ℕ, ◌+◌, ◌-◌, ◌%◌, ◌≤◌, ◌<◌, ◌≡◌, true, false, ◌||◌, none, some, arith, ◌==◌, length,
  lt_of_get_elem?,
}
use neo_post_graph.Layout.{maxalign, size_of_item_id}
use neo_post_graph.Mvcc.{Xact}
use neo_post_graph.Storage.{Tid, PageOps, ok, is_held, Rel, fetch}
use neo_post_graph.Storage.Fetch.{fetch-block}
use neo_post_graph.Storage.Append.{RelNormal, write_record-IsAppended, write_record_total}
use neo_post_graph.Entity.{Bytes, EntityTuple, tuple_size}
use neo_post_graph.Entity.Pack.{IsVarlena}
use neo_post_graph.PhysMap.{
  NeoEdgePhysMapRecord, MapPages, size_of_edge_phys_map_record, pmap_tuples_per_page, id_to_tid,
  edge_pad_record,
}
use neo_post_graph.PhysMap.Address.{Addressable, id_to_tid-offset, tid_to_id-id_to_tid}
use neo_post_graph.PhysMap.Place.{UniformMap}
use neo_post_graph.PhysMap.Upsert.{place_record-Upserted}
use neo_post_graph.Graph.{insert_edge, fetch_edge_properties}
use neo_post_graph.Graph.Props.{inserted, props_at-inserted}

module _ (x : Xact) (varsize : Bytes → ℕ) (empty_object : Bytes) (pe : PageOps EntityTuple)
    (pm : PageOps NeoEdgePhysMapRecord) (mp : MapPages pm) where
  -- After the insert of an edge the read of its properties gives the inserted ones, whatever pointer
  -- for annotations the map's record was left with. This holds for ids whose turn on their page of
  -- the map is at most 408, in a label whose map holds its records alone and whose line pointers are
  -- in use, if an empty page has room for the new entity.
  pub insert_edge-fetch :
      (fxid cid g l id : ℕ) (edge props : Bytes) (garbage : Tid) (rel : Rel pe) (pmap : Rel pm)
      → IsVarlena varsize edge
      → IsVarlena varsize props
      → x.is_valid fxid ≡ true
      → x.is_valid 0 ≡ false
      → x.is_current (x.xid fxid) ≡ true
      → (g == 0 || l == 0) ≡ false
      → RelNormal pe rel
      → UniformMap pm mp edge_pad_record size_of_edge_phys_map_record pmap
      → Addressable 510 id
      → (id - 1) % 510 < 408
      → maxalign (tuple_size (inserted x varsize empty_object pe fxid cid id edge props))
          + size_of_item_id
        ≤ pe.free_space pe.empty
      → (rel' : Rel pe) × (pmap' : Rel pm) × (insert_edge x varsize empty_object pe pm mp fxid cid
            (rel, pmap)
            id
            edge
            (some props)
            garbage
          ≡ ok (rel', pmap'))
        × (fetch_edge_properties x varsize empty_object pe pm mp g l (some (rel', pmap')) id
            ≡ ok props)
  unfolding insert_edge fetch_edge_properties pmap_tuples_per_page
  insert_edge-fetch fxid cid g l id edge props garbage rel pmap m p valid zero current known normal
        uniform a early fits =
      let new = inserted x varsize empty_object pe fxid cid id edge props in
      let free : is_held none (length rel - 1) ≡ false = λ i. false in
      let ((rel', t), w) = write_record_total pe none rel new (tuple_size new) free fits in
      let app = write_record-IsAppended pe none rel new (tuple_size new) rel' t normal w in
      let at = id_to_tid id 510 in
      let (_, pos, _) = tid_to_id-id_to_tid 510 (omega arith) (omega arith) id a in
      let rec : NeoEdgePhysMapRecord = record { e_itemptr = t; a_itemptr = garbage } in
      let (pmap', e, up) =
        place_record-Upserted pm mp edge_pad_record size_of_edge_phys_map_record pmap at rec uniform
          pos in
      let here : fetch pm pmap' at ≡ some rec =
        ground (arith, up.present, id_to_tid-offset id 510) in
      let (page, in_file) = fetch-block pm pmap' at rec here in
      let lt = lt_of_get_elem? pmap' at.block in_file in
      let read =
        props_at-inserted x varsize empty_object pe fxid cid id edge props rel rel' t m p valid zero
          current app in
      (rel', pmap', ground (arith, w, e), ground arith)
