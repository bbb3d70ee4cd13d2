-- ===== src/Graph.antt =====
-- Vertices and edges in their two tables: the inserts of src/backend/dml/dml_insert.c and the reads
-- of src/backend/access/np_entity_store.c, which find an entity through its label's physical map.
pub mod Props
pub mod Vertex
pub mod Edge
mod Tests
use neo_post_graph.Common.{
  ℕ, not, Option, none, some, leb, if◌then◌else◌, length, get_elem?, ◌||◌, ◌==◌,
}
use neo_post_graph.Mvcc.{Xact, is_live}
use neo_post_graph.Storage.{
  Tid, invalid_tid, tid_is_valid, PageOps, no_block, not_normal, Outcome, ok, err, ◌>>=◌, Rel,
  fetch, write_record,
}
use neo_post_graph.Entity.{
  Bytes, EntityTuple, EntityRow, payload_of, new_version, tuple_size, copy_props,
}
use neo_post_graph.PhysMap.{
  NeoPhysMapRecord, NeoEdgePhysMapRecord, MapPages, size_of_phys_map_record,
  size_of_edge_phys_map_record, pmap_tuples_per_page, id_to_tid, place_physmap_record,
  set_edge_physmap_record,
}

-- `empty_object` is what `np_empty_gtype_object` gives, and `varsize` is VARSIZE.
module _ (x : Xact) (varsize : Bytes → ℕ) (empty_object : Bytes) (pe : PageOps EntityTuple) where
  -- The common end of the two reads: the properties of the entity at an item pointer. The line
  -- pointer is not tested.
  unfoldable pub props_at : Rel pe → Tid → Outcome Bytes
  props_at rel t = if not (tid_is_valid t) then ok empty_object else elim (get_elem? rel t.block) [
    | none ↦ err no_block
    | some _ ↦ elim (fetch pe rel t) [
      | none ↦ err not_normal
      | some hdr ↦
          if not (is_live x hdr.header) then ok empty_object else ok (copy_props varsize hdr)
    ]
  ]

  module _ (pm : PageOps NeoPhysMapRecord) (mp : MapPages pm) where
    -- `np_internal_insert_vertex` without its annotations: `a_itemptr` is the pointer that it has for
    -- them. `props` is `none` for a null pointer.
    unfoldable pub insert_vertex :
        ℕ → ℕ → Rel pe × Rel pm → ℕ → Bytes → Option Bytes → Tid → Outcome (Rel pe × Rel pm)
    insert_vertex fxid cid (rel, pmap) id v props a_itemptr =
        let row : EntityRow = record {
          row_id = id;
          meta = v;
          props = some (elim props [ none ↦ empty_object | some p ↦ p ]);
        } in
        let tuple = new_version fxid cid invalid_tid id (payload_of row) in
        do
          (rel', v_itemptr) ← write_record pe none rel tuple (tuple_size tuple)
          pmap' ←
              place_physmap_record pm mp pmap
                (id_to_tid id (pmap_tuples_per_page size_of_phys_map_record))
                (record {
                  v_itemptr = v_itemptr;
                  e_tbl_id = 0;
                  e_itemptr = invalid_tid;
                  a_itemptr = a_itemptr;
                })
          ok (rel', pmap')

    -- `np_fetch_vertex_properties`; `label` is `none` if the cache has no label with both tables.
    unfoldable pub fetch_vertex_properties : ℕ → ℕ → Option (Rel pe × Rel pm) → ℕ → Outcome Bytes
    fetch_vertex_properties graph_id label_id label id =
        if graph_id == 0 || label_id == 0 then ok empty_object else elim label [
          | none ↦ ok empty_object
          | some (rel, pmap) ↦
              let t = id_to_tid id (pmap_tuples_per_page size_of_phys_map_record) in
              if leb (length pmap) t.block then ok empty_object else elim (fetch pm pmap t) [
                | none ↦ ok empty_object
                | some r ↦ props_at rel r.v_itemptr
              ]
        ]

  module _ (pm : PageOps NeoEdgePhysMapRecord) (mp : MapPages pm) where
    -- The first four steps of `np_internal_insert_edge`, for a label with a physical map. `garbage` is
    -- the pointer for annotations, which the code leaves as it was on the stack.
    unfoldable pub insert_edge :
        ℕ → ℕ → Rel pe × Rel pm → ℕ → Bytes → Option Bytes → Tid → Outcome (Rel pe × Rel pm)
    insert_edge fxid cid (rel, pmap) id e props garbage =
        let row : EntityRow = record {
          row_id = id;
          meta = e;
          props = some (elim props [ none ↦ empty_object | some p ↦ p ]);
        } in
        let tuple = new_version fxid cid invalid_tid id (payload_of row) in
        do
          (rel', e_itemptr) ← write_record pe none rel tuple (tuple_size tuple)
          pmap' ←
              set_edge_physmap_record pm mp pmap
                (id_to_tid id (pmap_tuples_per_page size_of_edge_phys_map_record))
                (record { e_itemptr = e_itemptr; a_itemptr = garbage })
          ok (rel', pmap')

    -- `np_fetch_edge_properties`; the line pointer of the map is not tested.
    unfoldable pub fetch_edge_properties : ℕ → ℕ → Option (Rel pe × Rel pm) → ℕ → Outcome Bytes
    fetch_edge_properties graph_id label_id label id =
        if graph_id == 0 || label_id == 0 then ok empty_object else elim label [
          | none ↦ ok empty_object
          | some (rel, pmap) ↦
              let t = id_to_tid id (pmap_tuples_per_page size_of_edge_phys_map_record) in
              if leb (length pmap) t.block then ok empty_object else elim (fetch pm pmap t) [
                | none ↦ err not_normal
                | some r ↦ props_at rel r.e_itemptr
              ]
        ]
