-- ===== src/LinkedList.antt =====
-- Linked lists of src/backend/access/np_linked_list.c, and `insert_edge_one_direction` of
-- src/backend/dml/dml_insert.c, which puts an edge at the head of a vertex's adjacency.
pub mod Push
pub mod InPlace
mod Tests
use neo_post_graph.Common.{
  ℕ, ◌==◌, Bool, true, false, not, ◌&&◌, Option, none, some, List, [], ◌∷◌, if◌then◌else◌,
  get_elem?,
}
use neo_post_graph.Mvcc.{Header}
use neo_post_graph.Storage.{
  Tid, invalid_tid, tid_is_valid, PageOps, no_block, not_normal, no_active_list, unknown_table,
  Outcome, ok, err, ◌>>=◌, Rel, fetch, store, write_record,
}
use neo_post_graph.Entity.{TmResult, tm_ok}
use neo_post_graph.PhysMap.{NeoPhysMapRecord, get_current_head_tid, update_vertex_phys_map}
use neo_post_graph.AdjList.{ArrayListRecord}

-- NeoLinkedListRecord, packed into 77 bytes.
pub record LinkedListRecord : Type 0 where
  pub header : Header
  pub id : ℕ
  pub edge_lid : ℕ
  pub dir : ℕ
  pub owner_id : ℕ
  pub other_id : ℕ
  pub other_lid : ℕ
  pub next_tbl : ℕ
  pub next_itemptr : Tid
  pub prev_tbl : ℕ
  pub prev_itemptr : Tid

abbrev pub size_of_linked_list_record : ℕ
size_of_linked_list_record = 77

-- A row of a label's table of linked lists; `active` is `none` if it is null.
pub record MetaRow : Type 0 where
  pub tbl : ℕ
  pub active : Option Bool

-- `get_active_linked_list_oid`: 0 is the invalid Oid.
unfoldable pub get_active_linked_list_oid : List MetaRow → ℕ
get_active_linked_list_oid [] = 0
get_active_linked_list_oid (row ∷ rows) =
    let rest = get_active_linked_list_oid rows in
    elim row.active [ none ↦ rest | some a ↦ if a then row.tbl else rest ]

-- The record of edge `e` of label `e_lid` at its owner.
unfoldable pub head_record : ℕ → ℕ → ℕ → ℕ → ℕ → ℕ → ℕ → ℕ → ℕ × Tid → LinkedListRecord
head_record fxid cid e e_lid direction owner other other_lid (old_tbl, old_head) = record {
  header = record { xmin = fxid; xmax = 0; cmin = cid; cmax = 4294967295 };
  id = e;
  edge_lid = e_lid;
  dir = direction;
  owner_id = owner;
  other_id = other;
  other_lid = other_lid;
  next_tbl = (if tid_is_valid old_head then old_tbl else 0);
  next_itemptr = (if tid_is_valid old_head then old_head else invalid_tid);
  prev_tbl = 0;
  prev_itemptr = invalid_tid;
}

module _ (pl : PageOps LinkedListRecord) (pa : PageOps ArrayListRecord)
    (pm : PageOps NeoPhysMapRecord) where
  -- The tables by their Oids: the number of columns, and what a linked list or an array list holds.
  pub record Tables : Type 0 where
    pub natts : ℕ → ℕ
    pub linked : ℕ → Rel pl
    pub arrays : ℕ → Rel pa

  abbrev pub put_linked : ℕ → Rel pl → Tables → Tables
  put_linked o rel ts = record ts { linked = λ p. if p == o then rel else ts.linked p }

  abbrev pub put_arrays : ℕ → Rel pa → Tables → Tables
  put_arrays o rel ts = record ts { arrays = λ p. if p == o then rel else ts.arrays p }

  -- `np_linked_list_tableam_tuple_insert`; the slot gives the record without its header.
  unfoldable pub linked_list_insert : ℕ → ℕ → Rel pl → LinkedListRecord → Outcome (Rel pl × Tid)
  linked_list_insert fxid cid rel slot =
      write_record pl none rel
        (record slot { header = record { xmin = fxid; xmax = 0; cmin = cid; cmax = 4294967295 } })
        size_of_linked_list_record

  -- `np_overwrite_record_in_page`: the header of the record on disk stays.
  unfoldable pub overwrite_record_in_page : Rel pl → Tid → LinkedListRecord → Outcome (Rel pl)
  overwrite_record_in_page rel t new_data = elim (get_elem? rel t.block) [
    | none ↦ err no_block
    | some _ ↦ elim (fetch pl rel t) [
      | none ↦ err not_normal
      | some disk ↦ ok (store pl rel t (record new_data { header = disk.header }))
    ]
  ]

  -- `np_linked_list_tableam_tuple_update`; the slot gives the record without its header.
  unfoldable pub linked_list_update : Rel pl → Tid → LinkedListRecord → Outcome (TmResult × Rel pl)
  linked_list_update rel otid slot = overwrite_record_in_page rel otid slot >>= λ r. ok (tm_ok, r)

  -- `update_edge_prev_pointer`.
  unfoldable pub update_edge_prev_pointer : Rel pl → Tid → ℕ → Tid → Outcome (Rel pl)
  update_edge_prev_pointer rel old_head prev_tbl new_head = elim (get_elem? rel old_head.block) [
    | none ↦ err no_block
    | some _ ↦ elim (fetch pl rel old_head) [
      | none ↦ err not_normal
      | some r ↦
          ok (store pl rel old_head (record r { prev_tbl = prev_tbl; prev_itemptr = new_head }))
    ]
  ]

  -- `np_update_arraylist_prev_pointer_inplace`.
  unfoldable pub update_arraylist_prev_pointer : Rel pa → Tid → ℕ → Tid → Outcome (Rel pa)
  update_arraylist_prev_pointer rel t new_prev_tbl new_prev = elim (get_elem? rel t.block) [
    | none ↦ err no_block
    | some _ ↦ elim (fetch pa rel t) [
      | none ↦ err not_normal
      | some r ↦ ok (store pa rel t (record r { prev_tbl = new_prev_tbl; prev_itemptr = new_prev }))
    ]
  ]

  -- The link from the old head back to the new one.
  unfoldable pub link_old_head : Tables → ℕ → Tid → ℕ → Tid → Outcome Tables
  link_old_head ts old_tbl old_head active new =
      if not (tid_is_valid old_head && not (old_tbl == 0))
      then ok ts
      else if ts.natts old_tbl == 10
      then (update_edge_prev_pointer (ts.linked old_tbl) old_head active new >>= λ r.
          ok (put_linked old_tbl r ts))
      else if ts.natts old_tbl == 5
      then (update_arraylist_prev_pointer (ts.arrays old_tbl) old_head active new >>= λ r.
          ok (put_arrays old_tbl r ts))
      else err unknown_table

  -- `insert_edge_one_direction`, for an owner whose label has its map and table of linked lists.
  unfoldable pub insert_edge_one_direction :
      ℕ → ℕ → List MetaRow → Tables → Rel pm → ℕ → ℕ → ℕ → ℕ → ℕ → ℕ → Outcome (Tables × Rel pm)
  insert_edge_one_direction fxid cid meta ts pmap e e_lid direction owner other other_lid =
      let active = get_active_linked_list_oid meta in
      if active == 0
      then err no_active_list
      else (let old = get_current_head_tid pm pmap owner in
          do
            (rel', new) ←
                linked_list_insert fxid cid (ts.linked active)
                  (head_record fxid cid e e_lid direction owner other other_lid old)
            ts' ← link_old_head (put_linked active rel' ts) old.0 old.1 active new
            pmap' ← update_vertex_phys_map pm pmap owner active new
            ok (ts', pmap'))
