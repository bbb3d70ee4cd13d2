-- ===== src/PhysMap.antt =====
-- The physical map of src/backend/access/np_phys_map.c, with `np_place_physmap_record` of
-- src/backend/catalog/np_label.c and the arithmetic of addresses: a record of fixed size per id,
-- at an address computed from the id.
pub mod Address
pub mod Place
pub mod Upsert
pub mod ById
mod Tests
use neo_post_graph.Common.{
  ℕ, zero, suc, ◌+◌, ◌-◌, ◌*◌, ◌/◌, ◌%◌, ◌^◌, ◌≤◌, ◌<◌, ◌≡◌, Bool, Option, none, some, List, [],
  ◌∷◌, ◌++◌, ltb, leb, if◌then◌else◌, length, get_elem?, set,
}
use neo_post_graph.Layout.{
  maxalign, blcksz, size_of_page_header, size_of_item_id, size_of_heap_tuple_header,
}
use neo_post_graph.Storage.{
  Tid, tid, invalid_tid, AllNormal, PageOps, Error, no_block, not_normal, Outcome, ok, err, ◌>>=◌,
  item_at, Rel, fetch, store, write_record,
}

-- NeoPhysMapRecord and NeoEdgePhysMapRecord, with their packed sizes.
pub record NeoPhysMapRecord : Type 0 where
  pub v_itemptr : Tid
  pub e_tbl_id : ℕ
  pub e_itemptr : Tid
  pub a_itemptr : Tid

pub record NeoEdgePhysMapRecord : Type 0 where
  pub e_itemptr : Tid
  pub a_itemptr : Tid

abbrev pub size_of_phys_map_record : ℕ
size_of_phys_map_record = 22

abbrev pub size_of_edge_phys_map_record : ℕ
size_of_edge_phys_map_record = 12

-- `np_calculate_tuples_per_page`.
unfoldable pub calculate_tuples_per_page : ℕ → ℕ
calculate_tuples_per_page payload_size =
    let tuple_size = maxalign (size_of_heap_tuple_header + payload_size) in
    (blcksz - size_of_page_header) / (tuple_size + size_of_item_id)

-- `pmap_tuples_per_page`, as the inserts and the reads compute it.
unfoldable pub pmap_tuples_per_page : ℕ → ℕ
pmap_tuples_per_page record_size = (blcksz - size_of_page_header) / (record_size + size_of_item_id)

-- `np_id_to_tid`: a block number of 32 bits and an offset of 16.
unfoldable pub id_to_tid : ℕ → ℕ → Tid
id_to_tid id tuples_per_page =
    let zero_based_id = id - 1 in
    tid ((zero_based_id / tuples_per_page) % 2 ^ 32)
      ((zero_based_id % tuples_per_page + 1) % 2 ^ 16)

-- `np_tid_to_id`, on 64-bit numbers.
unfoldable pub tid_to_id : Tid → ℕ → ℕ
tid_to_id t tuples_per_page =
    ((t.block * tuples_per_page + (t.offset + 2 ^ 64 - 1)) % 2 ^ 64 + 1) % 2 ^ 64

-- What the physical map asks of a page besides `PageOps`: PageAddItemExtended with PAI_OVERWRITE at
-- an offset whose line pointer is not normal, and the bytes between the line pointers and the items.
pub record MapPages {I : Type 0} (pg : PageOps I) : Type 0 where
  pub add_at : pg.Page → I → ℕ → ℕ → Option pg.Page
  pub gap : pg.Page → ℕ
  pub gap_empty : gap pg.empty ≡ blcksz - size_of_page_header
  -- A new line pointer and an aligned item are taken from the gap, if it has room for both.
  pub add_room :
      (p : pg.Page) (i : I) (n : ℕ)
      → AllNormal (pg.slots p)
      → maxalign n + size_of_item_id ≤ gap p
      → (p' : pg.Page) × (o : ℕ) × (pg.add p i n ≡ some (p', o))
        × (gap p' + (maxalign n + size_of_item_id) ≡ gap p)
  pub add_full :
      (p : pg.Page) (i : I) (n : ℕ)
      → AllNormal (pg.slots p)
      → gap p < maxalign n + size_of_item_id
      → pg.add p i n ≡ none
  pub gap_put : (p : pg.Page) (o : ℕ) (i : I) → gap (pg.put p o i) ≡ gap p

module _ {I : Type 0} (pg : PageOps I) (mp : MapPages pg) (pad : I) (record_size : ℕ) where
  -- The extension by `n` initialised blocks.
  unfoldable pub extend_blocks : ℕ → Rel pg → Rel pg
  extend_blocks zero rel = rel
  extend_blocks (suc n) rel = extend_blocks n (rel ++ (pg.empty ∷ []))

  -- PageAddItemExtended at the next offset, its result dropped: a full page stays as it is.
  unfoldable pub add_ignored : pg.Page → I → pg.Page
  add_ignored p i = elim (pg.add p i record_size) [ none ↦ p | some (p', o) ↦ p' ]

  -- The loop that pads, of `n` turns.
  unfoldable pub pad_page : ℕ → pg.Page → pg.Page
  pad_page zero p = p
  pad_page (suc n) p = pad_page n (add_ignored p pad)

  -- The change of the target page.
  unfoldable pub place_in_page : pg.Page → ℕ → I → pg.Page
  place_in_page p offset new =
      let maxoff = length (pg.slots p) in
      if ltb maxoff offset
      then add_ignored (pad_page (offset - 1 - maxoff) p) new
      else elim (item_at (pg.slots p) offset) [
        | some old ↦ pg.put p offset new
        | none ↦ elim (mp.add_at p new record_size offset) [ none ↦ p | some p' ↦ p' ]
      ]

  -- `np_place_physmap_record`, and `np_set_edge_physmap_record` for the edges' records.
  unfoldable pub place_record : Rel pg → Tid → I → Outcome (Rel pg)
  place_record rel t new =
      let extended = extend_blocks (t.block + 1 - length rel) rel in
      elim (get_elem? extended t.block) [
        | none ↦ err no_block
        | some p ↦ ok (set extended t.block (place_in_page p t.offset new))
      ]

module _ {I : Type 0} (pg : PageOps I) where
  -- `np_overwrite_physmap_in_page` and `np_overwrite_edge_physmap_in_page`.
  unfoldable pub overwrite_in_page : Rel pg → Tid → I → Outcome (Rel pg)
  overwrite_in_page rel t new = elim (get_elem? rel t.block) [
    | none ↦ err no_block
    | some _ ↦ elim (fetch pg rel t) [ none ↦ err not_normal | some old ↦ ok (store pg rel t new) ]
  ]

abbrev pub pad_record : NeoPhysMapRecord
pad_record = record {
  v_itemptr = invalid_tid;
  e_tbl_id = 0;
  e_itemptr = invalid_tid;
  a_itemptr = invalid_tid;
}

-- The edges' padding sets one pointer invalid and leaves the other zeroed.
abbrev pub edge_pad_record : NeoEdgePhysMapRecord
edge_pad_record = record { e_itemptr = invalid_tid; a_itemptr = tid 0 0 }

module _ (pg : PageOps NeoEdgePhysMapRecord) where
  -- `np_set_edge_physmap_record`.
  abbrev pub set_edge_physmap_record :
      MapPages pg → Rel pg → Tid → NeoEdgePhysMapRecord → Outcome (Rel pg)
  set_edge_physmap_record mp rel t new =
      place_record pg mp edge_pad_record size_of_edge_phys_map_record rel t new

module _ (pg : PageOps NeoPhysMapRecord) where
  -- `update_vertex_phys_map`.
  unfoldable pub update_vertex_phys_map : Rel pg → ℕ → ℕ → Tid → Outcome (Rel pg)
  update_vertex_phys_map rel vertex_id new_edge_table_oid new_edge_tid =
      let target = id_to_tid vertex_id (calculate_tuples_per_page size_of_phys_map_record) in
      elim (get_elem? rel target.block) [
        | none ↦ err no_block
        | some _ ↦ elim (fetch pg rel target) [
          | none ↦ err not_normal
          | some r ↦ ok (
              store pg rel target
                (record r { e_tbl_id = new_edge_table_oid; e_itemptr = new_edge_tid }))
        ]
      ]

  -- `np_place_physmap_record`.
  abbrev pub place_physmap_record : MapPages pg → Rel pg → Tid → NeoPhysMapRecord → Outcome (Rel pg)
  place_physmap_record mp rel t new =
      place_record pg mp pad_record size_of_phys_map_record rel t new

  -- `np_physmap_tableam_tuple_insert`; the slot gives the record.
  unfoldable pub physmap_insert : Rel pg → NeoPhysMapRecord → Outcome (Rel pg × Tid)
  physmap_insert rel slot = write_record pg none rel slot size_of_phys_map_record

  -- `np_physmap_tableam_tuple_update`: in place, and always TM_Ok.
  unfoldable pub physmap_update : Rel pg → Tid → NeoPhysMapRecord → Outcome (Rel pg)
  physmap_update rel otid slot = overwrite_in_page pg rel otid slot

  -- `get_phys_map_vpointer`: the line pointer is not tested.
  unfoldable pub get_phys_map_vpointer : Rel pg → Tid → Outcome Tid
  get_phys_map_vpointer rel t = elim (get_elem? rel t.block) [
    | none ↦ err no_block
    | some _ ↦ elim (fetch pg rel t) [ none ↦ err not_normal | some r ↦ ok r.v_itemptr ]
  ]

  -- `get_current_head_tid` of src/backend/dml/dml_insert.c: the table and the address of the newest
  -- entry of a vertex's linked list.
  unfoldable pub get_current_head_tid : Rel pg → ℕ → ℕ × Tid
  get_current_head_tid rel vertex_id =
      let target = id_to_tid vertex_id (calculate_tuples_per_page size_of_phys_map_record) in
      if leb (length rel) target.block then (0, invalid_tid) else elim (fetch pg rel target) [
        | none ↦ (0, invalid_tid)
        | some r ↦ (r.e_tbl_id, r.e_itemptr)
      ]
