-- ===== src/LinkedList/Tests.antt =====
-- Runs of the insert of an edge, and its theorem at concrete tables.
use neo_post_graph.Common.{
  ℕ, ◌≡◌, refl, true, false, ◌&&◌, none, some, [], ◌∷◌, List, arith, ◌==◌, if◌then◌else◌,
}
use neo_post_graph.Mvcc.{record_satisfies_snapshot}
use neo_post_graph.Entity.{tm_ok}
use neo_post_graph.Storage.{Tid, tid, invalid_tid, ok, Rel, fetch}
use neo_post_graph.Storage.Append.{RelNormal}
use neo_post_graph.PhysMap.{
  NeoPhysMapRecord, id_to_tid, calculate_tuples_per_page, size_of_phys_map_record,
  get_current_head_tid,
}
use neo_post_graph.PhysMap.Address.{Addressable}
use neo_post_graph.AdjList.{ArrayListRecord}
use neo_post_graph.LinkedList.{
  LinkedListRecord, MetaRow, get_active_linked_list_oid, Tables, head_record,
  insert_edge_one_direction, linked_list_update,
}
use neo_post_graph.LinkedList.InPlace.{linked_list_update-fetch}
use neo_post_graph.LinkedList.Push.{at, same, insert_edge_one_direction-head}
use neo_post_graph.Sample.{ready, sample_pages, sample_xact, sample_snapshot, RelNormal-one}

abbrev old_entry : LinkedListRecord
old_entry = record {
  header = record { xmin = 3; xmax = 0; cmin = 0; cmax = 0 };
  id = 20;
  edge_lid = 2;
  dir = 0;
  owner_id = 1;
  other_id = 4;
  other_lid = 3;
  next_tbl = 0;
  next_itemptr = invalid_tid;
  prev_tbl = 0;
  prev_itemptr = invalid_tid;
}

abbrev linked_lists : Rel (sample_pages LinkedListRecord)
linked_lists = ready 1000 (some old_entry ∷ []) ∷ []

-- Table 77 is a linked list with one entry.
abbrev tables :
    Tables
      (sample_pages LinkedListRecord)
      (sample_pages ArrayListRecord)
      (sample_pages NeoPhysMapRecord)
tables = record {
  natts = λ o. 10;
  linked = λ o. if o == 77 then linked_lists else [];
  arrays = λ o. [];
}

abbrev rows : List MetaRow
rows =
    record { tbl = 76; active = some false }
    ∷ record { tbl = 75; active = none }
    ∷ record { tbl = 77; active = some true }
    ∷ []

abbrev slot : NeoPhysMapRecord
slot = record { v_itemptr = tid 0 1; e_tbl_id = 77; e_itemptr = tid 0 1; a_itemptr = invalid_tid }

abbrev vertex_map : Rel (sample_pages NeoPhysMapRecord)
vertex_map = ready 8140 (some slot ∷ []) ∷ []

active_run : get_active_linked_list_oid rows ≡ 77
unfolding get_active_linked_list_oid
active_run = refl

linked_lists-RelNormal : RelNormal (sample_pages LinkedListRecord) linked_lists
linked_lists-RelNormal =
    RelNormal-one (sample_pages LinkedListRecord) (ready 1000 (some old_entry ∷ [])) tt

address_1 : Addressable 157 1
address_1 = (omega arith, omega arith, omega arith)

slot_at :
    fetch
      (sample_pages NeoPhysMapRecord)
      vertex_map
      (id_to_tid 1 (calculate_tuples_per_page size_of_phys_map_record))
    ≡ some slot
unfolding fetch id_to_tid calculate_tuples_per_page
slot_at = refl

head_run : get_current_head_tid (sample_pages NeoPhysMapRecord) vertex_map 1 ≡ (77, tid 0 1)
unfolding get_current_head_tid fetch id_to_tid calculate_tuples_per_page
head_run = refl

old_at : fetch (sample_pages LinkedListRecord) linked_lists (tid 0 1) ≡ some old_entry
unfolding fetch
old_at = refl

insert_edge_one_direction-head_example :
    let pl = sample_pages LinkedListRecord in
    let pa = sample_pages ArrayListRecord in
    let pm = sample_pages NeoPhysMapRecord in
    let new = head_record 7 2 21 2 0 1 5 3 (77, tid 0 1) in
    (ts' : Tables pl pa pm) × (pmap' : Rel pm) × (t : Tid) × (insert_edge_one_direction pl pa pm 7 2
        rows tables vertex_map 21 2 0 1 5 3
      ≡ ok (ts', pmap'))
    × (get_current_head_tid pm pmap' 1 ≡ (77, t))
    × (at pl pa pm tables 77 t ≡ none)
    × ((o : ℕ) (u : Tid)
        → at pl pa pm ts' o u ≡ (
            if o == 77 && same u (tid 0 1)
            then some (record old_entry { prev_tbl = 77; prev_itemptr = t })
            else if o == 77 && same u t
            then some new
            else at pl pa pm tables o u))
    × (new.next_tbl ≡ 77)
    × (new.next_itemptr ≡ tid 0 1)
insert_edge_one_direction-head_example =
    insert_edge_one_direction-head (sample_pages LinkedListRecord) (sample_pages ArrayListRecord)
      (sample_pages NeoPhysMapRecord) 7 2 21 2 0 1 5 3 77 77 (tid 0 1) rows tables vertex_map slot
      old_entry (omega arith) active_run (omega arith) linked_lists-RelNormal address_1 slot_at
      head_run refl (omega arith) refl old_at

-- The entry with another neighbour.
abbrev changed_entry : LinkedListRecord
changed_entry = record old_entry { other_id = 6 }

linked_list_update-fetch_example :
    let pl = sample_pages LinkedListRecord in
    (rel' : Rel pl) × (new : LinkedListRecord) × (linked_list_update pl
        (sample_pages ArrayListRecord)
        (sample_pages NeoPhysMapRecord)
        linked_lists
        (tid 0 1)
        changed_entry
      ≡ ok (tm_ok, rel'))
    × ((u : Tid)
        → fetch pl rel' u
          ≡ (if u.block == 0 && u.offset == 1 then some new else fetch pl linked_lists u))
    × (new ≡ record changed_entry { header = old_entry.header })
    × (record_satisfies_snapshot sample_xact new.header sample_snapshot
        ≡ record_satisfies_snapshot sample_xact old_entry.header sample_snapshot)
linked_list_update-fetch_example =
    linked_list_update-fetch (sample_pages LinkedListRecord) (sample_pages ArrayListRecord)
      (sample_pages NeoPhysMapRecord) sample_xact sample_snapshot linked_lists (tid 0 1) old_entry
      changed_entry old_at
