-- ===== src/PhysMap/Tests.antt =====
-- Runs of the physical map, and its theorems at a concrete map.
use neo_post_graph.Common.{
  ℕ, zero, suc, ◌*◌, ◌≤◌, ◌<◌, ◌≡◌, ◌≢◌, refl, none, some, [], ◌∷◌, arith, ◌==◌, if◌then◌else◌,
}
use mathlib.Core.Path.{subst}
use neo_post_graph.Storage.{tid, invalid_tid, ok, Rel, fetch, store}
use neo_post_graph.PhysMap.{
  NeoPhysMapRecord, size_of_phys_map_record, calculate_tuples_per_page, pmap_tuples_per_page,
  id_to_tid, tid_to_id, pad_record, place_record, update_vertex_phys_map, get_current_head_tid,
  extend_blocks, place_in_page, pad_page, add_ignored,
}
use neo_post_graph.PhysMap.Address.{Addressable, tid_to_id-id_to_tid, id_to_tid_differ}
use neo_post_graph.PhysMap.Place.{UniformPage, UniformMap}
use neo_post_graph.PhysMap.Upsert.{Upserted, place_record-Upserted}
use neo_post_graph.PhysMap.ById.{vertex_entry_lost, update_vertex_phys_map-head}
use neo_post_graph.Sample.{SamplePage, ready, sample_pages, sample_map_pages}

abbrev vertex : ℕ → NeoPhysMapRecord
vertex o = record {
  v_itemptr = tid 0 o;
  e_tbl_id = 0;
  e_itemptr = invalid_tid;
  a_itemptr = invalid_tid;
}

abbrev one_page : SamplePage NeoPhysMapRecord
one_page = ready 8140 (some (vertex 1) ∷ [])

-- A map with the record of id 1.
abbrev one_vertex : Rel (sample_pages NeoPhysMapRecord)
one_vertex = one_page ∷ []

one_page-UniformPage :
    UniformPage
      (sample_pages NeoPhysMapRecord)
      (sample_map_pages NeoPhysMapRecord)
      pad_record
      size_of_phys_map_record
      one_page
one_page-UniformPage = record { normal = tt; space = refl }

one_vertex-UniformMap :
    UniformMap
      (sample_pages NeoPhysMapRecord)
      (sample_map_pages NeoPhysMapRecord)
      pad_record
      size_of_phys_map_record
      one_vertex
one_vertex-UniformMap zero p e =
    let same : one_page ≡ p = ground arith in
    subst
      (UniformPage (sample_pages NeoPhysMapRecord) (sample_map_pages NeoPhysMapRecord) pad_record
        size_of_phys_map_record)
      same one_page-UniformPage
one_vertex-UniformMap (suc b) p e = cc

address_run : (id_to_tid 158 314 ≡ tid 0 158) × (id_to_tid 158 157 ≡ tid 1 1)
unfolding id_to_tid
address_run = (refl, refl)

formulas_run :
    (calculate_tuples_per_page size_of_phys_map_record ≡ 157)
    × (pmap_tuples_per_page size_of_phys_map_record ≡ 314)
unfolding calculate_tuples_per_page pmap_tuples_per_page
formulas_run = (refl, refl)

-- Id 3 is placed behind the padding for id 2.
place_run :
    place_record
      (sample_pages NeoPhysMapRecord)
      (sample_map_pages NeoPhysMapRecord)
      pad_record
      size_of_phys_map_record
      one_vertex
      (tid 0 3)
      (vertex 7)
    ≡ ok (ready 8084 (some (vertex 1) ∷ some pad_record ∷ some (vertex 7) ∷ []) ∷ [])
unfolding place_record extend_blocks place_in_page pad_page add_ignored
place_run = refl

address_5 : Addressable 314 5
address_5 = (omega arith, omega arith, omega arith)

tid_to_id-id_to_tid_example :
    (tid_to_id (id_to_tid 5 314) 314 ≡ 5)
    × (0 < (id_to_tid 5 314).offset)
    × ((id_to_tid 5 314).offset ≤ 314)
tid_to_id-id_to_tid_example = tid_to_id-id_to_tid 314 (omega arith) (omega arith) 5 address_5

id_to_tid_differ_example :
    (id_to_tid 158 (calculate_tuples_per_page size_of_phys_map_record)).block
    ≢ (id_to_tid 158 (pmap_tuples_per_page size_of_phys_map_record)).block
id_to_tid_differ_example = id_to_tid_differ 158 (omega arith) (omega arith)

place_record-Upserted_example :
    (rel' : Rel (sample_pages NeoPhysMapRecord)) × (place_record
        (sample_pages NeoPhysMapRecord)
        (sample_map_pages NeoPhysMapRecord)
        pad_record
        size_of_phys_map_record
        one_vertex
        (tid 0 3)
        (vertex 7)
      ≡ ok rel')
    × Upserted
        (sample_pages NeoPhysMapRecord)
        (sample_map_pages NeoPhysMapRecord)
        pad_record
        size_of_phys_map_record
        one_vertex
        (tid 0 3)
        (vertex 7)
        rel'
place_record-Upserted_example =
    place_record-Upserted (sample_pages NeoPhysMapRecord) (sample_map_pages NeoPhysMapRecord)
      pad_record size_of_phys_map_record one_vertex (tid 0 3) (vertex 7) one_vertex-UniformMap
      (omega arith)

address_1 : Addressable 314 1
address_1 = (omega arith, omega arith, omega arith)

offset_5 : 28 * (id_to_tid 5 314).offset ≤ 8168
unfolding id_to_tid
offset_5 = omega arith

address_292 : Addressable 314 292
address_292 = (omega arith, omega arith, omega arith)

vertex_entry_lost_example :
    let t = id_to_tid 292 (pmap_tuples_per_page size_of_phys_map_record) in
    (rel' : Rel (sample_pages NeoPhysMapRecord)) × (place_record
        (sample_pages NeoPhysMapRecord)
        (sample_map_pages NeoPhysMapRecord)
        pad_record
        size_of_phys_map_record
        one_vertex
        t
        (vertex 7)
      ≡ ok rel')
    × (fetch (sample_pages NeoPhysMapRecord) rel' t ≡ none)
vertex_entry_lost_example =
    vertex_entry_lost (sample_pages NeoPhysMapRecord) (sample_map_pages NeoPhysMapRecord) pad_record
      one_vertex 292 (vertex 7) one_vertex-UniformMap address_292 (omega arith)

-- The map after an edge was put at the head of vertex 1's list.
abbrev with_edge : Rel (sample_pages NeoPhysMapRecord)
with_edge = ready 8140 (some (record (vertex 1) { e_tbl_id = 77; e_itemptr = tid 2 3 }) ∷ []) ∷ []

update_run :
    update_vertex_phys_map (sample_pages NeoPhysMapRecord) one_vertex 1 77 (tid 2 3) ≡ ok with_edge
unfolding update_vertex_phys_map fetch store id_to_tid calculate_tuples_per_page
update_run = refl

address_by_157 : Addressable 157 1
address_by_157 = (omega arith, omega arith, omega arith)

update_vertex_phys_map-head_example :
    get_current_head_tid (sample_pages NeoPhysMapRecord) with_edge 1 ≡ (
      if 1 == 1
      then (77, tid 2 3)
      else get_current_head_tid (sample_pages NeoPhysMapRecord) one_vertex 1)
update_vertex_phys_map-head_example =
    update_vertex_phys_map-head (sample_pages NeoPhysMapRecord) one_vertex with_edge 1 1 77
      (tid 2 3) address_by_157 address_by_157 update_run
