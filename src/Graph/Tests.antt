-- ===== src/Graph/Tests.antt =====
-- Runs of the inserts and the reads, and their theorems at concrete labels.
use neo_post_graph.Common.{
  ℕ, zero, suc, ◌+◌, ◌≤◌, ◌≡◌, refl, some, [], ◌∷◌, arith, ◌==◌, if◌then◌else◌,
}
use mathlib.Core.Path.{subst}
use neo_post_graph.Layout.{maxalign}
use neo_post_graph.Storage.{tid, invalid_tid, ok, Rel, fetch}
use neo_post_graph.Storage.Append.{RelNormal}
use neo_post_graph.Entity.{Bytes, EntityTuple, tuple_size, new_version, payload_of, pack, pack_size}
use neo_post_graph.Entity.Pack.{IsVarlena}
use neo_post_graph.PhysMap.{
  NeoPhysMapRecord, NeoEdgePhysMapRecord, size_of_phys_map_record, size_of_edge_phys_map_record,
  pad_record, edge_pad_record, id_to_tid, pmap_tuples_per_page,
}
use neo_post_graph.PhysMap.Address.{Addressable}
use neo_post_graph.PhysMap.Place.{UniformPage, UniformMap}
use neo_post_graph.Graph.{
  insert_vertex, fetch_vertex_properties, insert_edge, fetch_edge_properties,
}
use neo_post_graph.Graph.Props.{inserted, Leads}
use neo_post_graph.Graph.Vertex.{vertex_entry, insert_vertex-fetch}
use neo_post_graph.Graph.Edge.{insert_edge-fetch}
use neo_post_graph.Sample.{
  SamplePage, ready, sample_pages, sample_map_pages, sample_xact, RelNormal-one,
}

-- VARSIZE of bytes whose first one is the size.
abbrev first_byte : Bytes → ℕ
first_byte [] = 0
first_byte (b ∷ bs) = b

abbrev empty_object : Bytes
empty_object = 2 ∷ 0 ∷ []

abbrev entity_bytes : Bytes
entity_bytes = 3 ∷ 1 ∷ 2 ∷ []

abbrev props_bytes : Bytes
props_bytes = 2 ∷ 9 ∷ []

-- The committed entity of id 1, and a label that holds it alone.
abbrev first_entity : EntityTuple
first_entity = new_version 3 0 invalid_tid 1 (3 ∷ 1 ∷ 1 ∷ 0 ∷ 0 ∷ 0 ∷ 0 ∷ 0 ∷ 2 ∷ 8 ∷ [])

abbrev entities : Rel (sample_pages EntityTuple)
entities = ready 1000 (some first_entity ∷ []) ∷ []

abbrev first_page : SamplePage NeoPhysMapRecord
first_page = ready 8140 (
    some (record {
      v_itemptr = tid 0 1;
      e_tbl_id = 0;
      e_itemptr = invalid_tid;
      a_itemptr = invalid_tid;
    })
    ∷ [])

abbrev vertex_map : Rel (sample_pages NeoPhysMapRecord)
vertex_map = first_page ∷ []

vertex_map-UniformMap :
    UniformMap
      (sample_pages NeoPhysMapRecord)
      (sample_map_pages NeoPhysMapRecord)
      pad_record
      size_of_phys_map_record
      vertex_map
vertex_map-UniformMap zero p e =
    let same : first_page ≡ p = ground arith in
    subst
      (UniformPage (sample_pages NeoPhysMapRecord) (sample_map_pages NeoPhysMapRecord) pad_record
        size_of_phys_map_record)
      same (record { normal = tt; space = refl })
vertex_map-UniformMap (suc b) p e = cc

entities-RelNormal : RelNormal (sample_pages EntityTuple) entities
entities-RelNormal =
    RelNormal-one (sample_pages EntityTuple) (ready 1000 (some first_entity ∷ [])) tt

entity-IsVarlena : IsVarlena first_byte entity_bytes
entity-IsVarlena = λ rest. refl

props-IsVarlena : IsVarlena first_byte props_bytes
props-IsVarlena = λ rest. refl

first-Leads :
    Leads sample_xact first_byte empty_object
      (sample_pages EntityTuple)
      entities
      (vertex_entry sample_xact first_byte empty_object
        (sample_pages EntityTuple)
        (sample_pages NeoPhysMapRecord)
        (sample_map_pages NeoPhysMapRecord)
        vertex_map
        1).v_itemptr
unfolding fetch id_to_tid pmap_tuples_per_page
first-Leads v = (first_entity, refl)

address_2 : Addressable 314 2
address_2 = (omega arith, omega arith, omega arith)

address_1 : Addressable 314 1
address_1 = (omega arith, omega arith, omega arith)

room :
    maxalign (
        tuple_size (
          inserted sample_xact first_byte empty_object
            (sample_pages EntityTuple)
            7
            2
            2
            entity_bytes
            props_bytes))
      + 4
    ≤ 8164
unfolding tuple_size new_version payload_of pack pack_size
room = omega arith

insert_vertex-fetch_example :
    (rel' : Rel (sample_pages EntityTuple)) × (pmap' : Rel (sample_pages NeoPhysMapRecord))
    × (insert_vertex sample_xact first_byte empty_object
          (sample_pages EntityTuple)
          (sample_pages NeoPhysMapRecord)
          (sample_map_pages NeoPhysMapRecord)
          7
          2
          (entities, vertex_map)
          2
          entity_bytes
          (some props_bytes)
          invalid_tid
        ≡ ok (rel', pmap'))
    × (fetch_vertex_properties sample_xact first_byte empty_object
          (sample_pages EntityTuple)
          (sample_pages NeoPhysMapRecord)
          (sample_map_pages NeoPhysMapRecord)
          4
          5
          (some (rel', pmap'))
          1
        ≡ (if 2 == 1
            then ok props_bytes
            else fetch_vertex_properties sample_xact first_byte empty_object
                (sample_pages EntityTuple)
                (sample_pages NeoPhysMapRecord)
                (sample_map_pages NeoPhysMapRecord)
                4
                5
                (some (entities, vertex_map))
                1))
insert_vertex-fetch_example =
    insert_vertex-fetch sample_xact first_byte empty_object (sample_pages EntityTuple)
      (sample_pages NeoPhysMapRecord) (sample_map_pages NeoPhysMapRecord) 7 2 4 5 2 1 entity_bytes
      props_bytes invalid_tid entities vertex_map entity-IsVarlena props-IsVarlena refl refl refl
      refl entities-RelNormal vertex_map-UniformMap address_2 (omega arith) address_1 first-Leads
      room

edge_map-UniformMap :
    UniformMap
      (sample_pages NeoEdgePhysMapRecord)
      (sample_map_pages NeoEdgePhysMapRecord)
      edge_pad_record
      size_of_edge_phys_map_record
      []
edge_map-UniformMap b p e = cc

address_511 : Addressable 510 511
address_511 = (omega arith, omega arith, omega arith)

room_511 :
    maxalign (
        tuple_size (
          inserted sample_xact first_byte empty_object
            (sample_pages EntityTuple)
            7
            2
            511
            entity_bytes
            props_bytes))
      + 4
    ≤ 8164
unfolding tuple_size new_version payload_of pack pack_size
room_511 = omega arith

insert_edge-fetch_example :
    (rel' : Rel (sample_pages EntityTuple)) × (pmap' : Rel (sample_pages NeoEdgePhysMapRecord))
    × (insert_edge sample_xact first_byte empty_object
          (sample_pages EntityTuple)
          (sample_pages NeoEdgePhysMapRecord)
          (sample_map_pages NeoEdgePhysMapRecord)
          7
          2
          (entities, [])
          511
          entity_bytes
          (some props_bytes)
          (tid 9 9)
        ≡ ok (rel', pmap'))
    × (fetch_edge_properties sample_xact first_byte empty_object
          (sample_pages EntityTuple)
          (sample_pages NeoEdgePhysMapRecord)
          (sample_map_pages NeoEdgePhysMapRecord)
          4
          5
          (some (rel', pmap'))
          511
        ≡ ok props_bytes)
insert_edge-fetch_example =
    insert_edge-fetch sample_xact first_byte empty_object (sample_pages EntityTuple)
      (sample_pages NeoEdgePhysMapRecord) (sample_map_pages NeoEdgePhysMapRecord) 7 2 4 5 511
      entity_bytes props_bytes (tid 9 9) entities [] entity-IsVarlena props-IsVarlena refl refl refl
      refl entities-RelNormal edge_map-UniformMap address_511 (omega arith) room_511
