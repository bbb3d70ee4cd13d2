-- ===== src/Delete/Tests.antt =====
-- Runs of the deletes, and their theorems at a vertex with two entries.
use neo_post_graph.Common.{
  ℕ, ◌⊎◌, ◌≡◌, ◌≢◌, refl, true, false, ◌&&◌, Option, none, some, [], ◌∷◌, ◌++◌, List, arith, ◌==◌,
  if◌then◌else◌,
}
use neo_post_graph.Mvcc.{is_live, xmax_other}
use neo_post_graph.Storage.{
  Tid, tid, invalid_tid, PageOps, Outcome, ok, err, hang, active_edges, concurrent_change, Rel,
  fetch, ◌>>=◌,
}
use neo_post_graph.Entity.{EntityTuple, zeros, tombstone}
use neo_post_graph.PhysMap.{
  NeoPhysMapRecord, NeoEdgePhysMapRecord, id_to_tid, calculate_tuples_per_page,
  pmap_tuples_per_page, get_current_head_tid,
}
use neo_post_graph.AdjList.{AdjListMember, ArrayListRecord}
use neo_post_graph.LinkedList.{LinkedListRecord, Tables}
use neo_post_graph.GtypeExt.{to_bytes}
use neo_post_graph.Delete.{
  mark_member, unlink_walk, delete_tuple, delete_edge_tuple, edge_at, VertexLabel, EdgeLabel, Db,
  delete_edge_from_adj_list, internal_delete_edge, delete_vertex,
}
use neo_post_graph.Delete.Chain.{Node, IsChain, all_entries}
use neo_post_graph.Delete.Turn.{member_of, node_at}
use neo_post_graph.Delete.Walk.{Unlinked, delete_edge_from_adj_list-Unlinked}
use neo_post_graph.Delete.Once.{IsEdge, after, internal_delete_edge_once}
use neo_post_graph.Delete.Collect.{vertex_node, live_edges}
use neo_post_graph.Delete.Vertex.{IsVertex}
use neo_post_graph.Delete.Gone.{IsGone, Deleted, delete_vertex_guard, delete_vertex_detach}
use neo_post_graph.Delete.Loop.{delete_vertex_loop}
use neo_post_graph.Sample.{ready, sample_pages, sample_xact}

abbrev pl : PageOps LinkedListRecord
pl = sample_pages LinkedListRecord

abbrev pa : PageOps ArrayListRecord
pa = sample_pages ArrayListRecord

abbrev pm : PageOps NeoPhysMapRecord
pm = sample_pages NeoPhysMapRecord

abbrev pe : PageOps EntityTuple
pe = sample_pages EntityTuple

abbrev pem : PageOps NeoEdgePhysMapRecord
pem = sample_pages NeoEdgePhysMapRecord

-- The entry of edge `e` of label 2 at vertex 1 of label 3.
abbrev entry : ℕ → ℕ → Tid → LinkedListRecord
entry e next_tbl next = record {
  header = record { xmin = 3; xmax = 0; cmin = 0; cmax = 4294967295 };
  id = e;
  edge_lid = 2;
  dir = 0;
  owner_id = 1;
  other_id = 1;
  other_lid = 3;
  next_tbl = next_tbl;
  next_itemptr = next;
  prev_tbl = 0;
  prev_itemptr = invalid_tid;
}

-- Table 77 holds the two entries, of which the second is the newest.
abbrev tables : ℕ → Tables pl pa pm
tables e = record {
  natts = λ o. 10;
  linked = λ o.
      if o == 77
      then ready 1000 (some (entry e 0 invalid_tid) ∷ some (entry 1 77 (tid 0 1)) ∷ []) ∷ []
      else [];
  arrays = λ o. [];
}

abbrev vertex_map : Rel pm
vertex_map =
    ready 8140 (
      some (record {
        v_itemptr = tid 0 1;
        e_tbl_id = 77;
        e_itemptr = tid 0 2;
        a_itemptr = invalid_tid;
      })
      ∷ [])
    ∷ []

abbrev nodes : ℕ → List Node
nodes e =
    record { entries = member_of (entry 1 77 (tid 0 1)) ∷ []; next_tbl = 77; next = tid 0 1 }
    ∷ record { entries = member_of (entry e 0 invalid_tid) ∷ []; next_tbl = 0; next = invalid_tid }
    ∷ []

nodes-IsChain : (e : ℕ) → IsChain (node_at pl pa pm (tables e)) 77 (tid 0 2) (nodes e)
unfolding node_at fetch
nodes-IsChain e = (refl, refl, (refl, refl, refl))

head_of_1 : get_current_head_tid pm vertex_map 1 ≡ (77, tid 0 2)
unfolding get_current_head_tid fetch id_to_tid calculate_tuples_per_page
head_of_1 = refl

head-IsChain :
    (e : ℕ)
    → IsChain
        (node_at pl pa pm (tables e))
        (get_current_head_tid pm vertex_map 1).0
        (get_current_head_tid pm vertex_map 1).1
        (nodes e)
head-IsChain e = rw head_of_1 (nodes-IsChain e)

delete_edge_from_adj_list-Unlinked_example :
    (ts' : Tables pl pa pm) × (delete_edge_from_adj_list pl pa pm 7 2 3
        (tables 4)
        (some vertex_map)
        1
        4
      ≡ ok ts')
    × (let (tbl, t) = get_current_head_tid pm vertex_map 1 in
        Unlinked pl pa pm 7 2 4 (tables 4) tbl t (nodes 4) ts')
delete_edge_from_adj_list-Unlinked_example =
    delete_edge_from_adj_list-Unlinked pl pa pm 7 2 4 3 (tables 4) vertex_map 1 (nodes 4)
      (omega arith) (head-IsChain 4)

-- Edge 1 goes from vertex 1 of label 3 to itself.
abbrev loop_tuple : EntityTuple
loop_tuple = record {
  header = record { xmin = 3; xmax = 0; cmin = 0; cmax = 4294967295 };
  prev_itemptr = invalid_tid;
  flags = 0;
  id = 1;
  serialized_entity =
      zeros 28 ++ (to_bytes 4 3 ++ (to_bytes 8 1 ++ (to_bytes 4 3 ++ (zeros 4 ++ to_bytes 8 1))));
}

abbrev slot_1 : Option NeoEdgePhysMapRecord
slot_1 = some (record { e_itemptr = tid 0 1; a_itemptr = invalid_tid })

abbrev slot_4 : Option NeoEdgePhysMapRecord
slot_4 = some (record { e_itemptr = tid 0 2; a_itemptr = invalid_tid })

abbrev edge_label : EdgeLabel pl pa pm pe pem
edge_label = record {
  edge_tbl = ready 1000 (some loop_tuple ∷ some (record loop_tuple { id = 4 }) ∷ []) ∷ [];
  edge_phys_map = ready 8000 (slot_1 ∷ none ∷ none ∷ slot_4 ∷ []) ∷ [];
}

abbrev vertex_label : VertexLabel pl pa pm pe pem
vertex_label = record {
  vertex_tbl = some (ready 1000 (some loop_tuple ∷ []) ∷ []);
  phys_map = some vertex_map;
  arraylist = 88;
}

abbrev store : ℕ → Db sample_xact pl pa pm pe pem
store e = record {
  tables = tables e;
  vertex_labels = λ l. if l == 3 then some vertex_label else none;
  edge_labels = λ l. if l == 2 then some edge_label else none;
}

ends_run : (edge_at loop_tuple.serialized_entity).start_label ≡ 3
unfolding edge_at to_bytes
ends_run = refl

loop-IsEdge : IsEdge sample_xact pl pa pm pe pem 7 2 refl refl 3 (store 4) 2 1
unfolding edge_at to_bytes fetch id_to_tid pmap_tuples_per_page is_live xmax_other
loop-IsEdge = record {
  label = edge_label;
  slot = record { e_itemptr = tid 0 1; a_itemptr = invalid_tid };
  old = loop_tuple;
  cached = refl;
  mapped = refl;
  stored = refl;
  live = refl;
  other = refl;
  start_chain = (nodes 4, omega arith, head-IsChain 4);
  end_chain = (nodes 4, omega arith, head-IsChain 4);
}

internal_delete_edge_once_example :
    (s' : Db sample_xact pl pa pm pe pem) × (internal_delete_edge sample_xact pl pa pm pe pem 7 2 3
        (store 4)
        2
        1
      ≡ ok s')
    × ((l : ℕ)
        → s'.edge_labels l ≡ (
            if l == 2
            then some (after sample_xact pl pa pm pe pem 7 2 refl refl 3 (store 4) 2 1 loop-IsEdge)
            else (store 4).edge_labels l))
    × (s'.vertex_labels ≡ (store 4).vertex_labels)
    × ((u : Tid)
        → fetch pe
            (after sample_xact pl pa pm pe pem 7 2 refl refl 3 (store 4) 2 1 loop-IsEdge).edge_tbl
            u
          ≡ (if u.block == 0 && u.offset == 1
              then some (tombstone 7 2 loop_tuple)
              else fetch pe edge_label.edge_tbl u))
    × (internal_delete_edge sample_xact pl pa pm pe pem 7 2 3 s' 2 1 ≡ err concurrent_change)
unfolding loop-IsEdge
internal_delete_edge_once_example =
    internal_delete_edge_once sample_xact pl pa pm pe pem 7 2 refl refl 3 (store 4) 2 1 loop-IsEdge

-- Array lists are read as having no members and no successor.
abbrev deform : ArrayListRecord → Option (List AdjListMember) × Option Tid
deform r = (none, none)

vertex-IsVertex : (e : ℕ) → IsVertex sample_xact pl pa pm pe pem deform 7 2 3 3 1 (store e)
unfolding vertex_node fetch id_to_tid pmap_tuples_per_page
vertex-IsVertex e = record {
  label = vertex_label;
  rel = ready 1000 (some loop_tuple ∷ []) ∷ [];
  pmap = vertex_map;
  slot = record {
    v_itemptr = tid 0 1;
    e_tbl_id = 77;
    e_itemptr = tid 0 2;
    a_itemptr = invalid_tid;
  };
  nodes = nodes e;
  cached = refl;
  vertices = refl;
  mapped = refl;
  placed = refl;
  enough = omega arith;
  chained = (refl, refl, (refl, refl, refl));
}

row_at : fetch pe (ready 1000 (some loop_tuple ∷ []) ∷ []) (tid 0 1) ≡ some loop_tuple
unfolding fetch
row_at = refl

row_live : is_live sample_xact loop_tuple.header ≡ true
unfolding is_live
row_live = refl

row_free : xmax_other sample_xact loop_tuple.header ≡ false
unfolding xmax_other
row_free = refl

delete_vertex_guard_example :
    ((e : ℕ × ℕ) × (es : List (ℕ × ℕ)) × (live_edges (all_entries (nodes 4)) ≡ e ∷ es)
      × (delete_vertex sample_xact pl pa pm pe pem deform 7 2 3 (store 4) 3 1 false
          ≡ err active_edges))
    ⊎ ((live_edges (all_entries (nodes 4)) ≡ [])
        × (s' : Db sample_xact pl pa pm pe pem) × (delete_vertex sample_xact pl pa pm pe pem deform
              7 2 3
              (store 4)
              3
              1
              false
            ≡ ok s')
        × IsGone sample_xact pl pa pm pe pem 7 2 3 vertex_label
            (ready 1000 (some loop_tuple ∷ []) ∷ [])
            (tid 0 1)
            loop_tuple
            (store 4)
            s')
unfolding vertex-IsVertex
delete_vertex_guard_example =
    delete_vertex_guard sample_xact pl pa pm pe pem 7 2 deform 3 3 1 (store 4) (vertex-IsVertex 4)
      loop_tuple row_at row_live row_free

-- The database of an outcome, or another one.
abbrev db_of : Outcome (Db sample_xact pl pa pm pe pem) → Db sample_xact pl pa pm pe pem
db_of (ok s) = s
db_of (err e) = store 4
db_of hang = store 4

abbrev one_deleted : Db sample_xact pl pa pm pe pem
one_deleted = db_of (internal_delete_edge sample_xact pl pa pm pe pem 7 2 3 (store 4) 2 1)

abbrev both_deleted : Db sample_xact pl pa pm pe pem
both_deleted = db_of (internal_delete_edge sample_xact pl pa pm pe pem 7 2 3 one_deleted 2 4)

edges-Deleted :
    Deleted sample_xact pl pa pm pe pem 7 2 3 (store 4) ((1, 2) ∷ ((4, 2) ∷ [])) both_deleted
unfolding internal_delete_edge delete_edge_tuple delete_tuple delete_edge_from_adj_list unlink_walk
    mark_member edge_at to_bytes is_live xmax_other get_current_head_tid id_to_tid
    calculate_tuples_per_page pmap_tuples_per_page fetch neo_post_graph.Storage.store
edges-Deleted = (one_deleted, refl, (both_deleted, refl, refl))

delete_vertex_detach_example :
    (s' : Db sample_xact pl pa pm pe pem) × (delete_vertex sample_xact pl pa pm pe pem deform 7 2 3
        (store 4)
        3
        1
        true
      ≡ ok s')
    × IsGone sample_xact pl pa pm pe pem 7 2 3 vertex_label
        (ready 1000 (some loop_tuple ∷ []) ∷ [])
        (tid 0 1)
        loop_tuple
        both_deleted
        s'
unfolding vertex-IsVertex
delete_vertex_detach_example =
    delete_vertex_detach sample_xact pl pa pm pe pem 7 2 deform 3 3 1 (store 4) (vertex-IsVertex 4)
      loop_tuple row_at row_live row_free
      (record { entries = member_of (entry 1 77 (tid 0 1)) ∷ []; next_tbl = 77; next = tid 0 1 })
      (record { entries = member_of (entry 4 0 invalid_tid) ∷ []; next_tbl = 0; next = invalid_tid }
        ∷ [])
      both_deleted refl refl (cc) edges-Deleted

delete_vertex_loop_example :
    delete_vertex sample_xact pl pa pm pe pem deform 7 2 3 (store 1) 3 1 true ≢ ok (store 4)
unfolding vertex-IsVertex
delete_vertex_loop_example =
    delete_vertex_loop sample_xact pl pa pm pe pem 7 2 refl refl deform 3 3 1 (store 1) (store 4)
      (vertex-IsVertex 1)
      (record { entries = member_of (entry 1 77 (tid 0 1)) ∷ []; next_tbl = 77; next = tid 0 1 })
      (record { entries = member_of (entry 1 0 invalid_tid) ∷ []; next_tbl = 0; next = invalid_tid }
        ∷ [])
      [] (1, 2) [] refl refl (cc) refl
