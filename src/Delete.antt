-- ===== src/Delete.antt =====
-- Deletes of src/backend/dml/dml_delete.c: an edge, its entries in the adjacency of its two
-- vertices, and a vertex with the edges that its adjacency still names.
pub mod Chain
pub mod Turn
pub mod Walk
pub mod Once
pub mod Collect
pub mod Vertex
pub mod Gone
pub mod Loop
mod Tests
use neo_post_graph.Common.{
  ℕ, zero, suc, ◌+◌, ◌*◌, ◌==◌, Bool, true, false, not, ◌&&◌, ◌||◌, Option, none, some, List, [],
  ◌∷◌, ◌++◌, if◌then◌else◌, length, get_elem?, drop, ltb, leb,
}
use neo_post_graph.Mvcc.{Xact, Header, is_live, xmax_other}
use neo_post_graph.Storage.{
  Tid, tid_is_valid, PageOps, no_block, not_normal, unknown_table, no_label, undefined_object,
  concurrent_change, active_edges, null_repalloc, Outcome, ok, err, hang, ◌>>=◌, Rel, fetch, store,
}
use neo_post_graph.Entity.{Bytes, EntityTuple, tombstone}
use neo_post_graph.PhysMap.{
  NeoPhysMapRecord, NeoEdgePhysMapRecord, size_of_phys_map_record, size_of_edge_phys_map_record,
  pmap_tuples_per_page, id_to_tid, get_current_head_tid,
}
use neo_post_graph.AdjList.{AdjListMember, ArrayListRecord}
use neo_post_graph.LinkedList.{LinkedListRecord, Tables, put_linked, put_arrays}
use neo_post_graph.GtypeExt.{read}

-- FullTransactionIdIsValid of the deleter is false.
abbrev pub undeleted : Header → Bool
undeleted h = h.xmax == 0

abbrev pub deleted_header : ℕ → ℕ → Header → Header
deleted_header fxid cid h = record h { xmax = fxid; cmax = cid }

abbrev pub is_target : ℕ → AdjListMember → Bool
is_target target m = m.edge_id == target && undeleted m.header

-- The loops over an array list: the first undeleted member of the edge is marked. None if there is
-- no such member.
unfoldable pub mark_member : ℕ → ℕ → ℕ → List AdjListMember → Option (List AdjListMember)
mark_member fxid cid target [] = none
mark_member fxid cid target (m ∷ ms) =
    if is_target target m
    then some (record m { header = deleted_header fxid cid m.header } ∷ ms)
    else elim (mark_member fxid cid target ms) [ none ↦ none | some ms' ↦ some (m ∷ ms') ]

-- The fields of `edge` of include/utils/edge.h that the code reads, at their offsets.
pub record Edge : Type 0 where
  pub start_label : ℕ
  pub start_id : ℕ
  pub end_label : ℕ
  pub end_id : ℕ

unfoldable pub edge_at : Bytes → Edge
unfolding read
edge_at bytes = record {
  start_label = read 4 (drop 28 bytes);
  start_id = read 8 (drop 32 bytes);
  end_label = read 4 (drop 40 bytes);
  end_id = read 8 (drop 48 bytes);
}

module _ (pl : PageOps LinkedListRecord) (pa : PageOps ArrayListRecord)
    (pm : PageOps NeoPhysMapRecord) where
  -- The walk of `np_delete_edge_from_adj_list` with so many turns. A table with another number of
  -- columns is refused before its item is looked at.
  unfoldable pub unlink_walk : ℕ → ℕ → ℕ → ℕ → Tables pl pa pm → ℕ → Tid → Outcome (Tables pl pa pm)
  unfolding mark_member
  unlink_walk fxid cid target zero ts tbl t = hang
  unlink_walk fxid cid target (suc turns) ts tbl t =
      if not (tid_is_valid t && not (tbl == 0))
      then ok ts
      else if ts.natts tbl == 10
      then elim (get_elem? (ts.linked tbl) t.block) [
        | none ↦ err no_block
        | some _ ↦ elim (fetch pl (ts.linked tbl) t) [
          | none ↦ err not_normal
          | some r ↦
              let rest = unlink_walk fxid cid target turns ts r.next_tbl r.next_itemptr in
              if r.id == target && undeleted r.header
              then ok (
                  put_linked pl pa pm tbl
                    (store pl (ts.linked tbl) t
                      (record r { header = deleted_header fxid cid r.header }))
                    ts)
              else rest
        ]
      ]
      else if ts.natts tbl == 5
      then elim (get_elem? (ts.arrays tbl) t.block) [
        | none ↦ err no_block
        | some _ ↦ elim (fetch pa (ts.arrays tbl) t) [
          | none ↦ err not_normal
          | some r ↦ elim (mark_member fxid cid target r.adj_list_data) [
            | some ms ↦ ok (
                put_arrays pl pa pm tbl
                  (store pa (ts.arrays tbl) t (record r { adj_list_data = ms })) ts)
            | none ↦ unlink_walk fxid cid target turns ts tbl r.next_itemptr
          ]
        ]
      ]
      else err unknown_table

  -- `np_delete_edge_from_adj_list`; `none` for a label without a physical map.
  unfoldable pub delete_edge_from_adj_list :
      ℕ → ℕ → ℕ → Tables pl pa pm → Option (Rel pm) → ℕ → ℕ → Outcome (Tables pl pa pm)
  delete_edge_from_adj_list fxid cid turns ts phys_map vertex_id target = elim phys_map [
    | none ↦ ok ts
    | some pmap ↦
        let (tbl, t) = get_current_head_tid pm pmap vertex_id in
        unlink_walk fxid cid target turns ts tbl t
  ]

-- The edges that a walk has collected, with `max_edges` of the allocation: 0 while it is null.
pub record Collected : Type 0 where
  pub edges : List (ℕ × ℕ)
  pub max_edges : ℕ

unfoldable pub collect_linked : Collected → ℕ × ℕ → Collected
collect_linked c e =
    let max =
      if leb c.max_edges (length c.edges)
      then (if c.max_edges == 0 then 16 else c.max_edges * 2)
      else c.max_edges in
    record { edges = c.edges ++ (e ∷ []); max_edges = max }

-- The same for a member of an array list, where a null pointer goes to repalloc.
unfoldable pub collect_member : Collected → ℕ × ℕ → Outcome Collected
collect_member c e =
    if leb c.max_edges (length c.edges) && c.max_edges == 0
    then err null_repalloc
    else ok (collect_linked c e)

-- The loop over the members of an array list.
unfoldable pub collect_members : Bool → Collected → List AdjListMember → Outcome Collected
unfolding collect_member
collect_members detach c [] = ok c
collect_members detach c (m ∷ ms) = elim (undeleted m.header) [
  | true ↦
      if not detach
      then err active_edges
      else (collect_member c (m.edge_id, m.edge_lid) >>= λ c'. collect_members detach c' ms)
  | false ↦ collect_members detach c ms
]

-- `deform` is heap_deform_tuple of the stored record, read as a heap tuple: the members of its
-- fourth column and the pointer of its fifth, where they are not null.
module _ (pl : PageOps LinkedListRecord) (pa : PageOps ArrayListRecord)
    (pm : PageOps NeoPhysMapRecord)
    (deform : ArrayListRecord → Option (List AdjListMember) × Option Tid) where
  -- The second step of `delete_vertex`. A line pointer that is not normal is followed all the same.
  unfoldable pub collect_walk :
      Bool → ℕ → ℕ → Tables pl pa pm → ℕ → Tid → Collected → Outcome Collected
  unfolding collect_members
  collect_walk detach arraylist zero ts tbl t c = hang
  collect_walk detach arraylist (suc turns) ts tbl t c =
      if not (tid_is_valid t && not (tbl == 0))
      then ok c
      else if tbl == arraylist
      then elim (get_elem? (ts.arrays tbl) t.block) [
        | none ↦ err no_block
        | some _ ↦ elim (fetch pa (ts.arrays tbl) t) [
          | none ↦ err not_normal
          | some r ↦
              elim (deform r).0 [ none ↦ ok c | some ms ↦ collect_members detach c ms ] >>= λ c'.
              elim (deform r).1 [
                | none ↦ ok c'
                | some next ↦ collect_walk detach arraylist turns ts tbl next c'
              ]
        ]
      ]
      else elim (get_elem? (ts.linked tbl) t.block) [
        | none ↦ err no_block
        | some _ ↦ elim (fetch pl (ts.linked tbl) t) [
          | none ↦ err not_normal
          | some r ↦ elim (undeleted r.header) [
            | true ↦
                if not detach
                then err active_edges
                else collect_walk detach arraylist turns ts r.next_tbl r.next_itemptr
                    (collect_linked c (r.id, r.edge_lid))
            | false ↦ collect_walk detach arraylist turns ts r.next_tbl r.next_itemptr c
          ]
        ]
      ]

module _ (pl : PageOps LinkedListRecord) (pa : PageOps ArrayListRecord)
    (pm : PageOps NeoPhysMapRecord) (pe : PageOps EntityTuple)
    (pem : PageOps NeoEdgePhysMapRecord) where
  -- What the caches know of a label, with the contents of its tables.
  pub record VertexLabel : Type 0 where
    pub vertex_tbl : Option (Rel pe)
    pub phys_map : Option (Rel pm)
    pub arraylist : ℕ

  pub record EdgeLabel : Type 0 where
    pub edge_tbl : Rel pe
    pub edge_phys_map : Rel pem

  pub record Store : Type 0 where
    pub tables : Tables pl pa pm
    pub vertex_labels : ℕ → Option VertexLabel
    pub edge_labels : ℕ → Option EdgeLabel

  abbrev pub phys_map_of : Store → ℕ → Option (Rel pm)
  phys_map_of s label_id = elim (s.vertex_labels label_id) [ none ↦ none | some v ↦ v.phys_map ]

module _ (x : Xact) (pl : PageOps LinkedListRecord) (pa : PageOps ArrayListRecord)
    (pm : PageOps NeoPhysMapRecord) (pe : PageOps EntityTuple)
    (pem : PageOps NeoEdgePhysMapRecord) where
  abbrev pub Db : Type 0
  Db = Store pl pa pm pe pem

  abbrev pub VLabel : Type 0
  VLabel = VertexLabel pl pa pm pe pem

  abbrev pub ELabel : Type 0
  ELabel = EdgeLabel pl pa pm pe pem

  -- The deletion of the entity tuple that a map record points at.
  unfoldable pub delete_tuple : ℕ → ℕ → Rel pe → Tid → Outcome (EntityTuple × Rel pe)
  delete_tuple fxid cid rel t = elim (get_elem? rel t.block) [
    | none ↦ err no_block
    | some _ ↦ elim (fetch pe rel t) [
      | none ↦ err not_normal
      | some old ↦
          if not (is_live x old.header) || xmax_other x old.header
          then err concurrent_change
          else ok (old, store pe rel t (tombstone fxid cid old))
    ]
  ]

  -- The map and the tuple of an edge: the first four steps of `np_internal_delete_edge`.
  unfoldable pub delete_edge_tuple : ℕ → ℕ → ELabel → ℕ → Outcome (EntityTuple × ELabel)
  delete_edge_tuple fxid cid label edge_id =
      let t = id_to_tid edge_id (pmap_tuples_per_page size_of_edge_phys_map_record) in
      if leb (length label.edge_phys_map) t.block
      then err undefined_object
      else elim (fetch pem label.edge_phys_map t) [
        | none ↦ err undefined_object
        | some r ↦ delete_tuple fxid cid label.edge_tbl r.e_itemptr >>= λ (old, rel).
            ok (old, record label { edge_tbl = rel })
      ]

  -- `np_internal_delete_edge`, with so many turns for each walk.
  unfoldable pub internal_delete_edge : ℕ → ℕ → ℕ → Db → ℕ → ℕ → Outcome Db
  unfolding edge_at
  internal_delete_edge fxid cid turns s label_id edge_id = elim (s.edge_labels label_id) [
    | none ↦ err no_label
    | some label ↦ do
      (old, label') ← delete_edge_tuple fxid cid label edge_id
      let e = edge_at old.serialized_entity
      ts ←
          delete_edge_from_adj_list pl pa pm fxid cid turns s.tables
            (phys_map_of pl pa pm pe pem s e.start_label) e.start_id edge_id
      ts' ←
          delete_edge_from_adj_list pl pa pm fxid cid turns ts
            (phys_map_of pl pa pm pe pem s e.end_label) e.end_id edge_id
      ok (record s {
        tables = ts';
        edge_labels = λ l. if l == label_id then some label' else s.edge_labels l;
      })
  ]

  -- The third step of `delete_vertex`.
  unfoldable pub cascade : ℕ → ℕ → ℕ → Db → List (ℕ × ℕ) → Outcome Db
  cascade fxid cid turns s [] = ok s
  cascade fxid cid turns s ((edge_id, label_id) ∷ es) =
      internal_delete_edge fxid cid turns s label_id edge_id >>= λ s'. cascade fxid cid turns s' es

  -- The fourth step, on the vertex table as the cascade leaves it.
  unfoldable pub delete_vertex_tuple : ℕ → ℕ → Db → ℕ → VLabel → Rel pe → Tid → Outcome Db
  delete_vertex_tuple fxid cid s label_id label rel t =
      delete_tuple fxid cid rel t >>= λ (old, rel'). ok (record s {
        vertex_labels = λ l.
            if l == label_id
            then some (record label { vertex_tbl = some rel' })
            else s.vertex_labels l;
      })

  -- `deform` as above.
  module _ (deform : ArrayListRecord → Option (List AdjListMember) × Option Tid) where
    -- `delete_vertex`.
    unfoldable pub delete_vertex : ℕ → ℕ → ℕ → Db → ℕ → ℕ → Bool → Outcome Db
    delete_vertex fxid cid turns s label_id vertex_id detach = elim (s.vertex_labels label_id) [
      | none ↦ err no_label
      | some label ↦ elim label.vertex_tbl [
        | none ↦ err no_label
        | some rel ↦ elim label.phys_map [
          | none ↦ err no_label
          | some pmap ↦
              let t = id_to_tid vertex_id (pmap_tuples_per_page size_of_phys_map_record) in
              if leb (length pmap) t.block then err undefined_object else elim (fetch pm pmap t) [
                | none ↦ err undefined_object
                | some r ↦ do
                  c ←
                      collect_walk pl pa pm deform detach label.arraylist turns s.tables r.e_tbl_id
                        r.e_itemptr (record { edges = []; max_edges = 0 })
                  s' ← cascade fxid cid turns s c.edges
                  delete_vertex_tuple fxid cid s' label_id label rel r.v_itemptr
              ]
        ]
      ]
    ]
