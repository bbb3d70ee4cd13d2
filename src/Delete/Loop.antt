-- ===== src/Delete/Loop.antt =====
-- DETACH of a vertex with an edge to itself, which its chain names twice.
use neo_post_graph.Common.{
  ℕ, ◌≡◌, ◌≢◌, sym, ap, ◌∙◌, ◌==◌, true, false, Option, some, List, [], ◌∷◌, ◌++◌, leb, length,
  arith, Bool-cases, Option-cases, inl, inr,
}
use mathlib.Core.Path.{subst}
use neo_post_graph.Mvcc.{Xact, is_live, xmax_other}
use neo_post_graph.Storage.{
  Tid, PageOps, Outcome, ok, err, ◌>>=◌, concurrent_change, Rel, fetch, store,
}
use neo_post_graph.Storage.Fetch.{fetch-block}
use neo_post_graph.Storage.Outcomes.{Outcome-cases, bind_ok}
use neo_post_graph.Entity.{EntityTuple, tombstone}
use neo_post_graph.PhysMap.{
  NeoPhysMapRecord, NeoEdgePhysMapRecord, size_of_edge_phys_map_record, pmap_tuples_per_page,
  id_to_tid,
}
use neo_post_graph.AdjList.{AdjListMember, ArrayListRecord}
use neo_post_graph.LinkedList.{LinkedListRecord}
use neo_post_graph.Delete.{
  Db, ELabel, edge_at, phys_map_of, delete_edge_from_adj_list, delete_tuple, delete_edge_tuple,
  internal_delete_edge, cascade, delete_vertex_tuple, delete_vertex,
}
use neo_post_graph.Delete.Chain.{Node, all_entries}
use neo_post_graph.Delete.Collect.{live_edges}
use neo_post_graph.Delete.Once.{delete_tuple-fetch}
use neo_post_graph.Delete.Vertex.{IsVertex, detach-eq}

module _ (x : Xact) (pl : PageOps LinkedListRecord) (pa : PageOps ArrayListRecord)
    (pm : PageOps NeoPhysMapRecord) (pe : PageOps EntityTuple) (pem : PageOps NeoEdgePhysMapRecord)
    (fxid cid : ℕ) (valid : x.is_valid fxid ≡ true)
    (current : x.is_current (x.xid fxid) ≡ true) where
  delete_tuple_again :
      (rel rel' : Rel pe) (t : Tid) (old : EntityTuple)
      → delete_tuple x pl pa pm pe pem fxid cid rel t ≡ ok (old, rel')
      → delete_tuple x pl pa pm pe pem fxid cid rel' t ≡ err concurrent_change
  unfolding delete_tuple
  delete_tuple_again rel rel' t old e = elim (Option-cases (fetch pe rel t)) [
    | inl f ↦ absurd (ground arith)
    | inr (stored, f) ↦
        let (p, b) = fetch-block pe rel t stored f in
        elim (Bool-cases (is_live x stored.header)) [
          | inr dead ↦ absurd (ground arith)
          | inl live ↦ elim (Bool-cases (xmax_other x stored.header)) [
            | inl other ↦ absurd (ground arith)
            | inr alone ↦
                let (first, second) =
                  delete_tuple-fetch x pl pa pm pe pem fxid cid valid current rel t stored f live
                    alone in
                let same : store pe rel t (tombstone fxid cid stored) ≡ rel' = cc in
                rw (← same) second
          ]
        ]
  ]

  delete_edge_tuple_again :
      (label label' : ELabel x pl pa pm pe pem) (edge_id : ℕ) (old : EntityTuple)
      → delete_edge_tuple x pl pa pm pe pem fxid cid label edge_id ≡ ok (old, label')
      → delete_edge_tuple x pl pa pm pe pem fxid cid label' edge_id ≡ err concurrent_change
  unfolding delete_edge_tuple
  delete_edge_tuple_again label label' edge_id old e =
      let t = id_to_tid edge_id (pmap_tuples_per_page size_of_edge_phys_map_record) in
      elim (Bool-cases (leb (length label.edge_phys_map) t.block)) [
        | inl past ↦ absurd (ground arith)
        | inr inside ↦ elim (Option-cases (fetch pem label.edge_phys_map t)) [
          | inl f ↦ absurd (ground arith)
          | inr (r, f) ↦
              let then_label : EntityTuple × Rel pe
                  → Outcome (EntityTuple × ELabel x pl pa pm pe pem) =
                λ p. ok (p.0, record label { edge_tbl = p.1 }) in
              let e' : (delete_tuple x pl pa pm pe pem fxid cid label.edge_tbl r.e_itemptr
                    >>= then_label)
                  ≡ ok (old, label') =
                ground arith in
              let (p, g, h) =
                bind_ok (delete_tuple x pl pa pm pe pem fxid cid label.edge_tbl r.e_itemptr)
                  then_label (old, label') e' in
              let is : record label { edge_tbl = p.1 } ≡ label' = cc in
              subst
                (λ k.
                  delete_edge_tuple x pl pa pm pe pem fxid cid k edge_id ≡ err concurrent_change)
                is (ground (arith, delete_tuple_again label.edge_tbl p.1 r.e_itemptr p.0 g))
        ]
      ]

  -- What a deletion leaves of the edge's label.
  internal_delete_edge_label :
      (turns : ℕ) (s s' : Db x pl pa pm pe pem) (label_id edge_id : ℕ)
      (label : ELabel x pl pa pm pe pem)
      → s.edge_labels label_id ≡ some label
      → internal_delete_edge x pl pa pm pe pem fxid cid turns s label_id edge_id ≡ ok s'
      → (label' : ELabel x pl pa pm pe pem) × ((old : EntityTuple) × (delete_edge_tuple x pl pa pm
              pe pem fxid cid label edge_id
            ≡ ok (old, label')))
        × (s'.edge_labels label_id ≡ some label')
  unfolding internal_delete_edge
  internal_delete_edge_label turns s s' label_id edge_id label f e =
      elim (Outcome-cases (delete_edge_tuple x pl pa pm pe pem fxid cid label edge_id)) [
        | inr (inl (_, g)) ↦ absurd (ground arith)
        | inr (inr g) ↦ absurd (ground arith)
        | inl ((old, label'), g) ↦
            let at = edge_at old.serialized_entity in
            elim (Outcome-cases (
              delete_edge_from_adj_list pl pa pm fxid cid turns s.tables
                (phys_map_of pl pa pm pe pem s at.start_label) at.start_id edge_id)) [
                  | inr (inl (_, h)) ↦ absurd (ground arith)
                  | inr (inr h) ↦ absurd (ground arith)
                  | inl (ts, h) ↦
                      elim (Outcome-cases (
                        delete_edge_from_adj_list pl pa pm fxid cid turns ts
                          (phys_map_of pl pa pm pe pem s at.end_label) at.end_id edge_id)) [
                            | inr (inl (_, k)) ↦ absurd (ground arith)
                            | inr (inr k) ↦ absurd (ground arith)
                            | inl (ts', k) ↦ (label', (old, g), ground arith)
                          ]
                ]
      ]

  internal_delete_edge_again :
      (turns : ℕ) (s s' : Db x pl pa pm pe pem) (label_id edge_id : ℕ)
      → internal_delete_edge x pl pa pm pe pem fxid cid turns s label_id edge_id ≡ ok s'
      → internal_delete_edge x pl pa pm pe pem fxid cid turns s' label_id edge_id
        ≡ err concurrent_change
  unfolding internal_delete_edge
  internal_delete_edge_again turns s s' label_id edge_id e =
      elim (Option-cases (s.edge_labels label_id)) [
        | inl f ↦ absurd (ground arith)
        | inr (label, f) ↦
            let (label', g, kept) =
              internal_delete_edge_label turns s s' label_id edge_id label f e in
            ground (arith, delete_edge_tuple_again label label' edge_id g.0 g.1)
      ]

  cascade_twice :
      (turns : ℕ) (s s' : Db x pl pa pm pe pem) (pre : List (ℕ × ℕ)) (e : ℕ × ℕ)
      (rest : List (ℕ × ℕ))
      → cascade x pl pa pm pe pem fxid cid turns s (pre ++ (e ∷ (e ∷ rest))) ≢ ok s'
  unfolding cascade
  cascade_twice turns s s' [] e rest h =
      let (s1, first, later) =
        bind_ok (internal_delete_edge x pl pa pm pe pem fxid cid turns s e.1 e.0)
          (λ s1. cascade x pl pa pm pe pem fxid cid turns s1 (e ∷ rest)) s' h in
      let again = internal_delete_edge_again turns s s1 e.1 e.0 first in absurd (ground arith)
  cascade_twice turns s s' (d ∷ pre) e rest h =
      let (s1, first, later) =
        bind_ok (internal_delete_edge x pl pa pm pe pem fxid cid turns s d.1 d.0)
          (λ s1. cascade x pl pa pm pe pem fxid cid turns s1 (pre ++ (e ∷ (e ∷ rest)))) s' h in
      cascade_twice turns s1 s' pre e rest later

  -- A vertex whose newest entry is that of a linked list and undeleted, and whose chain names one edge
  -- twice in succession, as the two entries of an edge from the vertex to itself: a deletion with
  -- DETACH never succeeds.
  pub delete_vertex_loop :
      (deform : ArrayListRecord → Option (List AdjListMember) × Option Tid)
      (turns label_id vertex_id : ℕ) (s s' : Db x pl pa pm pe pem)
      (is : IsVertex x pl pa pm pe pem deform fxid cid turns label_id vertex_id s) (n : Node)
      (ns : List Node) (pre : List (ℕ × ℕ)) (e : ℕ × ℕ) (rest : List (ℕ × ℕ))
      → is.nodes ≡ n ∷ ns
      → is.slot.e_tbl_id == is.label.arraylist ≡ false
      → live_edges n.entries ≢ []
      → live_edges (all_entries is.nodes) ≡ pre ++ (e ∷ (e ∷ rest))
      → delete_vertex x pl pa pm pe pem deform fxid cid turns s label_id vertex_id true ≢ ok s'
  delete_vertex_loop deform turns label_id vertex_id s s' is n ns pre e rest split linked live twice
        h =
      let eq =
        detach-eq x pl pa pm pe pem deform fxid cid turns label_id vertex_id s is n ns split linked
          live in
      let (s1, done, later) =
        bind_ok (cascade x pl pa pm pe pem fxid cid turns s (live_edges (all_entries is.nodes)))
          (λ s1.
            delete_vertex_tuple x pl pa pm pe pem fxid cid s1 label_id is.label is.rel
              is.slot.v_itemptr)
          s' (sym eq ∙ h) in
      cascade_twice turns s s1 pre e rest
        (ap (cascade x pl pa pm pe pem fxid cid turns s) (sym twice) ∙ done)
