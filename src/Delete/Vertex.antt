-- ===== src/Delete/Vertex.antt =====
-- `delete_vertex`: which vertices it refuses to delete, and the edges that it deletes with one.
use neo_post_graph.Common.{
  ℕ, zero, suc, ◌<◌, ◌≡◌, ◌≢◌, refl, sym, ◌∙◌, ◌==◌, Bool, true, false, Option, some, List, [], ◌∷◌,
  ◌++◌, length, arith, lt_of_get_elem?, inl, inr,
}
use mathlib.Core.List.{append_assoc, append-nil}
use mathlib.Core.Path.{subst}
use neo_post_graph.Mvcc.{Xact}
use neo_post_graph.Storage.{Tid, PageOps, Outcome, ok, err, ◌>>=◌, active_edges, Rel, fetch}
use neo_post_graph.Storage.Fetch.{fetch-block}
use neo_post_graph.Entity.{EntityTuple}
use neo_post_graph.PhysMap.{
  NeoPhysMapRecord, NeoEdgePhysMapRecord, size_of_phys_map_record, pmap_tuples_per_page, id_to_tid,
}
use neo_post_graph.AdjList.{AdjListMember, ArrayListRecord}
use neo_post_graph.LinkedList.{LinkedListRecord, Tables}
use neo_post_graph.Delete.{
  Collected, collect_walk, Db, VLabel, cascade, delete_vertex_tuple, delete_vertex,
}
use neo_post_graph.Delete.Chain.{Node, all_entries, IsChain}
use neo_post_graph.Delete.Collect.{
  live_edges, live_edges-append, List-cases, vertex_node, walk_end, node_quiet, node_refused,
  linked_all, node_all,
}

module _ (pl : PageOps LinkedListRecord) (pa : PageOps ArrayListRecord)
    (pm : PageOps NeoPhysMapRecord)
    (deform : ArrayListRecord → Option (List AdjListMember) × Option Tid) (arraylist : ℕ)
    (ts : Tables pl pa pm) where
  abbrev Walked : ℕ → Tid → List Node → Type 0
  Walked = IsChain (vertex_node pl pa pm deform arraylist ts)

  abbrev walk : Bool → ℕ → ℕ → Tid → Collected → Outcome Collected
  walk detach turns = collect_walk pl pa pm deform detach arraylist turns ts

  walk_none :
      (detach : Bool) (turns tbl : ℕ) (t : Tid) (ns : List Node) (c : Collected)
      → length ns < turns
      → Walked tbl t ns
      → live_edges (all_entries ns) ≡ []
      → walk detach turns tbl t c ≡ ok c
  walk_none detach zero tbl t ns c lt is quiet = absurd (omega arith)
  walk_none detach (suc turns) tbl t [] c lt is quiet =
      walk_end pl pa pm deform arraylist detach (suc turns) ts tbl t c (omega arith) is
  walk_none detach (suc turns) tbl t (n ∷ ns) c lt (place, here, is) quiet =
      let parts = live_edges-append n.entries (all_entries ns) in
      elim (List-cases (live_edges n.entries)) [
        | inr (e, es, f) ↦ absurd (ground (arith, parts))
        | inl f ↦
            node_quiet pl pa pm deform arraylist turns (omega arith) ts tbl t place n here detach c
              f
            ∙ walk_none detach turns n.next_tbl n.next ns c (omega arith) is (ground (arith, parts))
      ]

  walk_refused :
      (turns tbl : ℕ) (t : Tid) (ns : List Node) (c : Collected) (e : ℕ × ℕ) (es : List (ℕ × ℕ))
      → length ns < turns
      → Walked tbl t ns
      → live_edges (all_entries ns) ≡ e ∷ es
      → walk false turns tbl t c ≡ err active_edges
  walk_refused zero tbl t ns c e es lt is live = absurd (omega arith)
  walk_refused (suc turns) tbl t [] c e es lt is live = cc
  walk_refused (suc turns) tbl t (n ∷ ns) c e es lt (place, here, is) live =
      let parts = live_edges-append n.entries (all_entries ns) in
      elim (List-cases (live_edges n.entries)) [
        | inr (d, ds, f) ↦
            node_refused pl pa pm deform arraylist turns (omega arith) ts tbl t place n here c d ds
              f
        | inl f ↦
            node_quiet pl pa pm deform arraylist turns (omega arith) ts tbl t place n here false c f
            ∙ walk_refused turns n.next_tbl n.next ns c e es (omega arith) is
                (ground (arith, parts))
      ]

  walk_all :
      (turns tbl : ℕ) (t : Tid) (ns : List Node) (c : Collected)
      → length ns < turns
      → Walked tbl t ns
      → c.max_edges ≢ 0
      → (c' : Collected) × (walk true turns tbl t c ≡ ok c')
        × (c'.edges ≡ c.edges ++ live_edges (all_entries ns))
  walk_all zero tbl t ns c lt is alloc = absurd (omega arith)
  walk_all (suc turns) tbl t [] c lt is alloc = (
    c,
    walk_end pl pa pm deform arraylist true (suc turns) ts tbl t c (omega arith) is,
    sym (append-nil c.edges),
  )
  walk_all (suc turns) tbl t (n ∷ ns) c lt (place, here, is) alloc =
      let (c', step, edges, alloc') =
        node_all pl pa pm deform arraylist turns (omega arith) ts tbl t place n here c alloc in
      let (c'', rest, all) = walk_all turns n.next_tbl n.next ns c' (omega arith) is alloc' in
      (
        c'',
        step ∙ rest,
        rw (all, edges, live_edges-append n.entries (all_entries ns))
            (append_assoc c.edges (live_edges n.entries) (live_edges (all_entries ns))),
      )

  walk_head :
      (turns tbl : ℕ) (t : Tid) (n : Node) (ns : List Node) (c : Collected)
      → length (n ∷ ns) < turns
      → Walked tbl t (n ∷ ns)
      → tbl == arraylist ≡ false
      → live_edges n.entries ≢ []
      → (c' : Collected) × (walk true turns tbl t c ≡ ok c')
        × (c'.edges ≡ c.edges ++ live_edges (all_entries (n ∷ ns)))
  walk_head zero tbl t n ns c lt is linked live = absurd (omega arith)
  walk_head (suc turns) tbl t n ns c lt (place, here, is) linked live =
      let (c', step, edges, alloc') =
        linked_all pl pa pm deform arraylist turns (omega arith) ts tbl t place n here c linked
          live in
      let (c'', rest, all) = walk_all turns n.next_tbl n.next ns c' (omega arith) is alloc' in
      (
        c'',
        step ∙ rest,
        rw (all, edges, live_edges-append n.entries (all_entries ns))
            (append_assoc c.edges (live_edges n.entries) (live_edges (all_entries ns))),
      )

-- What `delete_vertex` finds of a vertex: its label, its map record and its chain.
module _ (x : Xact) (pl : PageOps LinkedListRecord) (pa : PageOps ArrayListRecord)
    (pm : PageOps NeoPhysMapRecord) (pe : PageOps EntityTuple) (pem : PageOps NeoEdgePhysMapRecord)
    (deform : ArrayListRecord → Option (List AdjListMember) × Option Tid)
    (fxid cid turns label_id vertex_id : ℕ) (s : Db x pl pa pm pe pem) where
  pub record IsVertex : Type 0 where
    pub label : VLabel x pl pa pm pe pem
    pub rel : Rel pe
    pub pmap : Rel pm
    pub slot : NeoPhysMapRecord
    pub nodes : List Node
    pub cached : s.vertex_labels label_id ≡ some label
    pub vertices : label.vertex_tbl ≡ some rel
    pub mapped : label.phys_map ≡ some pmap
    pub placed :
        fetch pm pmap (id_to_tid vertex_id (pmap_tuples_per_page size_of_phys_map_record))
        ≡ some slot
    pub enough : length nodes < turns
    pub chained :
        IsChain
          (vertex_node pl pa pm deform label.arraylist s.tables)
          slot.e_tbl_id
          slot.e_itemptr
          nodes

  module _ (is : IsVertex) where
    abbrev start : Collected
    start = record { edges = []; max_edges = 0 }

    delete_vertex-eq :
        (detach : Bool)
        → delete_vertex x pl pa pm pe pem deform fxid cid turns s label_id vertex_id detach ≡ (
            collect_walk pl pa pm deform detach is.label.arraylist turns s.tables is.slot.e_tbl_id
              is.slot.e_itemptr start
            >>= λ c. cascade x pl pa pm pe pem fxid cid turns s c.edges >>= λ s'.
                delete_vertex_tuple x pl pa pm pe pem fxid cid s' label_id is.label is.rel
                  is.slot.v_itemptr)
    unfolding delete_vertex
    delete_vertex-eq detach =
        let t = id_to_tid vertex_id (pmap_tuples_per_page size_of_phys_map_record) in
        let (p, b) = fetch-block pm is.pmap t is.slot is.placed in
        let inside = lt_of_get_elem? is.pmap t.block b in
        ground (arith, is.cached, is.vertices, is.mapped, is.placed)

    -- What runs without DETACH.
    pub guard-eq :
        delete_vertex x pl pa pm pe pem deform fxid cid turns s label_id vertex_id false
        ≡ elim (live_edges (all_entries is.nodes)) [
          | [] ↦
              delete_vertex_tuple x pl pa pm pe pem fxid cid s label_id is.label is.rel
                is.slot.v_itemptr
          | e ∷ es ↦ err active_edges
        ]
    unfolding cascade
    guard-eq = elim (List-cases (live_edges (all_entries is.nodes))) [
      | inl quiet ↦
          let walked =
            walk_none pl pa pm deform is.label.arraylist s.tables false turns is.slot.e_tbl_id
              is.slot.e_itemptr is.nodes start is.enough is.chained quiet in
          ground (arith, delete_vertex-eq false)
      | inr (e, es, live) ↦
          let walked =
            walk_refused pl pa pm deform is.label.arraylist s.tables turns is.slot.e_tbl_id
              is.slot.e_itemptr is.nodes start e es is.enough is.chained live in
          ground (arith, delete_vertex-eq false)
    ]

    -- What runs with DETACH, if the newest entry is a live one of a linked list.
    pub detach-eq :
        (n : Node) (ns : List Node)
        → is.nodes ≡ n ∷ ns
        → is.slot.e_tbl_id == is.label.arraylist ≡ false
        → live_edges n.entries ≢ []
        → delete_vertex x pl pa pm pe pem deform fxid cid turns s label_id vertex_id true ≡ (
            cascade x pl pa pm pe pem fxid cid turns s (live_edges (all_entries is.nodes)) >>= λ s'.
            delete_vertex_tuple x pl pa pm pe pem fxid cid s' label_id is.label is.rel
              is.slot.v_itemptr)
    detach-eq n ns split linked live =
        let chain' : IsChain (vertex_node pl pa pm deform is.label.arraylist s.tables)
            is.slot.e_tbl_id is.slot.e_itemptr (n ∷ ns) =
          subst
            (IsChain (vertex_node pl pa pm deform is.label.arraylist s.tables) is.slot.e_tbl_id
              is.slot.e_itemptr)
            split is.chained in
        let shorter : length (n ∷ ns) < turns = subst (λ ms. length ms < turns) split is.enough in
        let (c, walked, edges) =
          walk_head pl pa pm deform is.label.arraylist s.tables turns is.slot.e_tbl_id
            is.slot.e_itemptr n ns start shorter chain' linked live in
        let all : c.edges ≡ live_edges (all_entries is.nodes) = rw split edges in
        delete_vertex-eq true ∙ rw (walked, all) refl
