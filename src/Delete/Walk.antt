-- ===== src/Delete/Walk.antt =====
-- The walk of `np_delete_edge_from_adj_list` along the chain of a vertex.
use neo_post_graph.Common.{
  ℕ, zero, suc, ◌<◌, ◌≡◌, refl, sym, ap, ◌∙◌, false, none, some, List, [], ◌∷◌, ◌++◌, length, arith,
  Option-cases, inl, inr,
}
use neo_post_graph.Storage.{Tid, PageOps, ok, Rel}
use neo_post_graph.PhysMap.{NeoPhysMapRecord, get_current_head_tid}
use neo_post_graph.AdjList.{AdjListMember, ArrayListRecord}
use neo_post_graph.LinkedList.{LinkedListRecord, Tables}
use neo_post_graph.Delete.{mark_member, unlink_walk, delete_edge_from_adj_list}
use neo_post_graph.Delete.Chain.{
  Node, is_place, same_place, all_entries, IsChain, IsChanged, IsChain-keep, IsChain-before,
  IsChain-replace,
}
use neo_post_graph.Delete.Turn.{
  mark_first, mark_member-skip, mark_member-append, node_at, node_at-Turn,
}

module _ (pl : PageOps LinkedListRecord) (pa : PageOps ArrayListRecord)
    (pm : PageOps NeoPhysMapRecord) where
  module _ (fxid cid target : ℕ) where
    -- What the walk leaves: the chain `ns'`, and at most one node that differs.
    pub record Unlinked (ts : Tables pl pa pm) (tbl : ℕ) (t : Tid) (ns : List Node)
        (ts' : Tables pl pa pm) : Type 0 where
      pub nodes : List Node
      pub chain : IsChain (node_at pl pa pm ts') tbl t nodes
      pub entries : all_entries nodes ≡ mark_first fxid cid target (all_entries ns)
      pub at_tbl : ℕ
      pub at : Tid
      pub others :
          (u_tbl : ℕ) (u : Tid)
          → same_place u_tbl u at_tbl at ≡ false
          → node_at pl pa pm ts' u_tbl u ≡ node_at pl pa pm ts u_tbl u
      -- the chains of all vertices keep their addresses
      pub keeps :
          (u_tbl : ℕ) (u : Tid) (ms : List Node)
          → IsChain (node_at pl pa pm ts) u_tbl u ms
          → (ms' : List Node) × (length ms' ≡ length ms)
            × IsChain (node_at pl pa pm ts') u_tbl u ms'
      -- where a longer chain begins, the node stays
      pub before :
          (u_tbl : ℕ) (u : Tid) (m : Node) (ms : List Node)
          → length ns < length (m ∷ ms)
          → IsChain (node_at pl pa pm ts) u_tbl u (m ∷ ms)
          → node_at pl pa pm ts' u_tbl u ≡ some m

    after_hit :
        (ts ts' : Tables pl pa pm) (tbl : ℕ) (t : Tid) (n : Node) (ns : List Node)
        (es : List AdjListMember)
        → IsChain (node_at pl pa pm ts) tbl t (n ∷ ns)
        → mark_member fxid cid target n.entries ≡ some es
        → IsChanged (node_at pl pa pm ts) (node_at pl pa pm ts') tbl t (record n { entries = es })
        → Unlinked ts tbl t (n ∷ ns) ts'
    after_hit ts ts' tbl t n ns es c h changed = record {
      nodes = record n { entries = es } ∷ ns;
      chain = (
        c.0,
        ground (arith, changed tbl t),
        IsChain-keep (node_at pl pa pm ts) (node_at pl pa pm ts') tbl t (n ∷ ns)
            (record n { entries = es }) c changed n.next_tbl n.next ns (omega arith) c.2,
      );
      entries = ground (arith, mark_member-append fxid cid target n.entries (all_entries ns) es h);
      at_tbl = tbl;
      at = t;
      others = λ u_tbl u h. rw (changed u_tbl u, h) refl;
      keeps =
          IsChain-replace (node_at pl pa pm ts) (node_at pl pa pm ts') tbl t n
            (record n { entries = es }) c.1 refl refl changed;
      before =
          IsChain-before (node_at pl pa pm ts) (node_at pl pa pm ts') tbl t (n ∷ ns)
            (record n { entries = es }) c changed;
    }

    after_miss :
        (ts ts' : Tables pl pa pm) (tbl : ℕ) (t : Tid) (n : Node) (ns : List Node)
        → IsChain (node_at pl pa pm ts) tbl t (n ∷ ns)
        → mark_member fxid cid target n.entries ≡ none
        → Unlinked ts n.next_tbl n.next ns ts'
        → Unlinked ts tbl t (n ∷ ns) ts'
    after_miss ts ts' tbl t n ns c h u = record {
      nodes = n ∷ u.nodes;
      chain = (c.0, u.before tbl t n ns (omega arith) c, u.chain);
      entries =
          ap (λ ms. n.entries ++ ms) u.entries
          ∙ sym (mark_member-skip fxid cid target n.entries (all_entries ns) h);
      at_tbl = u.at_tbl;
      at = u.at;
      others = u.others;
      keeps = u.keeps;
      before = λ u_tbl v m ms lt. u.before u_tbl v m ms (omega arith);
    }

    unlink_walk_end :
        (turns : ℕ) (ts : Tables pl pa pm) (tbl : ℕ) (t : Tid)
        → is_place tbl t ≡ false
        → unlink_walk pl pa pm fxid cid target (suc turns) ts tbl t ≡ ok ts
    unfolding unlink_walk
    unlink_walk_end turns ts tbl t h = rw h refl

    -- On a finite chain the walk returns.
    unlink_walk-Unlinked :
        (turns : ℕ) (ts : Tables pl pa pm) (tbl : ℕ) (t : Tid) (ns : List Node)
        → length ns < turns
        → IsChain (node_at pl pa pm ts) tbl t ns
        → (ts' : Tables pl pa pm) × (unlink_walk pl pa pm fxid cid target turns ts tbl t ≡ ok ts')
          × Unlinked ts tbl t ns ts'
    unfolding mark_member
    unlink_walk-Unlinked zero ts tbl t ns lt c = absurd (omega arith)
    unlink_walk-Unlinked (suc turns) ts tbl t [] lt c = (
      ts,
      unlink_walk_end turns ts tbl t c,
      record {
        nodes = [];
        chain = c;
        entries = refl;
        at_tbl = 0;
        at = t;
        others = λ u_tbl u h. refl;
        keeps = λ u_tbl u ms d. (ms, refl, d);
        before = λ u_tbl u m ms h d. d.1;
      },
    )
    unlink_walk-Unlinked (suc turns) ts tbl t (n ∷ ns) lt c =
        let step = node_at-Turn pl pa pm fxid cid target turns ts tbl t c.0 n c.1 in
        elim (Option-cases (mark_member fxid cid target n.entries)) [
          | inl h ↦
              let (ts', e, u) =
                unlink_walk-Unlinked turns ts n.next_tbl n.next ns (omega arith) c.2 in
              (ts', step.miss h ∙ e, after_miss ts ts' tbl t n ns c h u)
          | inr (es, h) ↦
              let (ts', e, changed) = step.hit es h in
              (ts', e, after_hit ts ts' tbl t n ns es c h changed)
        ]

    -- Where the entries of a vertex are a finite chain, np_delete_edge_from_adj_list returns when it
    -- is given more turns than the chain has nodes. The chain then has the same entries, except that
    -- the first undeleted one of the edge carries the deleter, and the nodes of all addresses but one
    -- are what they were.
    pub delete_edge_from_adj_list-Unlinked :
        (turns : ℕ) (ts : Tables pl pa pm) (pmap : Rel pm) (vertex_id : ℕ) (ns : List Node)
        → length ns < turns
        → (let (tbl, t) = get_current_head_tid pm pmap vertex_id in
            IsChain (node_at pl pa pm ts) tbl t ns)
        → (ts' : Tables pl pa pm) × (delete_edge_from_adj_list pl pa pm fxid cid turns ts
              (some pmap)
              vertex_id
              target
            ≡ ok ts')
          × (let (tbl, t) = get_current_head_tid pm pmap vertex_id in Unlinked ts tbl t ns ts')
    unfolding delete_edge_from_adj_list
    delete_edge_from_adj_list-Unlinked turns ts pmap vertex_id ns lt c =
        let head = get_current_head_tid pm pmap vertex_id in
        unlink_walk-Unlinked turns ts head.0 head.1 ns lt c
