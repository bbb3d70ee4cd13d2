-- ===== src/Delete/Gone.antt =====
-- What `delete_vertex` leaves: the vertex marked, and with DETACH its edges deleted before it.
use neo_post_graph.Common.{
  ℕ, ◌≡◌, ◌≢◌, refl, ◌∙◌, ◌==◌, true, false, ◌&&◌, some, Option, List, [], ◌∷◌, if◌then◌else◌,
  arith, ◌⊎◌, inl, inr,
}
use neo_post_graph.Mvcc.{Xact, is_live, xmax_other}
use neo_post_graph.Storage.{Tid, PageOps, ok, err, active_edges, Rel, fetch, store}
use neo_post_graph.Storage.Fetch.{fetch-store, fetch-block}
use neo_post_graph.Entity.{EntityTuple, tombstone}
use neo_post_graph.PhysMap.{NeoPhysMapRecord, NeoEdgePhysMapRecord}
use neo_post_graph.AdjList.{AdjListMember, ArrayListRecord}
use neo_post_graph.LinkedList.{LinkedListRecord}
use neo_post_graph.Delete.{
  Db, VLabel, delete_tuple, internal_delete_edge, cascade, delete_vertex_tuple, delete_vertex,
}
use neo_post_graph.Delete.Chain.{Node, all_entries}
use neo_post_graph.Delete.Collect.{live_edges, List-cases}
use neo_post_graph.Delete.Vertex.{IsVertex, guard-eq, detach-eq}

module _ (x : Xact) (pl : PageOps LinkedListRecord) (pa : PageOps ArrayListRecord)
    (pm : PageOps NeoPhysMapRecord) (pe : PageOps EntityTuple) (pem : PageOps NeoEdgePhysMapRecord)
    (fxid cid : ℕ) where
  -- A row with its deleter, and the rest as it was.
  abbrev pub with_deleter : EntityTuple → EntityTuple
  with_deleter old = record {
    header = record { xmin = old.header.xmin; xmax = fxid; cmin = old.header.cmin; cmax = cid };
    prev_itemptr = old.prev_itemptr;
    flags = old.flags;
    id = old.id;
    serialized_entity = old.serialized_entity;
  }

  -- `s'` is `s` with the row `old` at `t` of the vertex table `rel` of a label marked, and nothing
  -- else changed.
  pub record IsGone (label_id : ℕ) (label : VLabel x pl pa pm pe pem) (rel : Rel pe) (t : Tid)
      (old : EntityTuple) (s s' : Db x pl pa pm pe pem) : Type 0 where
    pub rel' : Rel pe
    pub tables : s'.tables ≡ s.tables
    pub edges : (l : ℕ) → s'.edge_labels l ≡ s.edge_labels l
    pub vertices :
        (l : ℕ)
        → s'.vertex_labels l ≡ (
            if l == label_id
            then some (record {
              vertex_tbl = some rel';
              phys_map = label.phys_map;
              arraylist = label.arraylist;
            })
            else s.vertex_labels l)
    pub fetched :
        (u : Tid)
        → fetch pe rel' u ≡ (
            if u.block == t.block && u.offset == t.offset
            then some (with_deleter old)
            else fetch pe rel u)

  -- The deletion of these edges, one after the other, leads from `s` to `s'`.
  abbrev pub Deleted : ℕ → Db x pl pa pm pe pem → List (ℕ × ℕ) → Db x pl pa pm pe pem → Type 0
  Deleted turns s [] s' = s ≡ s'
  Deleted turns s ((edge_id, label_id) ∷ es) s' =
      (mid : Db x pl pa pm pe pem) × (internal_delete_edge x pl pa pm pe pem fxid cid turns s
          label_id edge_id
        ≡ ok mid)
      × Deleted turns mid es s'

  cascade-Deleted :
      (turns : ℕ) (s s' : Db x pl pa pm pe pem) (es : List (ℕ × ℕ))
      → Deleted turns s es s'
      → cascade x pl pa pm pe pem fxid cid turns s es ≡ ok s'
  unfolding cascade
  cascade-Deleted turns s s' [] same = cc
  cascade-Deleted turns s s' ((edge_id, label_id) ∷ es) (mid, e, rest) =
      rw e (cascade-Deleted turns mid s' es rest)

  delete_vertex_tuple-IsGone :
      (label_id : ℕ) (label : VLabel x pl pa pm pe pem) (rel : Rel pe) (t : Tid) (old : EntityTuple)
      (s : Db x pl pa pm pe pem)
      → fetch pe rel t ≡ some old
      → is_live x old.header ≡ true
      → xmax_other x old.header ≡ false
      → (s' : Db x pl pa pm pe pem) × (delete_vertex_tuple x pl pa pm pe pem fxid cid s label_id
            label rel t
          ≡ ok s')
        × IsGone label_id label rel t old s s'
  unfolding delete_vertex_tuple delete_tuple tombstone
  delete_vertex_tuple-IsGone label_id label rel t old s at live other =
      let (p, b) = fetch-block pe rel t old at in
      let marked = store pe rel t (tombstone fxid cid old) in
      let done : delete_tuple x pl pa pm pe pem fxid cid rel t ≡ ok (old, marked) = ground arith in
      (
        _,
        rw done refl,
        record {
          rel' = marked;
          tables = refl;
          edges = λ l. refl;
          vertices = λ l. refl;
          fetched = λ u. fetch-store pe rel t (tombstone fxid cid old) old u at;
        },
      )

  module _ (deform : ArrayListRecord → Option (List AdjListMember) × Option Tid)
      (turns label_id vertex_id : ℕ) (s : Db x pl pa pm pe pem)
      (is : IsVertex x pl pa pm pe pem deform fxid cid turns label_id vertex_id s)
      (old : EntityTuple) (at : fetch pe is.rel is.slot.v_itemptr ≡ some old)
      (live : is_live x old.header ≡ true) (free : xmax_other x old.header ≡ false) where
    -- A deletion without DETACH of a vertex whose row is live and without another deleter: if its
    -- chain names an undeleted edge, the vertex is refused, and otherwise the deletion returns with
    -- its row marked and nothing else changed.
    pub delete_vertex_guard :
        ((e : ℕ × ℕ) × (es : List (ℕ × ℕ)) × (live_edges (all_entries is.nodes) ≡ e ∷ es)
          × (delete_vertex x pl pa pm pe pem deform fxid cid turns s label_id vertex_id false
              ≡ err active_edges))
        ⊎ ((live_edges (all_entries is.nodes) ≡ [])
            × (s' : Db x pl pa pm pe pem) × (delete_vertex x pl pa pm pe pem deform fxid cid turns s
                  label_id vertex_id false
                ≡ ok s')
            × IsGone label_id is.label is.rel is.slot.v_itemptr old s s')
    delete_vertex_guard =
        let runs = guard-eq x pl pa pm pe pem deform fxid cid turns label_id vertex_id s is in
        elim (List-cases (live_edges (all_entries is.nodes))) [
          | inr (e, es, some_live) ↦ inl (e, es, some_live, ground arith)
          | inl quiet ↦
              let (s', done, gone) =
                delete_vertex_tuple-IsGone label_id is.label is.rel is.slot.v_itemptr old s at live
                  free in
              inr (quiet, s', ground arith, gone)
        ]

    -- A deletion with DETACH of a vertex whose row is live and without another deleter, and whose
    -- newest entry is that of a linked list and names an undeleted edge: if the undeleted edges of
    -- the chain can be deleted one after the other, in its order, the deletion returns with these
    -- edges deleted and then the row of the vertex marked, and nothing else changed.
    pub delete_vertex_detach :
        (n : Node) (ns : List Node) (mid : Db x pl pa pm pe pem)
        → is.nodes ≡ n ∷ ns
        → is.slot.e_tbl_id == is.label.arraylist ≡ false
        → live_edges n.entries ≢ []
        → Deleted turns s (live_edges (all_entries is.nodes)) mid
        → (s' : Db x pl pa pm pe pem) × (delete_vertex x pl pa pm pe pem deform fxid cid turns s
              label_id vertex_id true
            ≡ ok s')
          × IsGone label_id is.label is.rel is.slot.v_itemptr old mid s'
    delete_vertex_detach n ns mid split linked some_live edges =
        let runs =
          detach-eq x pl pa pm pe pem deform fxid cid turns label_id vertex_id s is n ns split
            linked some_live in
        let (s', done, gone) =
          delete_vertex_tuple-IsGone label_id is.label is.rel is.slot.v_itemptr old mid at live
            free in
        (
          s',
          runs
              ∙ rw (cascade-Deleted turns s mid (live_edges (all_entries is.nodes)) edges, done)
                  refl,
          gone,
        )
