-- ===== src/Delete/Once.antt =====
-- `np_internal_delete_edge`: the tuple of the edge, and a second deletion of it.
use neo_post_graph.Common.{
  ℕ, ◌<◌, ◌≡◌, refl, ◌==◌, true, false, ◌&&◌, Option, none, some, List, if◌then◌else◌, length,
  lt_of_get_elem?, arith,
}
use neo_post_graph.Mvcc.{Xact, is_live, xmax_other}
use neo_post_graph.Storage.{Tid, PageOps, ok, err, concurrent_change, Rel, fetch, store}
use neo_post_graph.Storage.Fetch.{fetch-store, fetch-block}
use neo_post_graph.Entity.{EntityTuple, tombstone}
use neo_post_graph.PhysMap.{
  NeoPhysMapRecord, NeoEdgePhysMapRecord, size_of_edge_phys_map_record, pmap_tuples_per_page,
  id_to_tid, get_current_head_tid,
}
use neo_post_graph.AdjList.{ArrayListRecord}
use neo_post_graph.LinkedList.{LinkedListRecord, Tables}
use neo_post_graph.Delete.{
  edge_at, Db, ELabel, delete_tuple, delete_edge_tuple, phys_map_of, delete_edge_from_adj_list,
  internal_delete_edge,
}
use neo_post_graph.Delete.Chain.{Node, IsChain}
use neo_post_graph.Delete.Turn.{node_at}
use neo_post_graph.Delete.Walk.{delete_edge_from_adj_list-Unlinked}

tombstone_not_live :
    (x : Xact) (fxid cid : ℕ) (old : EntityTuple)
    → x.is_valid fxid ≡ true
    → x.is_current (x.xid fxid) ≡ true
    → is_live x (tombstone fxid cid old).header ≡ false
unfolding is_live tombstone
tombstone_not_live x fxid cid old valid current = ground arith

module _ (x : Xact) (pl : PageOps LinkedListRecord) (pa : PageOps ArrayListRecord)
    (pm : PageOps NeoPhysMapRecord) (pe : PageOps EntityTuple) (pem : PageOps NeoEdgePhysMapRecord)
    (fxid cid : ℕ) (valid : x.is_valid fxid ≡ true)
    (current : x.is_current (x.xid fxid) ≡ true) where
  pub delete_tuple-fetch :
      (rel : Rel pe) (t : Tid) (old : EntityTuple)
      → fetch pe rel t ≡ some old
      → is_live x old.header ≡ true
      → xmax_other x old.header ≡ false
      → (delete_tuple x pl pa pm pe pem fxid cid rel t
          ≡ ok (old, store pe rel t (tombstone fxid cid old)))
        × (delete_tuple x pl pa pm pe pem fxid cid (store pe rel t (tombstone fxid cid old)) t
            ≡ err concurrent_change)
  unfolding delete_tuple
  delete_tuple-fetch rel t old e live other =
      let (p, b) = fetch-block pe rel t old e in
      let e' : fetch pe (store pe rel t (tombstone fxid cid old)) t
          ≡ some (tombstone fxid cid old) =
        ground (arith, fetch-store pe rel t (tombstone fxid cid old) old t e) in
      let (p', b') =
        fetch-block pe (store pe rel t (tombstone fxid cid old)) t (tombstone fxid cid old) e' in
      (ground arith, ground (arith, tombstone_not_live x fxid cid old valid current))

  -- The adjacency of a vertex, if its label has a map, is a chain of fewer nodes than there are turns.
  abbrev pub HasChain : ℕ → Tables pl pa pm → Option (Rel pm) → ℕ → Type 0
  HasChain turns ts none vertex_id = Unit {0}
  HasChain turns ts (some pmap) vertex_id =
      (ns : List Node) × (length ns < turns)
      × (let (tbl, t) = get_current_head_tid pm pmap vertex_id in
          IsChain (node_at pl pa pm ts) tbl t ns)

  HasChain-keep :
      (turns : ℕ) (ts ts' : Tables pl pa pm)
      → ((tbl : ℕ) (t : Tid) (ns : List Node)
          → IsChain (node_at pl pa pm ts) tbl t ns
          → (ns' : List Node) × (length ns' ≡ length ns) × IsChain (node_at pl pa pm ts') tbl t ns')
      → (map : Option (Rel pm)) (vertex_id : ℕ) → HasChain turns ts map vertex_id
      → HasChain turns ts' map vertex_id
  HasChain-keep turns ts ts' keeps none vertex_id c = tt
  HasChain-keep turns ts ts' keeps (some pmap) vertex_id (ns, lt, c) =
      let head = get_current_head_tid pm pmap vertex_id in
      let (ns', l, c') = keeps head.0 head.1 ns c in (ns', omega arith, c')

  -- An entry is removed, and the other vertices keep their chains.
  adjacency_deleted :
      (turns : ℕ) (ts : Tables pl pa pm) (map : Option (Rel pm)) (vertex_id target : ℕ)
      → HasChain turns ts map vertex_id
      → (ts' : Tables pl pa pm) × (delete_edge_from_adj_list pl pa pm fxid cid turns ts map
            vertex_id target
          ≡ ok ts')
        × ((other : Option (Rel pm)) (w : ℕ)
            → HasChain turns ts other w
            → HasChain turns ts' other w)
  unfolding delete_edge_from_adj_list
  adjacency_deleted turns ts none vertex_id target c = (ts, refl, λ other w d. d)
  adjacency_deleted turns ts (some pmap) vertex_id target (ns, lt, c) =
      let (ts', e, u) =
        delete_edge_from_adj_list-Unlinked pl pa pm fxid cid target turns ts pmap vertex_id ns lt
          c in
      (ts', e, HasChain-keep turns ts ts' u.keeps)

  -- Where an edge is, before it is deleted.
  pub record IsEdge (turns : ℕ) (s : Db x pl pa pm pe pem) (label_id edge_id : ℕ) : Type 0 where
    pub label : ELabel x pl pa pm pe pem
    pub slot : NeoEdgePhysMapRecord
    pub old : EntityTuple
    pub cached : s.edge_labels label_id ≡ some label
    pub mapped :
        fetch pem label.edge_phys_map
          (id_to_tid edge_id (pmap_tuples_per_page size_of_edge_phys_map_record))
        ≡ some slot
    pub stored : fetch pe label.edge_tbl slot.e_itemptr ≡ some old
    pub live : is_live x old.header ≡ true
    pub other : xmax_other x old.header ≡ false
    pub start_chain :
        HasChain turns s.tables
          (phys_map_of pl pa pm pe pem s (edge_at old.serialized_entity).start_label)
          (edge_at old.serialized_entity).start_id
    pub end_chain :
        HasChain turns s.tables
          (phys_map_of pl pa pm pe pem s (edge_at old.serialized_entity).end_label)
          (edge_at old.serialized_entity).end_id

  module _ (turns : ℕ) (s : Db x pl pa pm pe pem) (label_id edge_id : ℕ)
      (is : IsEdge turns s label_id edge_id) where
    abbrev pub after : ELabel x pl pa pm pe pem
    after = record is.label {
      edge_tbl = store pe is.label.edge_tbl is.slot.e_itemptr (tombstone fxid cid is.old);
    }

    tuple_deleted :
        (delete_edge_tuple x pl pa pm pe pem fxid cid is.label edge_id ≡ ok (is.old, after))
        × (delete_edge_tuple x pl pa pm pe pem fxid cid after edge_id ≡ err concurrent_change)
    unfolding delete_edge_tuple
    tuple_deleted =
        let (first, second) =
          delete_tuple-fetch is.label.edge_tbl is.slot.e_itemptr is.old is.stored is.live
            is.other in
        let (p, b) =
          fetch-block pem is.label.edge_phys_map
            (id_to_tid edge_id (pmap_tuples_per_page size_of_edge_phys_map_record)) is.slot
            is.mapped in
        let inside =
          lt_of_get_elem? is.label.edge_phys_map
            (id_to_tid edge_id (pmap_tuples_per_page size_of_edge_phys_map_record)).block b in
        (ground (arith, is.mapped), ground (arith, is.mapped))

    abbrev start_map : Option (Rel pm)
    start_map = phys_map_of pl pa pm pe pem s (edge_at is.old.serialized_entity).start_label

    abbrev end_map : Option (Rel pm)
    end_map = phys_map_of pl pa pm pe pem s (edge_at is.old.serialized_entity).end_label

    abbrev deleted : Tables pl pa pm → Db x pl pa pm pe pem
    deleted ts = record s {
      tables = ts;
      edge_labels = λ l. if l == label_id then some after else s.edge_labels l;
    }

    internal_delete_edge_parts :
        (ts ts' : Tables pl pa pm)
        → delete_edge_from_adj_list pl pa pm fxid cid turns s.tables start_map
            (edge_at is.old.serialized_entity).start_id
            edge_id
          ≡ ok ts
        → delete_edge_from_adj_list pl pa pm fxid cid turns ts end_map
            (edge_at is.old.serialized_entity).end_id
            edge_id
          ≡ ok ts'
        → (internal_delete_edge x pl pa pm pe pem fxid cid turns s label_id edge_id
            ≡ ok (deleted ts'))
          × (internal_delete_edge x pl pa pm pe pem fxid cid turns (deleted ts') label_id edge_id
              ≡ err concurrent_change)
    unfolding internal_delete_edge
    internal_delete_edge_parts ts ts' e e' =
        (ground (arith, is.cached, tuple_deleted), ground (arith, tuple_deleted))

    -- A live edge that no other transaction is deleting, of a label and with a map record, whose two
    -- vertices have finite chains: np_internal_delete_edge returns, given more turns than either chain
    -- has nodes. It leaves the tuple of the edge with its deleter and every other tuple of that table,
    -- the map, the other edge labels and the vertex tables as they were; and to delete the edge again
    -- in the same transaction is an error.
    pub internal_delete_edge_once :
        (s' : Db x pl pa pm pe pem) × (internal_delete_edge x pl pa pm pe pem fxid cid turns s
            label_id edge_id
          ≡ ok s')
        × ((l : ℕ) → s'.edge_labels l ≡ (if l == label_id then some after else s.edge_labels l))
        × (s'.vertex_labels ≡ s.vertex_labels)
        × ((u : Tid)
            → fetch pe after.edge_tbl u ≡ (
                if u.block == is.slot.e_itemptr.block && u.offset == is.slot.e_itemptr.offset
                then some (tombstone fxid cid is.old)
                else fetch pe is.label.edge_tbl u))
        × (internal_delete_edge x pl pa pm pe pem fxid cid turns s' label_id edge_id
            ≡ err concurrent_change)
    internal_delete_edge_once =
        let e = edge_at is.old.serialized_entity in
        let (ts, first, keep) =
          adjacency_deleted turns s.tables start_map e.start_id edge_id is.start_chain in
        let (ts', second, kept) =
          adjacency_deleted turns ts end_map e.end_id edge_id
            (keep end_map e.end_id is.end_chain) in
        let (once, twice) = internal_delete_edge_parts ts ts' first second in
        (
          deleted ts',
          once,
          λ l. refl,
          refl,
          λ u.
              fetch-store pe is.label.edge_tbl is.slot.e_itemptr (tombstone fxid cid is.old) is.old
                u is.stored,
          twice,
        )
