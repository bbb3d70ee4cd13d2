-- ===== src/Catalog/Change.antt =====
-- Inserting, updating and deleting catalog tuples.
pub mod Race
pub mod Halloween
use neo_post_graph.Common.{
  ℕ, ◌+◌, ◌-◌, ◌<◌, ◌≤◌, ◌≡◌, true, false, not, ◌&&◌, ◌||◌, none, some, arith, ◌==◌, if◌then◌else◌,
  length, get_elem?, Bool-cases, Option-cases, inl, inr,
}
use neo_post_graph.Layout.{maxalign, size_of_item_id}
use neo_post_graph.Mvcc.{Xact, is_live, xmax_other}
use neo_post_graph.Storage.{
  Tid, tid_is_valid, PageOps, ok, is_held, Rel, fetch, store, write_record,
}
use neo_post_graph.Storage.Fetch.{fetch-store}
use neo_post_graph.Storage.Append.{
  RelNormal, RelNormal-store, write_record-IsAppended, write_record_total,
}
use neo_post_graph.Entity.{tm_ok, tm_invisible, tm_updated}
use neo_post_graph.Catalog.{
  HeapTuple, CatalogItem, catalog_pack_size, catalog_pack_item, stamp, deleted_by, superseded_by,
  check_old, mark_old, supersede, catalog_update, catalog_delete,
}

module _ (x : Xact) (pg : PageOps CatalogItem) (fxid cid : ℕ) where
  -- The new tuple, field by field: created and not deleted, with a pointer to the old one.
  abbrev pub new_item : Tid → HeapTuple → CatalogItem
  new_item otid t = record {
    header = record { xmin = fxid; xmax = 0; cmin = cid; cmax = 4294967295 };
    prev_itemptr = otid;
    flags = 0;
    heap_tuple = record {
      t_len = t.t_len;
      t_xmin = x.xid fxid;
      t_cmin = cid;
      t_xmax = 0;
      t_ctid = t.t_ctid;
      body = t.body;
    };
  }

  -- The old tuple with its deleter and its successor, and the rest as it was.
  abbrev pub old_item : Tid → CatalogItem → CatalogItem
  old_item next old = record {
    header = record { xmin = old.header.xmin; xmax = fxid; cmin = old.header.cmin; cmax = cid };
    prev_itemptr = old.prev_itemptr;
    flags = old.flags;
    heap_tuple = record {
      t_len = old.heap_tuple.t_len;
      t_xmin = old.heap_tuple.t_xmin;
      t_cmin = old.heap_tuple.t_cmin;
      t_xmax = old.heap_tuple.t_xmax;
      t_ctid = next;
      body = old.heap_tuple.body;
    };
  }

  -- `rel'` is `rel` with the tuple at `otid` replaced: the new tuple stands at the fresh address
  -- `next`, the old one names its deleter and `next`, and nothing else has changed.
  pub record IsReplaced (rel : Rel pg) (otid : Tid) (old : CatalogItem) (t : HeapTuple)
      (rel' : Rel pg) (next : Tid) : Type 0 where
    pub valid : tid_is_valid next ≡ true
    pub fresh : fetch pg rel next ≡ none
    pub fetched :
        (u : Tid)
        → fetch pg rel' u ≡ (
            if u.block == otid.block && u.offset == otid.offset
            then some (old_item next old)
            else if u.block == next.block && u.offset == next.offset
            then some (new_item otid t)
            else fetch pg rel u)
    pub normal : RelNormal pg rel'

  module _ (rel : Rel pg) (otid : Tid) (old : CatalogItem) (at : fetch pg rel otid ≡ some old) where
    pub check_old-eq :
        check_old x pg rel otid
        ≡ ok (
          (if not (is_live x old.header)
              then tm_invisible
              else if xmax_other x old.header
              then tm_updated
              else tm_ok),
          old,
        )
    unfolding check_old fetch
    check_old-eq = elim (Option-cases (get_elem? rel otid.block)) [
      | inl e ↦ absurd (ground arith)
      | inr (p, e) ↦ ground arith
    ]

    -- What follows the test never fails, if every line pointer is in use and an empty page has room
    -- for the new tuple.
    pub supersede-IsReplaced :
        (t : HeapTuple)
        → RelNormal pg rel
        → maxalign (catalog_pack_size (stamp x.xid fxid cid t)) + size_of_item_id
          ≤ pg.free_space pg.empty
        → (rel' : Rel pg) × (next : Tid) × (supersede x pg fxid cid rel otid t
            ≡ ok (tm_ok, rel', next))
          × IsReplaced rel otid old t rel' next
    unfolding supersede mark_old superseded_by catalog_pack_item stamp
    supersede-IsReplaced t normal fits =
        let size = catalog_pack_size (stamp x.xid fxid cid t) in
        let free : is_held none (length rel - 1) ≡ false = λ i. false in
        let ((mid, next), w) = write_record_total pg none rel (new_item otid t) size free fits in
        let a = write_record-IsAppended pg none rel (new_item otid t) size mid next normal w in
        let kept : fetch pg mid otid ≡ some old = ground (arith, a.fetched otid, a.fresh) in
        let marked = store pg mid otid (superseded_by fxid cid next old) in
        (
          marked,
          next,
          ground arith,
          record {
            valid = a.valid;
            fresh = a.fresh;
            fetched = λ u. ground (
              arith,
              a.fetched u,
              fetch-store pg mid otid (superseded_by fxid cid next old) old u kept,
            );
            normal =
                RelNormal-store pg mid otid (superseded_by fxid cid next old) old kept a.normal;
          },
        )

    -- The update of a live catalog tuple that no other transaction is deleting returns with the
    -- tuple replaced, if every line pointer is in use and an empty page has room for the new one.
    pub catalog_update-IsReplaced :
        (t : HeapTuple)
        → RelNormal pg rel
        → is_live x old.header ≡ true
        → xmax_other x old.header ≡ false
        → maxalign (catalog_pack_size (stamp x.xid fxid cid t)) + size_of_item_id
          ≤ pg.free_space pg.empty
        → (rel' : Rel pg) × (next : Tid) × (catalog_update x pg fxid cid rel otid t
            ≡ ok (tm_ok, rel', next))
          × IsReplaced rel otid old t rel' next
    unfolding catalog_update
    catalog_update-IsReplaced t normal live other fits =
        let (rel', next, e, r) = supersede-IsReplaced t normal fits in
        (rel', next, ground (arith, check_old-eq), r)

    -- The deletion of a live catalog tuple that no other transaction is deleting marks that tuple
    -- alone, after which it is not live for the deleting transaction.
    pub catalog_delete-fetch :
        is_live x old.header ≡ true
        → xmax_other x old.header ≡ false
        → x.is_valid fxid ≡ true
        → x.is_current (x.xid fxid) ≡ true
        → (rel' : Rel pg) × (catalog_delete x pg fxid cid rel otid ≡ ok (tm_ok, rel'))
          × ((u : Tid)
              → fetch pg rel' u ≡ (
                  if u.block == otid.block && u.offset == otid.offset
                  then some (deleted_by fxid cid old)
                  else fetch pg rel u))
          × (is_live x (deleted_by fxid cid old).header ≡ false)
    unfolding catalog_delete deleted_by is_live
    catalog_delete-fetch live other v c = (
      store pg rel otid (deleted_by fxid cid old),
      ground (arith, check_old-eq),
      λ u. fetch-store pg rel otid (deleted_by fxid cid old) old u at,
      ground arith,
    )
