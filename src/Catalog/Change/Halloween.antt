-- ===== src/Catalog/Change/Halloween.antt =====
-- Which command sees the two versions that an update leaves.
use neo_post_graph.Common.{ℕ, ◌≡◌, true, false, some, ltb, leb, arith}
use neo_post_graph.Mvcc.{Xact, Snapshot, catalog_mvcc_visible}
use neo_post_graph.Storage.{Tid}
use neo_post_graph.Catalog.{HeapTuple, CatalogItem, stamp, catalog_pack_item, superseded_by}

module _ (x : Xact) (fxid cid : ℕ) (old : CatalogItem) (otid next : Tid) (t : HeapTuple) where
  -- Command `cid` of the running transaction updates a tuple. A snapshot that saw the tuple sees
  -- exactly one of the two versions that result: the old one, if the snapshot is that command's or
  -- an earlier one's, and the new one, if it is a later one's.
  pub update_visible :
      (s : Snapshot)
      → x.is_valid fxid ≡ true
      → x.is_valid 0 ≡ false
      → x.is_current (x.xid fxid) ≡ true
      → catalog_mvcc_visible x old.header s ≡ true
      → (catalog_mvcc_visible x (superseded_by fxid cid next old).header s ≡ leb s.curcid cid)
        × (catalog_mvcc_visible x
              (catalog_pack_item (stamp x.xid fxid cid t) fxid 0 cid 4294967295 (some otid)).header
              s
            ≡ ltb cid s.curcid)
  unfolding catalog_mvcc_visible superseded_by catalog_pack_item
  update_visible s v z c seen = (ground arith, ground arith)
