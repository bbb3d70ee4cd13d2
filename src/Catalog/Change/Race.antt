-- ===== src/Catalog/Change/Race.antt =====
-- Two updates of one catalog tuple whose tests both come before either change: the code gives the
-- lock back between the two.
use neo_post_graph.Common.{ℕ, ◌+◌, ◌≤◌, ◌≡◌, true, false, not, ◌&&◌, some, arith}
use neo_post_graph.Layout.{maxalign, size_of_item_id}
use neo_post_graph.Mvcc.{Xact, is_live, xmax_other}
use neo_post_graph.Mvcc.Seen.{seen_now}
use neo_post_graph.Storage.{Tid, PageOps, ok, Rel, fetch}
use neo_post_graph.Storage.Append.{RelNormal}
use neo_post_graph.Entity.{tm_ok}
use neo_post_graph.Catalog.{
  HeapTuple, CatalogItem, stamp, catalog_pack_size, catalog_pack_item, check_old, supersede,
}
use neo_post_graph.Catalog.Change.{new_item, old_item, check_old-eq, supersede-IsReplaced}

module _ (pg : PageOps CatalogItem) (rel : Rel pg) (otid : Tid) (old : CatalogItem) where
  -- Two transactions test the same tuple, both find it live and without another deleter, and then
  -- both make their changes, one after the other. If there is room for the new tuples, both updates
  -- report success, and any transaction that sees the effects of both sees two live successors of
  -- the one tuple.
  pub lost_update :
      (x y z : Xact) (fx cx fy cy : ℕ) (t u : HeapTuple)
      → fetch pg rel otid ≡ some old
      → RelNormal pg rel
      → is_live x old.header && not (xmax_other x old.header) ≡ true
      → is_live y old.header && not (xmax_other y old.header) ≡ true
      → maxalign (catalog_pack_size (stamp x.xid fx cx t)) + size_of_item_id
        ≤ pg.free_space pg.empty
      → maxalign (catalog_pack_size (stamp y.xid fy cy u)) + size_of_item_id
        ≤ pg.free_space pg.empty
      → seen_now z fx ≡ true
      → seen_now z fy ≡ true
      → z.is_valid 0 ≡ false
      → (check_old x pg rel otid ≡ ok (tm_ok, old))
        × (check_old y pg rel otid ≡ ok (tm_ok, old))
        × (rel' : Rel pg) × (n : Tid) × (supersede x pg fx cx rel otid t ≡ ok (tm_ok, rel', n))
        × (rel'' : Rel pg) × (m : Tid) × (supersede y pg fy cy rel' otid u ≡ ok (tm_ok, rel'', m))
        × (fetch pg rel'' n ≡ some (new_item x pg fx cx otid t))
        × (fetch pg rel'' m ≡ some (new_item y pg fy cy otid u))
        × (is_live z (new_item x pg fx cx otid t).header ≡ true)
        × (is_live z (new_item y pg fy cy otid u).header ≡ true)
  unfolding is_live catalog_pack_item
  lost_update x y z fx cx fy cy t u at normal free_x free_y fits_x fits_y seen_x seen_y zero =
      let (rel', n, e, r) = supersede-IsReplaced x pg fx cx rel otid old at t normal fits_x in
      let marked : fetch pg rel' otid ≡ some (old_item x pg fx cx n old) =
        ground (arith, r.fetched otid) in
      let first : fetch pg rel' n ≡ some (new_item x pg fx cx otid t) =
        ground (arith, r.fetched n, r.fresh) in
      let (rel'', m, e', r') =
        supersede-IsReplaced y pg fy cy rel' otid (old_item x pg fx cx n old) marked u r.normal
          fits_y in
      (
        ground (arith, check_old-eq x pg fx cx rel otid old at),
        ground (arith, check_old-eq y pg fy cy rel otid old at),
        rel',
        n,
        e,
        rel'',
        m,
        e',
        ground (arith, r'.fetched n, r'.fresh, r.fresh),
        ground (arith, r'.fetched m, r'.fresh),
        ground arith,
        ground arith,
      )
