-- ===== src/Catalog/Tests.antt =====
-- Runs of the catalog access method, and its theorems at a concrete relation.
use neo_post_graph.Common.{
  ℕ, ◌+◌, ◌≤◌, ◌≡◌, refl, true, false, not, ◌&&◌, ◌||◌, none, some, [], ◌∷◌, arith, ltb, leb, ◌==◌,
  if◌then◌else◌,
}
use neo_post_graph.Layout.{maxalign}
use neo_post_graph.Mvcc.{Xact, is_live, xmax_other, catalog_mvcc_visible}
use neo_post_graph.Storage.{Tid, tid, invalid_tid, ok, Rel, fetch}
use neo_post_graph.Storage.Append.{RelNormal}
use neo_post_graph.Entity.{tm_ok}
use neo_post_graph.Catalog.{
  HeapTuple, CatalogItem, catalog_pack_size, catalog_pack_item, stamp, deleted_by, superseded_by,
  item_is_fetchable, check_old, supersede, catalog_update, catalog_delete,
}
use neo_post_graph.Catalog.Change.{
  IsReplaced, new_item, catalog_update-IsReplaced, catalog_delete-fetch,
}
use neo_post_graph.Catalog.Change.Halloween.{update_visible}
use neo_post_graph.Catalog.Change.Race.{lost_update}
use neo_post_graph.Sample.{ready, sample_pages, sample_xact, sample_snapshot, RelNormal-one}

abbrev old_tuple : HeapTuple
old_tuple = record {
  t_len = 30;
  t_xmin = 3;
  t_cmin = 0;
  t_xmax = 0;
  t_ctid = invalid_tid;
  body = 1 ∷ [];
}

abbrev new_tuple : HeapTuple
new_tuple = record old_tuple { body = 2 ∷ [] }

abbrev item : ℕ → CatalogItem
item xmax = record {
  header = record { xmin = 3; xmax = xmax; cmin = 0; cmax = 0 };
  prev_itemptr = invalid_tid;
  flags = 0;
  heap_tuple = old_tuple;
}

-- A relation with one tuple, which transaction `xmax` has deleted, if that is not 0.
abbrev catalog : ℕ → Rel (sample_pages CatalogItem)
catalog xmax = ready 1000 (some (item xmax) ∷ []) ∷ []

-- Another transaction, 9, to which 7 is in progress.
abbrev other_xact : Xact
other_xact = record sample_xact { is_current = λ i. i == 9; in_progress = λ i. i == 7 }

-- A later one, to which 7 and 9 have committed.
abbrev reader_xact : Xact
reader_xact = record sample_xact {
  is_current = λ i. i == 12;
  in_progress = λ i. false;
  did_commit = λ i. true;
}

-- A line pointer to too short an item is passed over.
fetchable_run :
    (item_is_fetchable (some 54 ∷ some 55 ∷ none ∷ []) 1 ≡ false)
    × (item_is_fetchable (some 54 ∷ some 55 ∷ none ∷ []) 2 ≡ true)
    × (item_is_fetchable (some 54 ∷ some 55 ∷ none ∷ []) 3 ≡ false)
    × (item_is_fetchable (some 54 ∷ some 55 ∷ none ∷ []) 4 ≡ false)
unfolding item_is_fetchable
fetchable_run = (refl, refl, refl, refl)

at_0 : fetch (sample_pages CatalogItem) (catalog 0) (tid 0 1) ≡ some (item 0)
unfolding fetch
at_0 = refl

at_5 : fetch (sample_pages CatalogItem) (catalog 5) (tid 0 1) ≡ some (item 5)
unfolding fetch
at_5 = refl

catalog-RelNormal : RelNormal (sample_pages CatalogItem) (catalog 0)
catalog-RelNormal = RelNormal-one (sample_pages CatalogItem) (ready 1000 (some (item 0) ∷ [])) tt

live_0 : is_live sample_xact (item 0).header ≡ true
unfolding is_live
live_0 = refl

other_0 : xmax_other sample_xact (item 0).header ≡ false
unfolding xmax_other
other_0 = refl

room : maxalign (catalog_pack_size (stamp sample_xact.xid 7 2 new_tuple)) + 4 ≤ 8164
unfolding catalog_pack_size stamp
room = omega arith

catalog_update-IsReplaced_example :
    (rel' : Rel (sample_pages CatalogItem)) × (next : Tid) × (catalog_update sample_xact
        (sample_pages CatalogItem)
        7
        2
        (catalog 0)
        (tid 0 1)
        new_tuple
      ≡ ok (tm_ok, rel', next))
    × IsReplaced sample_xact
        (sample_pages CatalogItem)
        7
        2
        (catalog 0)
        (tid 0 1)
        (item 0)
        new_tuple
        rel'
        next
catalog_update-IsReplaced_example =
    catalog_update-IsReplaced sample_xact (sample_pages CatalogItem) 7 2 (catalog 0) (tid 0 1)
      (item 0) at_0 new_tuple catalog-RelNormal live_0 other_0 room

refused_5 :
    (not (is_live sample_xact (item 5).header) || xmax_other sample_xact (item 5).header) ≡ true
unfolding is_live xmax_other
refused_5 = refl

catalog_delete-fetch_example :
    (rel' : Rel (sample_pages CatalogItem)) × (catalog_delete sample_xact
        (sample_pages CatalogItem)
        7
        2
        (catalog 0)
        (tid 0 1)
      ≡ ok (tm_ok, rel'))
    × ((u : Tid)
        → fetch (sample_pages CatalogItem) rel' u ≡ (
            if u.block == 0 && u.offset == 1
            then some (deleted_by 7 2 (item 0))
            else fetch (sample_pages CatalogItem) (catalog 0) u))
    × (is_live sample_xact (deleted_by 7 2 (item 0)).header ≡ false)
catalog_delete-fetch_example =
    catalog_delete-fetch sample_xact (sample_pages CatalogItem) 7 2 (catalog 0) (tid 0 1) (item 0)
      at_0 live_0 other_0 refl refl

seen_0 : catalog_mvcc_visible sample_xact (item 0).header sample_snapshot ≡ true
unfolding catalog_mvcc_visible
seen_0 = refl

update_visible_example :
    (catalog_mvcc_visible sample_xact (superseded_by 7 2 (tid 0 2) (item 0)).header sample_snapshot
      ≡ leb sample_snapshot.curcid 2)
    × (catalog_mvcc_visible sample_xact
          (catalog_pack_item
            (stamp sample_xact.xid 7 2 new_tuple)
            7
            0
            2
            4294967295
            (some (tid 0 1))).header
          sample_snapshot
        ≡ ltb 2 sample_snapshot.curcid)
update_visible_example =
    update_visible sample_xact 7 2 (item 0) (tid 0 1) (tid 0 2) new_tuple sample_snapshot refl refl
      refl seen_0

ready_0 : is_live sample_xact (item 0).header && not (xmax_other sample_xact (item 0).header) ≡ true
unfolding is_live xmax_other
ready_0 = refl

ready_other :
    is_live other_xact (item 0).header && not (xmax_other other_xact (item 0).header) ≡ true
unfolding is_live xmax_other
ready_other = refl

room_other : maxalign (catalog_pack_size (stamp other_xact.xid 9 0 old_tuple)) + 4 ≤ 8164
unfolding catalog_pack_size stamp
room_other = omega arith

lost_update_example :
    (check_old sample_xact (sample_pages CatalogItem) (catalog 0) (tid 0 1) ≡ ok (tm_ok, item 0))
    × (check_old other_xact (sample_pages CatalogItem) (catalog 0) (tid 0 1) ≡ ok (tm_ok, item 0))
    × (rel' : Rel (sample_pages CatalogItem)) × (n : Tid) × (supersede sample_xact
          (sample_pages CatalogItem)
          7
          2
          (catalog 0)
          (tid 0 1)
          new_tuple
        ≡ ok (tm_ok, rel', n))
    × (rel'' : Rel (sample_pages CatalogItem)) × (m : Tid) × (supersede other_xact
          (sample_pages CatalogItem)
          9
          0
          rel'
          (tid 0 1)
          old_tuple
        ≡ ok (tm_ok, rel'', m))
    × (fetch (sample_pages CatalogItem) rel'' n
        ≡ some (new_item sample_xact (sample_pages CatalogItem) 7 2 (tid 0 1) new_tuple))
    × (fetch (sample_pages CatalogItem) rel'' m
        ≡ some (new_item other_xact (sample_pages CatalogItem) 9 0 (tid 0 1) old_tuple))
    × (is_live reader_xact
          (new_item sample_xact (sample_pages CatalogItem) 7 2 (tid 0 1) new_tuple).header
        ≡ true)
    × (is_live reader_xact
          (new_item other_xact (sample_pages CatalogItem) 9 0 (tid 0 1) old_tuple).header
        ≡ true)
lost_update_example =
    lost_update (sample_pages CatalogItem) (catalog 0) (tid 0 1) (item 0) sample_xact other_xact
      reader_xact 7 2 9 0 new_tuple old_tuple at_0 catalog-RelNormal ready_0 ready_other room
      room_other refl refl refl
