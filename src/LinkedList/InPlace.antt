-- ===== src/LinkedList/InPlace.antt =====
-- The in-place update of a linked list entry.
use neo_post_graph.Common.{◌≡◌, refl, ◌&&◌, some, arith, ◌==◌, if◌then◌else◌}
use neo_post_graph.Mvcc.{Xact, Snapshot, record_satisfies_snapshot}
use neo_post_graph.Storage.{Tid, PageOps, ok, Rel, fetch, store}
use neo_post_graph.Storage.Fetch.{fetch-block, fetch-store}
use neo_post_graph.Entity.{tm_ok}
use neo_post_graph.PhysMap.{NeoPhysMapRecord}
use neo_post_graph.AdjList.{ArrayListRecord}
use neo_post_graph.LinkedList.{LinkedListRecord, overwrite_record_in_page, linked_list_update}

module _ (pl : PageOps LinkedListRecord) (pa : PageOps ArrayListRecord)
    (pm : PageOps NeoPhysMapRecord) where
  -- The update of an entry that exists returns TM_Ok with the entry replaced, and no other entry
  -- changed; every snapshot sees the new entry exactly if it saw the old one.
  pub linked_list_update-fetch :
      (x : Xact) (s : Snapshot) (rel : Rel pl) (otid : Tid) (old slot : LinkedListRecord)
      → fetch pl rel otid ≡ some old
      → (rel' : Rel pl) × (new : LinkedListRecord) × (linked_list_update pl pa pm rel otid slot
          ≡ ok (tm_ok, rel'))
        × ((u : Tid)
            → fetch pl rel' u ≡ (
                if u.block == otid.block && u.offset == otid.offset
                then some new
                else fetch pl rel u))
        × (new ≡ record slot { header = old.header })
        × (record_satisfies_snapshot x new.header s ≡ record_satisfies_snapshot x old.header s)
  unfolding linked_list_update overwrite_record_in_page
  linked_list_update-fetch x s rel otid old slot at =
      let (p, e) = fetch-block pl rel otid old at in
      let new = record slot { header = old.header } in
      (
        store pl rel otid new,
        new,
        ground arith,
        λ u. fetch-store pl rel otid new old u at,
        refl,
        refl,
      )
