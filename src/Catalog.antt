-- ===== src/Catalog.antt =====
-- The catalog access method of src/backend/access/np_catalog_heap.c: heap tuples behind a header
-- of their own, and the statements that change them.
pub mod Change
mod Tests
use neo_post_graph.Common.{
  ℕ, ◌+◌, ◌-◌, ◌≡◌, Bool, true, false, not, ◌||◌, Option, none, some, List, [], ◌∷◌, ltb, leb,
  if◌then◌else◌, length, get_elem?,
}
use neo_post_graph.Layout.{size_of_heap_tuple_header}
use neo_post_graph.Mvcc.{Xact, Header, is_live, xmax_other}
use neo_post_graph.Storage.{
  Tid, invalid_tid, PageOps, not_normal, no_block, Outcome, ok, err, ◌>>=◌, Rel, fetch, store,
  write_record,
}
use neo_post_graph.Entity.{Bytes, TmResult, tm_ok, tm_invisible, tm_updated}

-- SizeOfNPCatalogItemHeader.
abbrev pub size_of_catalog_header : ℕ
size_of_catalog_header = 32

-- A heap tuple with the fields of its header that the access method writes.
pub record HeapTuple : Type 0 where
  pub t_len : ℕ
  pub t_xmin : ℕ
  pub t_cmin : ℕ
  pub t_xmax : ℕ
  pub t_ctid : Tid
  pub body : Bytes

-- NPCatalogItemHeaderData with the tuple behind it.
pub record CatalogItem : Type 0 where
  pub header : Header
  pub prev_itemptr : Tid
  pub flags : ℕ
  pub heap_tuple : HeapTuple

unfoldable pub catalog_pack_size : HeapTuple → ℕ
catalog_pack_size t = size_of_catalog_header + t.t_len

-- `none` is a null `prev`.
unfoldable pub catalog_pack_item : HeapTuple → ℕ → ℕ → ℕ → ℕ → Option Tid → CatalogItem
catalog_pack_item t xmin xmax cmin cmax prev = record {
  header = record { xmin = xmin; xmax = xmax; cmin = cmin; cmax = cmax };
  prev_itemptr = elim prev [ none ↦ invalid_tid | some p ↦ p ];
  flags = 0;
  heap_tuple = t;
}

-- HeapTupleHeaderSetXmin, SetCmin and SetXmax of a slot's tuple.
unfoldable pub stamp : (ℕ → ℕ) → ℕ → ℕ → HeapTuple → HeapTuple
stamp xid fxid cid t = record t { t_xmin = xid fxid; t_cmin = cid; t_xmax = 0 }

-- What a change of a tuple leaves behind: the deleter, and for an update the successor.
unfoldable pub deleted_by : ℕ → ℕ → CatalogItem → CatalogItem
deleted_by fxid cid i = record i { header = record i.header { xmax = fxid; cmax = cid } }

unfoldable pub superseded_by : ℕ → ℕ → Tid → CatalogItem → CatalogItem
unfolding deleted_by
superseded_by fxid cid next i =
    let d = deleted_by fxid cid i in record d { heap_tuple = record d.heap_tuple { t_ctid = next } }

-- `line_pointers` are the page's, with the length of the item behind each normal one.
unfoldable pub item_is_fetchable : List (Option ℕ) → ℕ → Bool
item_is_fetchable line_pointers off =
    if ltb off 1 || ltb (length line_pointers) off
    then false
    else elim (get_elem? line_pointers (off - 1)) [
      | none ↦ false
      | some lp ↦ elim lp [
        | none ↦ false
        | some len ↦ leb (size_of_catalog_header + size_of_heap_tuple_header) len
      ]
    ]

module _ (x : Xact) (pg : PageOps CatalogItem) where
  unfoldable pub catalog_insert : ℕ → ℕ → Rel pg → HeapTuple → Outcome (Rel pg × Tid)
  catalog_insert fxid cid rel t =
      let tuple = stamp x.xid fxid cid t in
      write_record pg none rel (catalog_pack_item tuple fxid 0 cid 4294967295 none)
        (catalog_pack_size tuple)

  unfoldable pub catalog_multi_insert :
      ℕ → ℕ → Rel pg → List HeapTuple → Outcome (Rel pg × List Tid)
  catalog_multi_insert fxid cid rel [] = ok (rel, [])
  catalog_multi_insert fxid cid rel (t ∷ ts) = do
    (rel', tid) ← catalog_insert fxid cid rel t
    (rel'', tids) ← catalog_multi_insert fxid cid rel' ts
    ok (rel'', tid ∷ tids)

  -- The test of the old tuple under its block's lock, which an update gives back before it writes.
  unfoldable pub check_old : Rel pg → Tid → Outcome (TmResult × CatalogItem)
  check_old rel otid = elim (get_elem? rel otid.block) [
    | none ↦ err no_block
    | some _ ↦ elim (fetch pg rel otid) [
      | none ↦ err not_normal
      | some old ↦
          if not (is_live x old.header)
          then ok (tm_invisible, old)
          else if xmax_other x old.header
          then ok (tm_updated, old)
          else ok (tm_ok, old)
    ]
  ]

  -- The last step of an update: the old tuple is read again and marked.
  unfoldable pub mark_old : ℕ → ℕ → Rel pg → Tid → Tid → Outcome (Rel pg)
  mark_old fxid cid rel otid next = elim (fetch pg rel otid) [
    | none ↦ err not_normal
    | some old ↦ ok (store pg rel otid (superseded_by fxid cid next old))
  ]

  -- What an update does after the test.
  unfoldable pub supersede : ℕ → ℕ → Rel pg → Tid → HeapTuple → Outcome (TmResult × Rel pg × Tid)
  supersede fxid cid rel otid t =
      let tuple = stamp x.xid fxid cid t in
      do
        (rel', next) ←
            write_record pg none rel (catalog_pack_item tuple fxid 0 cid 4294967295 (some otid))
              (catalog_pack_size tuple)
        rel'' ← mark_old fxid cid rel' otid next
        ok (tm_ok, rel'', next)

  unfoldable pub catalog_update :
      ℕ → ℕ → Rel pg → Tid → HeapTuple → Outcome (TmResult × Rel pg × Tid)
  catalog_update fxid cid rel otid t = do
    (r, old) ← check_old rel otid
    elim r [
      | tm_ok ↦ supersede fxid cid rel otid t
      | tm_invisible ↦ ok (tm_invisible, rel, otid)
      | tm_updated ↦ ok (tm_updated, rel, otid)
    ]

  unfoldable pub catalog_delete : ℕ → ℕ → Rel pg → Tid → Outcome (TmResult × Rel pg)
  catalog_delete fxid cid rel at = do
    (r, old) ← check_old rel at
    elim r [
      | tm_ok ↦ ok (tm_ok, store pg rel at (deleted_by fxid cid old))
      | tm_invisible ↦ ok (tm_invisible, rel)
      | tm_updated ↦ ok (tm_updated, rel)
    ]
