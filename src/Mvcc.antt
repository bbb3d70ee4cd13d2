-- ===== src/Mvcc.antt =====
-- The visibility tests of the access methods: `np_entity_tuple_is_live` and
-- `np_entity_tuple_xmax_other` of src/backend/access/np_entity_store.c, `np_catalog_tuple_visible`
-- of np_catalog_heap.c, and the two snapshot tests of np_linked_list.c and np_arraylist.c.
-- The transaction manager of PostgreSQL is the parameter `Xact`.
pub mod Seen
pub mod Frozen
mod Tests
use neo_post_graph.Common.{
  ℕ, ◌+◌, ◌-◌, ◌%◌, ◌^◌, Bool, true, false, not, ◌&&◌, ◌||◌, Option, none, some, ltb, leb,
  if◌then◌else◌,
}

-- What the code asks the transaction manager, as of one moment. A FullTransactionId is its
-- 64-bit number; `xid` is XidFromFullTransactionId.
pub record Xact : Type 0 where
  pub is_valid : ℕ → Bool
  pub xid : ℕ → ℕ
  pub precedes : ℕ → ℕ → Bool
  pub next_fxid : ℕ
  pub is_current : ℕ → Bool
  pub in_progress : ℕ → Bool
  pub did_commit : ℕ → Bool

pub data SnapshotType : Type 0 where
  mvcc self any toast dirty : SnapshotType

-- `in_snapshot` is XidInMVCCSnapshot of the snapshot.
pub record Snapshot : Type 0 where
  pub snapshot_type : SnapshotType
  pub xmin : ℕ
  pub curcid : ℕ
  pub in_snapshot : ℕ → Bool

-- The prefix that the records of all the access methods share.
pub record Header : Type 0 where
  pub xmin : ℕ
  pub xmax : ℕ
  pub cmin : ℕ
  pub cmax : ℕ

module _ (x : Xact) where
  open x use {is_valid, xid, precedes, next_fxid, is_current, in_progress, did_commit}

  -- `rel + (int32) (xid - rel_xid)` on 64-bit numbers: a difference of 2 ^ 31 or more is negative.
  unfoldable pub full_xid_relative_to : ℕ → ℕ → ℕ
  full_xid_relative_to rel id =
      let diff = (id + 2 ^ 32 - xid rel) % 2 ^ 32 in
      if ltb diff (2 ^ 31) then (rel + diff) % 2 ^ 64 else (rel + 2 ^ 64 + diff - 2 ^ 32) % 2 ^ 64

  unfoldable pub is_live : Header → Bool
  is_live h =
      if not (is_valid h.xmin)
      then false
      else if is_current (xid h.xmin)
      then (if is_valid h.xmax && is_current (xid h.xmax) then false else true)
      else if in_progress (xid h.xmin) || not (did_commit (xid h.xmin))
      then false
      else if not (is_valid h.xmax)
      then true
      else if is_current (xid h.xmax)
      then false
      else if in_progress (xid h.xmax) || not (did_commit (xid h.xmax))
      then true
      else false

  unfoldable pub xmax_other : Header → Bool
  xmax_other h =
      if not (is_valid h.xmax)
      then false
      else if is_current (xid h.xmax)
      then false
      else in_progress (xid h.xmax)

  -- The part of `np_catalog_tuple_visible` behind the tests of the snapshot's type.
  unfoldable pub catalog_mvcc_visible : Header → Snapshot → Bool
  catalog_mvcc_visible h s =
      if not (is_valid h.xmin)
      then false
      else if is_current (xid h.xmin)
      then (if leb s.curcid h.cmin
          then false
          else if is_valid h.xmax && is_current (xid h.xmax)
          then (if leb s.curcid h.cmax then true else false)
          else true)
      else if s.in_snapshot (xid h.xmin)
      then false
      else if in_progress (xid h.xmin) || not (did_commit (xid h.xmin))
      then false
      else if not (is_valid h.xmax)
      then true
      else if is_current (xid h.xmax)
      then (if leb s.curcid h.cmax then true else false)
      else if s.in_snapshot (xid h.xmax)
      then true
      else if in_progress (xid h.xmax) || not (did_commit (xid h.xmax))
      then true
      else false

  -- `none` is a null snapshot.
  unfoldable pub catalog_visible : Header → Option Snapshot → Bool
  catalog_visible h none = is_live h
  catalog_visible h (some s) = elim s.snapshot_type [
    | any ↦ is_live h
    | toast ↦ is_live h
    | self ↦ is_live h
    | dirty ↦ is_live h
    | mvcc ↦ catalog_mvcc_visible h s
  ]

  -- RULE 2 of the linked list and array list tests.
  unfoldable pub kept_by_deleter : ℕ → Header → Snapshot → Bool
  kept_by_deleter horizon h s =
      if is_valid h.xmax
      then (if precedes h.xmax horizon
          then false
          else if is_current (xid h.xmax)
          then (if leb s.curcid h.cmax then true else false)
          else if not (s.in_snapshot (xid h.xmax)) && did_commit (xid h.xmax)
          then false
          else true)
      else true

  -- `np_record_satisfies_snapshot`; the array list's test has the same text.
  unfoldable pub record_satisfies_snapshot : Header → Snapshot → Bool
  unfolding kept_by_deleter
  record_satisfies_snapshot h s =
      let horizon = full_xid_relative_to next_fxid s.xmin in
      let deletion = kept_by_deleter horizon h s in
      if not (is_valid h.xmin)
      then false
      else if precedes h.xmin horizon
      then deletion
      else if is_current (xid h.xmin)
      then (if leb s.curcid h.cmin then false else deletion)
      else if s.in_snapshot (xid h.xmin)
      then false
      else if not (did_commit (xid h.xmin))
      then false
      else deletion

  unfoldable pub arraylist_satisfies_snapshot : Header → Snapshot → Bool
  unfolding kept_by_deleter
  arraylist_satisfies_snapshot h s =
      let horizon = full_xid_relative_to next_fxid s.xmin in
      let deletion = kept_by_deleter horizon h s in
      if not (is_valid h.xmin)
      then false
      else if precedes h.xmin horizon
      then deletion
      else if is_current (xid h.xmin)
      then (if leb s.curcid h.cmin then false else deletion)
      else if s.in_snapshot (xid h.xmin)
      then false
      else if not (did_commit (xid h.xmin))
      then false
      else deletion
