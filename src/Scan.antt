-- ===== src/Scan.antt =====
-- Sequential scans: `getnextslot` of src/backend/access/np_linked_list.c and np_arraylist.c, which
-- keep a block and an offset, and of np_entity_store.c and np_catalog_heap.c, which keep the block
-- pinned between calls. `visible` is the access method's test of an item.
pub mod Rows
pub mod Pinned
mod Tests
use neo_post_graph.Common.{
  ℕ, zero, suc, ◌+◌, ◌-◌, ◌≡◌, Bool, true, false, Option, none, some, List, [], ◌∷◌, ◌++◌,
  if◌then◌else◌, length, get_elem?,
}
use neo_post_graph.Storage.{
  Tid, tid, PageOps, no_block, Outcome, ok, err, hang, ◌>>=◌, item_at, Rel,
}

-- NpScanDescData and NpArrayScanDescData.
pub record ScanDesc : Type 0 where
  pub rs_nblocks : ℕ
  pub curr_block : ℕ
  pub curr_offset : ℕ

-- NPEntityScanDescData and NPCatalogScanDescData; `rs_cbuf` says whether the buffer is valid.
pub record PinnedScan : Type 0 where
  pub rs_nblocks : ℕ
  pub rs_cbuf : Bool
  pub rs_cblock : ℕ
  pub rs_coffset : ℕ

-- The rest of a page from an offset on, of which `n` line pointers are left: the first item that is
-- normal and visible, and its offset.
unfoldable pub scan_page {ℓ} : {I : Type ℓ} → (I → Bool) → List (Option I) → ℕ → ℕ → Option (I × ℕ)
scan_page visible slots zero off = none
scan_page visible slots (suc n) off =
    let rest = scan_page visible slots n (suc off) in
    elim (item_at slots off) [ none ↦ rest | some i ↦ if visible i then some (i, off) else rest ]

module _ {I : Type 0} (visible : I → Bool) (pg : PageOps I) where
  abbrev pub Row : Type 0
  Row = I × Tid

  abbrev pub scan_begin : Rel pg → ScanDesc
  scan_begin rel = record { rs_nblocks = length rel; curr_block = 0; curr_offset = 1 }

  -- The loop over the blocks, of which `n` are left.
  unfoldable pub scan_blocks : Rel pg → ℕ → ScanDesc → Outcome (Option Row × ScanDesc)
  scan_blocks rel zero d = ok (none, d)
  scan_blocks rel (suc n) d =
      let next = scan_blocks rel n (record d { curr_block = suc d.curr_block; curr_offset = 1 }) in
      elim (get_elem? rel d.curr_block) [
        | none ↦ err no_block
        | some p ↦
            elim (scan_page visible (pg.slots p) (length (pg.slots p) + 1 - d.curr_offset)
              d.curr_offset) [
                | none ↦ next
                | some (i, off) ↦
                    ok (some (i, tid d.curr_block off), record d { curr_offset = suc off })
              ]
      ]

  unfoldable pub getnextslot : Rel pg → ScanDesc → Outcome (Option Row × ScanDesc)
  getnextslot rel d = scan_blocks rel (d.rs_nblocks - d.curr_block) d

  abbrev pub pinned_begin : Rel pg → PinnedScan
  pinned_begin rel = record {
    rs_nblocks = length rel;
    rs_cbuf = false;
    rs_cblock = 0;
    rs_coffset = 1;
  }

  -- The loop of the access methods that keep the block pinned. With no block left the buffer is
  -- not valid, since a pinned block lies below `rs_nblocks`.
  unfoldable pub pinned_blocks : Rel pg → ℕ → PinnedScan → Outcome (Option Row × PinnedScan)
  pinned_blocks rel zero d = ok (none, d)
  pinned_blocks rel (suc n) d =
      let next = pinned_blocks rel n (record d { rs_cbuf = false; rs_cblock = suc d.rs_cblock }) in
      let start = if d.rs_cbuf then d.rs_coffset else 1 in
      elim (get_elem? rel d.rs_cblock) [
        | none ↦ err no_block
        | some p ↦ elim (scan_page visible (pg.slots p) (length (pg.slots p) + 1 - start) start) [
          | none ↦ next
          | some (i, off) ↦
              ok (some (i, tid d.rs_cblock off), record d { rs_cbuf = true; rs_coffset = suc off })
        ]
      ]

  unfoldable pub pinned_getnextslot : Rel pg → PinnedScan → Outcome (Option Row × PinnedScan)
  pinned_getnextslot rel d = pinned_blocks rel (d.rs_nblocks - d.rs_cblock) d

  -- The executor's loop: calls until one returns no row, at most `fuel` of them.
  unfoldable pub drain : ℕ → Rel pg → ScanDesc → Outcome (List Row)
  drain zero rel d = hang
  drain (suc fuel) rel d = do
    (row, d') ← getnextslot rel d
    let rest = drain fuel rel d' in elim row [ none ↦ ok [] | some r ↦ rest >>= λ rs. ok (r ∷ rs) ]

  unfoldable pub pinned_drain : ℕ → Rel pg → PinnedScan → Outcome (List Row)
  pinned_drain zero rel d = hang
  pinned_drain (suc fuel) rel d = do
    (row, d') ← pinned_getnextslot rel d
    let rest = pinned_drain fuel rel d' in
        elim row [ none ↦ ok [] | some r ↦ rest >>= λ rs. ok (r ∷ rs) ]
