-- ===== src/Scan/Pinned.antt =====
-- The scans that keep their block pinned return what the others do.
use neo_post_graph.Common.{
  ℕ, zero, suc, ◌+◌, ◌-◌, ◌≡◌, refl, ◌⊎◌, Bool, true, false, Option, none, some, arith,
  if◌then◌else◌, length, get_elem?, Option-cases, inl, inr,
}
use mathlib.Core.Path.{subst₂}
use neo_post_graph.Storage.{tid, PageOps, Error, no_block, Outcome, ok, err, Rel}
use neo_post_graph.Scan.{
  Row, ScanDesc, PinnedScan, scan_page, scan_blocks, pinned_blocks, getnextslot, pinned_getnextslot,
  drain, pinned_drain,
}

module _ {I : Type 0} (visible : I → Bool) (pg : PageOps I) where
  -- The position that a pinned scan goes on from.
  abbrev pub as_scan : PinnedScan → ScanDesc
  as_scan d = record {
    rs_nblocks = d.rs_nblocks;
    curr_block = d.rs_cblock;
    curr_offset = if d.rs_cbuf then d.rs_coffset else 1;
  }

  -- Both fail, or both return the same and stand at the same position.
  abbrev BothStep :
      Outcome (Option (Row visible pg) × PinnedScan)
      → Outcome (Option (Row visible pg) × ScanDesc)
      → Type 0
  BothStep a b =
      ((e : Error) × (a ≡ err e) × (b ≡ err e))
      ⊎ ((r : Option (Row visible pg)) × (d : PinnedScan) × (a ≡ ok (r, d))
          × (b ≡ ok (r, as_scan d)))

  pinned_blocks-scan_blocks :
      (rel : Rel pg) (n : ℕ) (d : PinnedScan)
      → BothStep (pinned_blocks visible pg rel n d) (scan_blocks visible pg rel n (as_scan d))
  unfolding pinned_blocks scan_blocks
  pinned_blocks-scan_blocks rel zero d = inr (none, d, refl, refl)
  pinned_blocks-scan_blocks rel (suc n) d =
      let start = if d.rs_cbuf then d.rs_coffset else 1 in
      let rest =
        pinned_blocks-scan_blocks rel n
          (record d { rs_cbuf = false; rs_cblock = suc d.rs_cblock }) in
      elim (Option-cases (get_elem? rel d.rs_cblock)) [
        | inl e ↦ inl (no_block, ground arith, ground arith)
        | inr (p, e) ↦
            elim (Option-cases
              (scan_page visible (pg.slots p) (length (pg.slots p) + 1 - start) start)) [
                | inl missed ↦ subst₂ BothStep (ground arith) (ground arith) rest
                | inr ((i, off), found) ↦ inr (
                  some (i, tid d.rs_cblock off),
                  record d { rs_cbuf = true; rs_coffset = suc off },
                  ground arith,
                  ground arith,
                )
              ]
      ]

  -- A scan that keeps its block pinned and one that keeps an offset return the same rows from the
  -- same position on, or fail alike.
  pub pinned_drain-eq-drain :
      (fuel : ℕ) (rel : Rel pg) (d : PinnedScan)
      → pinned_drain visible pg fuel rel d ≡ drain visible pg fuel rel (as_scan d)
  unfolding pinned_drain drain pinned_getnextslot getnextslot
  pinned_drain-eq-drain zero rel d = refl
  pinned_drain-eq-drain (suc fuel) rel d =
      elim (pinned_blocks-scan_blocks rel (d.rs_nblocks - d.rs_cblock) d) [
        | inl (e, p, s) ↦ ground arith
        | inr (r, d', p, s) ↦ ground (arith, pinned_drain-eq-drain fuel rel d')
      ]
