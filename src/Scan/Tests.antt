-- ===== src/Scan/Tests.antt =====
-- Runs of the scans, and their theorems at a concrete relation.
use neo_post_graph.Common.{ℕ, ◌≡◌, refl, Bool, true, none, some, [], ◌∷◌, ◌++◌, arith, ltb}
use neo_post_graph.Storage.{tid, ok, Rel}
use neo_post_graph.Scan.{
  PinnedScan, scan_begin, pinned_begin, scan_page, scan_blocks, pinned_blocks, getnextslot,
  pinned_getnextslot, drain, pinned_drain,
}
use neo_post_graph.Scan.Rows.{rel_rows, drain-eq-rows}
use neo_post_graph.Scan.Pinned.{as_scan, pinned_drain-eq-drain}
use neo_post_graph.Sample.{ready, zeroed, sample_pages}

-- Items above 3 are visible.
abbrev shown : ℕ → Bool
shown i = ltb 3 i

-- Three blocks when the scan begins, and one that comes later.
abbrev scanned : Rel (sample_pages ℕ)
scanned = ready 50 (some 4 ∷ none ∷ some 1 ∷ []) ∷ zeroed ∷ ready 50 (some 2 ∷ some 8 ∷ []) ∷ []

abbrev later : Rel (sample_pages ℕ)
later = ready 50 (some 9 ∷ []) ∷ []

abbrev midway : PinnedScan
midway = record { rs_nblocks = 3; rs_cbuf = true; rs_cblock = 0; rs_coffset = 2 }

drain_run :
    drain shown (sample_pages ℕ) 3 (scanned ++ later) (scan_begin shown (sample_pages ℕ) scanned)
    ≡ ok ((4, tid 0 1) ∷ (8, tid 2 2) ∷ [])
unfolding drain getnextslot scan_blocks scan_page
drain_run = refl

pinned_run :
    pinned_drain shown (sample_pages ℕ) 3 scanned (pinned_begin shown (sample_pages ℕ) scanned)
    ≡ ok ((4, tid 0 1) ∷ (8, tid 2 2) ∷ [])
unfolding pinned_drain pinned_getnextslot pinned_blocks scan_page
pinned_run = refl

drain-eq-rows_example :
    drain shown (sample_pages ℕ) 3 (scanned ++ later) (scan_begin shown (sample_pages ℕ) scanned)
    ≡ ok (rel_rows shown (sample_pages ℕ) 0 scanned)
drain-eq-rows_example = drain-eq-rows shown (sample_pages ℕ) scanned later 3 (omega arith)

pinned_drain-eq-drain_example :
    pinned_drain shown (sample_pages ℕ) 3 scanned midway
    ≡ drain shown (sample_pages ℕ) 3 scanned (as_scan shown (sample_pages ℕ) midway)
pinned_drain-eq-drain_example = pinned_drain-eq-drain shown (sample_pages ℕ) 3 scanned midway
