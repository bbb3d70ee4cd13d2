-- ===== src/Mvcc/Tests.antt =====
-- Runs of the visibility tests, and the theorems at concrete rows.
use neo_post_graph.Common.{ℕ, ◌+◌, ◌%◌, ◌^◌, ◌≡◌, refl, true, false, not, ◌&&◌, arith}
use neo_post_graph.Mvcc.{
  Snapshot, Header, mvcc, is_live, catalog_mvcc_visible, record_satisfies_snapshot,
  full_xid_relative_to, xmax_other,
}
use neo_post_graph.Mvcc.Seen.{
  seen_now, seen_by, OwnRow, is_live-eq-seen, catalog_mvcc_visible-eq-seen,
}
use neo_post_graph.Mvcc.Frozen.{full_xid_relative_to-mod}
use neo_post_graph.Sample.{sample_xact, sample_snapshot}

abbrev header : ℕ → ℕ → ℕ → ℕ → Header
header xmin xmax cmin cmax = record { xmin = xmin; xmax = xmax; cmin = cmin; cmax = cmax }

-- A row of an earlier transaction that an aborted one tried to delete.
abbrev kept_row : Header
kept_row = header 3 6 0 1

kept_row-OwnRow : OwnRow sample_xact kept_row
kept_row-OwnRow = record { own = λ c v. absurd (ground arith) }

-- A row of an aborted transaction before the horizon.
abbrev aborted_row : Header
aborted_row = header 6 0 0 0

-- The sample with a horizon past the aborted transaction.
abbrev later_snapshot : Snapshot
later_snapshot = record { snapshot_type = mvcc; xmin = 7; curcid = 3; in_snapshot = λ i. false }

kept_row_live : is_live sample_xact kept_row ≡ true
unfolding is_live
kept_row_live = refl

kept_row_other : xmax_other sample_xact kept_row ≡ false
unfolding xmax_other
kept_row_other = refl

is_live-eq-seen_example :
    is_live sample_xact kept_row
    ≡ (seen_now sample_xact kept_row.xmin && not (seen_now sample_xact kept_row.xmax))
is_live-eq-seen_example = is_live-eq-seen sample_xact kept_row kept_row-OwnRow

catalog_mvcc_visible-eq-seen_example : catalog_mvcc_visible sample_xact kept_row sample_snapshot ≡ (
    seen_by sample_xact sample_snapshot kept_row.xmin kept_row.cmin
    && not (seen_by sample_xact sample_snapshot kept_row.xmax kept_row.cmax))
catalog_mvcc_visible-eq-seen_example =
    catalog_mvcc_visible-eq-seen sample_xact kept_row sample_snapshot kept_row-OwnRow

full_xid_relative_to-mod_example :
    full_xid_relative_to sample_xact (2 ^ 33 + 5) ((2 ^ 33 + 1) % 2 ^ 32) ≡ 2 ^ 33 + 1
full_xid_relative_to-mod_example =
    full_xid_relative_to-mod sample_xact (2 ^ 33 + 5) (2 ^ 33 + 1) refl (omega arith) (omega arith)
      (omega arith) (omega arith)

-- An aborted creator before the horizon is not settled.
aborted_row_shown : record_satisfies_snapshot sample_xact aborted_row later_snapshot ≡ true
unfolding record_satisfies_snapshot full_xid_relative_to
aborted_row_shown = refl

aborted_row_hidden : catalog_mvcc_visible sample_xact aborted_row later_snapshot ≡ false
unfolding catalog_mvcc_visible
aborted_row_hidden = refl
