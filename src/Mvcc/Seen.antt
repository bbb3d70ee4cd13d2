-- ===== src/Mvcc/Seen.antt =====
-- What the visibility tests decide: whether the creator's effect is seen and the deleter's is not.
use neo_post_graph.Common.{
  ℕ, ◌≡◌, ◌⊎◌, Bool, true, false, not, ◌&&◌, ◌||◌, ltb, if◌then◌else◌, arith,
}
use neo_post_graph.Mvcc.{
  Xact, Snapshot, Header, is_live, xmax_other, catalog_mvcc_visible, full_xid_relative_to,
}

module _ (x : Xact) where
  -- The effect of transaction `f` is seen by the running transaction as of now.
  abbrev pub seen_now : ℕ → Bool
  seen_now f =
      x.is_valid f
      && (x.is_current (x.xid f) || (not (x.in_progress (x.xid f)) && x.did_commit (x.xid f)))

  -- The effect of command `cid` of transaction `f` is seen by the snapshot.
  abbrev pub seen_by : Snapshot → ℕ → ℕ → Bool
  seen_by s f cid =
      x.is_valid f
      && (if x.is_current (x.xid f)
          then ltb cid s.curcid
          else not (s.in_snapshot (x.xid f))
            && (not (x.in_progress (x.xid f)) && x.did_commit (x.xid f)))

  -- The same where being in the snapshot's list is all that is asked of the running transactions.
  abbrev pub seen_in : Snapshot → ℕ → ℕ → Bool
  seen_in s f cid =
      x.is_valid f
      && (if x.is_current (x.xid f)
          then ltb cid s.curcid
          else not (s.in_snapshot (x.xid f)) && x.did_commit (x.xid f))

  -- A transaction that precedes the horizon of the snapshot has committed, and is neither the running
  -- one nor in the snapshot's list.
  pub record IsSettled (s : Snapshot) (f : ℕ) : Type 0 where
    pub settled :
        x.precedes f (full_xid_relative_to x x.next_fxid s.xmin) ≡ true
        → (x.is_current (x.xid f) ≡ false)
          × (s.in_snapshot (x.xid f) ≡ false)
          × (x.did_commit (x.xid f) ≡ true)

  -- Only the running transaction can have deleted a row that it created itself.
  pub record OwnRow (h : Header) : Type 0 where
    pub own :
        x.is_current (x.xid h.xmin) ≡ true
        → x.is_valid h.xmax ≡ true
        → x.is_current (x.xid h.xmax) ≡ true

  -- A row is live exactly when its creator's effect is seen now and its deleter's is not, if no
  -- other transaction deleted a row of the running one.
  pub is_live-eq-seen :
      (h : Header) → OwnRow h → is_live x h ≡ (seen_now h.xmin && not (seen_now h.xmax))
  unfolding is_live
  is_live-eq-seen h o = ground (arith, o.own)

  -- A catalog row is visible to an MVCC snapshot exactly when the creating command is seen by the
  -- snapshot and the deleting one is not, if no other transaction deleted a row of the running one.
  pub catalog_mvcc_visible-eq-seen :
      (h : Header) (s : Snapshot)
      → OwnRow h
      → catalog_mvcc_visible x h s ≡ (seen_by s h.xmin h.cmin && not (seen_by s h.xmax h.cmax))
  unfolding catalog_mvcc_visible
  catalog_mvcc_visible-eq-seen h s o = ground (arith, o.own)

  -- A live row whose deleter is not another running transaction is one that nobody deleted, or
  -- whose deleter aborted.
  pub is_live-writable :
      (h : Header)
      → OwnRow h
      → is_live x h ≡ true
      → xmax_other x h ≡ false
      → (x.is_valid h.xmax ≡ false)
        ⊎ ((x.is_current (x.xid h.xmax) ≡ false)
            × (x.in_progress (x.xid h.xmax) ≡ false)
            × (x.did_commit (x.xid h.xmax) ≡ false))
  unfolding is_live xmax_other
  is_live-writable h o live other = ground (arith, o.own)
