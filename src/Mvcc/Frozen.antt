-- ===== src/Mvcc/Frozen.antt =====
-- The 64-bit horizon.
use neo_post_graph.Common.{ℕ, ◌+◌, ◌%◌, ◌^◌, ◌<◌, ◌≡◌, arith}
use neo_post_graph.Mvcc.{Xact, full_xid_relative_to}

module _ (x : Xact) where
  -- `FullXidRelativeTo` recovers the 64-bit number of a transaction from its low 32 bits and a
  -- reference that lies less than 2 ^ 31 transactions away, if XidFromFullTransactionId of the
  -- reference is its low half.
  pub full_xid_relative_to-mod :
      (rel f : ℕ)
      → x.xid rel ≡ rel % 2 ^ 32
      → rel < 2 ^ 64
      → f < 2 ^ 64
      → f < rel + 2 ^ 31
      → rel < f + 2 ^ 31
      → full_xid_relative_to x rel (f % 2 ^ 32) ≡ f
  unfolding full_xid_relative_to
  full_xid_relative_to-mod rel f low hr hf near below = ground arith
