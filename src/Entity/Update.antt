-- ===== src/Entity/Update.antt =====
-- The outcomes of an update through the entity store's access method.
use neo_post_graph.Common.{
  ℕ, ◌+◌, ◌-◌, ◌<◌, ◌≤◌, ◌≡◌, true, false, ◌&&◌, none, some, arith, ◌==◌, if◌then◌else◌, length,
}
use mathlib.Core.Path.{subst}
use neo_post_graph.Layout.{maxalign, size_of_item_id}
use neo_post_graph.Mvcc.{Xact, is_live, xmax_other}
use neo_post_graph.Storage.{
  Tid, tid_is_valid, PageOps, ok, hang, is_held, Rel, fetch, store, write_record,
}
use neo_post_graph.Storage.Fetch.{fetch-block, fetch-store}
use neo_post_graph.Storage.Append.{
  RelNormal, length-store, RelNormal-store, write_record-IsAppended, write_record_total,
  write_record_hang,
}
use neo_post_graph.Entity.{
  EntityTuple, EntityRow, tm_ok, payload_of, new_version, tombstone, tuple_size, entity_update,
}

module _ (x : Xact) where
  -- The deleting transaction sees no live row in a tombstone of its own.
  pub is_live-tombstone :
      (fxid cid : ℕ) (t : EntityTuple)
      → x.is_valid fxid ≡ true
      → x.is_current (x.xid fxid) ≡ true
      → is_live x (tombstone fxid cid t).header ≡ false
  unfolding is_live tombstone
  is_live-tombstone fxid cid t v c = ground arith

  pub is_live-new_version :
      (fxid cid : ℕ) (prev : Tid) (id : ℕ) (row : EntityRow)
      → x.is_valid fxid ≡ true
      → x.is_valid 0 ≡ false
      → x.is_current (x.xid fxid) ≡ true
      → is_live x (new_version fxid cid prev id (payload_of row)).header ≡ true
  unfolding is_live new_version
  is_live-new_version fxid cid prev id row v z c = ground arith

module _ (x : Xact) (pg : PageOps EntityTuple) (fxid cid : ℕ) where
  -- The new version, field by field: created and not deleted, with a pointer to the old one.
  abbrev pub new_row : Tid → EntityRow → EntityTuple
  new_row otid row = record {
    header = record { xmin = fxid; xmax = 0; cmin = cid; cmax = 4294967295 };
    prev_itemptr = otid;
    flags = 0;
    id = row.row_id;
    serialized_entity = payload_of row;
  }

  -- The old version with its deleter, and the rest as it was.
  abbrev pub old_row : EntityTuple → EntityTuple
  old_row old = record {
    header = record { xmin = old.header.xmin; xmax = fxid; cmin = old.header.cmin; cmax = cid };
    prev_itemptr = old.prev_itemptr;
    flags = old.flags;
    id = old.id;
    serialized_entity = old.serialized_entity;
  }

  -- `rel'` is `rel` with the row at `otid` superseded: a new version that points back to `otid`
  -- stands at the fresh address `t`, the old one carries its deleter, and nothing else has changed.
  pub record IsSuperseded (rel : Rel pg) (otid : Tid) (old : EntityTuple) (row : EntityRow)
      (rel' : Rel pg) (t : Tid) : Type 0 where
    pub valid : tid_is_valid t ≡ true
    pub fresh : fetch pg rel t ≡ none
    pub fetched :
        (u : Tid)
        → fetch pg rel' u ≡ (
            if u.block == t.block && u.offset == t.offset
            then some (new_row otid row)
            else if u.block == otid.block && u.offset == otid.offset
            then some (old_row old)
            else fetch pg rel u)
    pub normal : RelNormal pg rel'

  module _ (rel : Rel pg) (otid : Tid) (old : EntityTuple) (row : EntityRow)
      (at : fetch pg rel otid ≡ some old) where
    abbrev new : EntityTuple
    new = new_version fxid cid otid row.row_id (payload_of row)

    abbrev marked : Rel pg
    marked = store pg rel otid (tombstone fxid cid old)

    entity_update-live :
        is_live x old.header ≡ true
        → xmax_other x old.header ≡ false
        → (rel' : Rel pg) (t : Tid)
        → write_record pg (some otid.block) marked new (tuple_size new) ≡ ok (rel', t)
        → entity_update x pg fxid cid rel otid row ≡ ok (tm_ok, rel', t)
    unfolding entity_update
    entity_update-live live other rel' t w =
        let (p, e) = fetch-block pg rel otid old at in ground arith

    entity_update-hang :
        is_live x old.header ≡ true
        → xmax_other x old.header ≡ false
        → write_record pg (some otid.block) marked new (tuple_size new) ≡ hang
        → entity_update x pg fxid cid rel otid row ≡ hang
    unfolding entity_update
    entity_update-hang live other w = let (p, e) = fetch-block pg rel otid old at in ground arith

    -- The update of a live row that no other transaction is deleting waits for itself for ever, if
    -- the row lies in the relation's last block.
    pub entity_update_hang :
        is_live x old.header ≡ true
        → xmax_other x old.header ≡ false
        → otid.block + 1 ≡ length rel
        → entity_update x pg fxid cid rel otid row ≡ hang
    entity_update_hang live other last =
        let same = length-store pg rel otid (tombstone fxid cid old) in
        let here : length marked - 1 ≡ otid.block = omega arith in
        entity_update-hang live other (
          subst (λ b. write_record pg (some b) marked new (tuple_size new) ≡ hang) here
            (write_record_hang pg marked new (tuple_size new) (omega arith)))

    -- The update of a live row that no other transaction is deleting, and that lies in another block
    -- than the last, returns with the row superseded, if every line pointer is in use and an empty
    -- page has room for the new version.
    pub entity_update-IsSuperseded :
        RelNormal pg rel
        → is_live x old.header ≡ true
        → xmax_other x old.header ≡ false
        → otid.block + 1 < length rel
        → maxalign (tuple_size new) + size_of_item_id ≤ pg.free_space pg.empty
        → (rel' : Rel pg) × (t : Tid) × (entity_update x pg fxid cid rel otid row
            ≡ ok (tm_ok, rel', t))
          × IsSuperseded rel otid old row rel' t
    unfolding new_version tombstone
    entity_update-IsSuperseded normal live other inner fits =
        let same = length-store pg rel otid (tombstone fxid cid old) in
        let free : is_held (some otid.block) (length marked - 1) ≡ false = ground arith in
        let ((rel', t), w) =
          write_record_total pg (some otid.block) marked new (tuple_size new) free fits in
        let kept = RelNormal-store pg rel otid (tombstone fxid cid old) old at normal in
        let a =
          write_record-IsAppended pg (some otid.block) marked new (tuple_size new) rel' t kept w in
        (
          rel',
          t,
          entity_update-live live other rel' t w,
          record {
            valid = a.valid;
            fresh =
                ground (arith, a.fresh, fetch-store pg rel otid (tombstone fxid cid old) old t at);
            fetched = λ u.
                ground
                  (arith, a.fetched u, fetch-store pg rel otid (tombstone fxid cid old) old u at);
            normal = a.normal;
          },
        )
