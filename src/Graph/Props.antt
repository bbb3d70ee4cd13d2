-- ===== src/Graph/Props.antt =====
-- Reading an entity's properties behind an item pointer.
use neo_post_graph.Common.{
  ℕ, ◌≤◌, ◌≡◌, refl, true, false, some, arith, length, length-replicate, Bool-cases, inl, inr,
}
use neo_post_graph.Mvcc.{Xact}
use neo_post_graph.Storage.{Tid, invalid_tid, tid_is_valid, PageOps, ok, Rel, fetch}
use neo_post_graph.Storage.Fetch.{fetch-block}
use neo_post_graph.Storage.Append.{IsAppended}
use neo_post_graph.Entity.{
  Bytes, EntityTuple, pack_size, zeros, payload_of, new_version, copy_props,
}
use neo_post_graph.Entity.Pack.{IsVarlena, copy_props-pack}
use neo_post_graph.Entity.Update.{is_live-new_version}
use neo_post_graph.Graph.{props_at}

module _ (x : Xact) (varsize : Bytes → ℕ) (empty_object : Bytes) (pe : PageOps EntityTuple) where
  -- The version that an insert of the running transaction writes.
  abbrev pub inserted : ℕ → ℕ → ℕ → Bytes → Bytes → EntityTuple
  inserted fxid cid id meta props =
      new_version fxid cid invalid_tid id
        (payload_of (record { row_id = id; meta = meta; props = some props }))

  -- What an item pointer leads to, if it is valid, exists.
  abbrev pub Leads : Rel pe → Tid → Type 0
  Leads rel u = tid_is_valid u ≡ true → (i : EntityTuple) × (fetch pe rel u ≡ some i)

  copy_props-inserted :
      (fxid cid id : ℕ) (meta props : Bytes)
      → IsVarlena varsize meta
      → IsVarlena varsize props
      → copy_props varsize (inserted fxid cid id meta props) ≡ props
  unfolding new_version payload_of
  copy_props-inserted fxid cid id meta props m p =
      let size : pack_size meta props ≤ length (zeros (pack_size meta props)) =
        omega (arith, length-replicate {A = ℕ} (pack_size meta props) 0) in
      let (_, same) =
        copy_props-pack varsize (inserted fxid cid id meta props) (zeros (pack_size meta props))
          meta props m p size refl in
      same

  pub props_at-inserted :
      (fxid cid id : ℕ) (meta props : Bytes) (rel rel' : Rel pe) (t : Tid)
      → IsVarlena varsize meta
      → IsVarlena varsize props
      → x.is_valid fxid ≡ true
      → x.is_valid 0 ≡ false
      → x.is_current (x.xid fxid) ≡ true
      → IsAppended pe rel (inserted fxid cid id meta props) rel' t
      → props_at x varsize empty_object pe rel' t ≡ ok props
  unfolding props_at
  props_at-inserted fxid cid id meta props rel rel' t m p v z c a =
      let new = inserted fxid cid id meta props in
      let here : fetch pe rel' t ≡ some new = ground (arith, a.fetched t) in
      let (page, e) = fetch-block pe rel' t new here in
      let live =
        is_live-new_version x fxid cid invalid_tid id
          (record { row_id = id; meta = meta; props = some props }) v z c in
      ground (arith, a.valid, live, copy_props-inserted fxid cid id meta props m p)

  pub props_at-kept :
      (i : EntityTuple) (rel rel' : Rel pe) (t u : Tid)
      → IsAppended pe rel i rel' t
      → Leads rel u
      → props_at x varsize empty_object pe rel' u ≡ props_at x varsize empty_object pe rel u
  unfolding props_at
  props_at-kept i rel rel' t u a there = elim (Bool-cases (tid_is_valid u)) [
    | inl valid ↦
        let (old, e) = there valid in
        let (page, at) = fetch-block pe rel u old e in
        let e' : fetch pe rel' u ≡ some old = ground (arith, a.fetched u, a.fresh) in
        let (page', at') = fetch-block pe rel' u old e' in ground arith
    | inr invalid ↦ ground arith
  ]
