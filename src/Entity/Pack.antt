-- ===== src/Entity/Pack.antt =====
-- The two parts of an entity can be read back from its payload.
use mathlib.Core.List.{append_assoc}
use native.Mathlib.Nat.{zero-add}
use neo_post_graph.Common.{
  ℕ, ◌+◌, ◌-◌, ◌≤◌, ◌≡◌, refl, ◌∙◌, ◌++◌, arith, length, take, drop, length-append,
  take-length-append, drop-length-append, take-append_le, length-take, length-drop,
}
use neo_post_graph.Layout.{maxalign}
use neo_post_graph.Entity.{Bytes, EntityTuple, pack_size, pack, get_meta, copy_props}

-- The first bytes of `v` say how long it is, whatever follows.
abbrev pub IsVarlena : (Bytes → ℕ) → Bytes → Type 0
IsVarlena varsize v = (rest : Bytes) → varsize (v ++ rest) ≡ length v

-- What stands between the parts and behind them.
pack-eq-append :
    (dest meta props : Bytes)
    → pack_size meta props ≤ length dest
    → (gap rest : Bytes) × (length (meta ++ gap) ≡ maxalign (length meta))
      × (pack dest meta props ≡ (meta ++ gap) ++ (props ++ rest))
unfolding pack pack_size
pack-eq-append dest meta props fits = (
  take (maxalign (length meta) - length meta) (drop (length meta) dest),
  drop (maxalign (length meta) + length props) (meta ++ drop (length meta) dest),
  omega (
    arith,
    length-append meta (take (maxalign (length meta) - length meta) (drop (length meta) dest)),
    length-take (maxalign (length meta) - length meta) (drop (length meta) dest)
        (omega (arith, length-drop (length meta) dest)),
  ),
  rw
      (
        zero-add,
        take-append_le meta (drop (length meta) dest) (maxalign (length meta)) (omega arith),
      )
      refl,
)

module _ (varsize : Bytes → ℕ) (meta gap props rest : Bytes) where
  abbrev whole : Bytes
  whole = (meta ++ gap) ++ (props ++ rest)

  varsize-whole : IsVarlena varsize meta → varsize whole ≡ length meta
  varsize-whole m = rw (append_assoc meta gap (props ++ rest)) (m (gap ++ (props ++ rest)))

  drop-whole :
      IsVarlena varsize meta
      → length (meta ++ gap) ≡ maxalign (length meta)
      → drop (maxalign (varsize whole)) whole ≡ props ++ rest
  drop-whole m l = rw (varsize-whole m, ← l) (drop-length-append (meta ++ gap) (props ++ rest))

module _ (varsize : Bytes → ℕ) (t : EntityTuple) where
  -- From a payload packed into a large enough buffer, `np_entity_get_meta` gives bytes that begin
  -- with the entity, and `np_entity_copy_props` gives exactly the properties, if both are varlenas.
  pub copy_props-pack :
      (dest meta props : Bytes)
      → IsVarlena varsize meta
      → IsVarlena varsize props
      → pack_size meta props ≤ length dest
      → t.serialized_entity ≡ pack dest meta props
      → (take (length meta) (get_meta varsize t) ≡ meta) × (copy_props varsize t ≡ props)
  unfolding copy_props
  copy_props-pack dest meta props m p fits e =
      let (gap, rest, l, eq) = pack-eq-append dest meta props fits in
      let is : t.serialized_entity ≡ whole varsize meta gap props rest = e ∙ eq in
      (
        rw (is, append_assoc meta gap (props ++ rest))
            (take-length-append meta (gap ++ (props ++ rest))),
        rw (is, drop-whole varsize meta gap props rest m l, p rest) (take-length-append props rest),
      )
