-- ===== src/Entity/Tests.antt =====
-- Runs of the entity store, and its theorems at a concrete relation.
use neo_post_graph.Common.{ℕ, ◌+◌, ◌≤◌, ◌≡◌, refl, true, false, some, [], ◌∷◌, arith, length, take}
use neo_post_graph.Layout.{maxalign}
use neo_post_graph.Mvcc.{is_live, xmax_other}
use neo_post_graph.Storage.{Tid, tid, invalid_tid, ok, hang, Rel, fetch}
use neo_post_graph.Storage.Append.{RelNormal}
use neo_post_graph.Entity.{
  Bytes, EntityTuple, EntityRow, tm_ok, pack_size, pack, zeros, get_meta, copy_props, tuple_size,
  new_version, payload_of, entity_update,
}
use neo_post_graph.Entity.Pack.{IsVarlena, copy_props-pack}
use neo_post_graph.Entity.Update.{IsSuperseded, entity_update-IsSuperseded, entity_update_hang}
use neo_post_graph.Sample.{ready, sample_pages, sample_xact, RelNormal-two}

-- VARSIZE of bytes whose first one is the size.
abbrev first_byte : Bytes → ℕ
first_byte [] = 0
first_byte (b ∷ bs) = b

abbrev meta_bytes : Bytes
meta_bytes = 3 ∷ 1 ∷ 2 ∷ []

abbrev props_bytes : Bytes
props_bytes = 2 ∷ 9 ∷ []

abbrev packed : EntityTuple
packed =
    new_version 3 0 invalid_tid 11
      (pack (zeros (pack_size meta_bytes props_bytes)) meta_bytes props_bytes)

pack_run :
    pack (zeros (pack_size meta_bytes props_bytes)) meta_bytes props_bytes
    ≡ 3 ∷ 1 ∷ 2 ∷ 0 ∷ 0 ∷ 0 ∷ 0 ∷ 0 ∷ 2 ∷ 9 ∷ []
unfolding pack pack_size
pack_run = refl

meta-IsVarlena : IsVarlena first_byte meta_bytes
meta-IsVarlena = λ rest. refl

props-IsVarlena : IsVarlena first_byte props_bytes
props-IsVarlena = λ rest. refl

enough : pack_size meta_bytes props_bytes ≤ length (zeros (pack_size meta_bytes props_bytes))
unfolding pack_size
enough = omega arith

packed_payload :
    packed.serialized_entity
    ≡ pack (zeros (pack_size meta_bytes props_bytes)) meta_bytes props_bytes
unfolding new_version
packed_payload = refl

copy_props-pack_example :
    (take (length meta_bytes) (get_meta first_byte packed) ≡ meta_bytes)
    × (copy_props first_byte packed ≡ props_bytes)
copy_props-pack_example =
    copy_props-pack first_byte packed (zeros (pack_size meta_bytes props_bytes)) meta_bytes
      props_bytes meta-IsVarlena props-IsVarlena enough packed_payload

-- A live row, in the first of two blocks.
abbrev live_row : EntityTuple
live_row = record {
  header = record { xmin = 3; xmax = 0; cmin = 0; cmax = 0 };
  prev_itemptr = invalid_tid;
  flags = 0;
  id = 11;
  serialized_entity = 7 ∷ [];
}

abbrev two_blocks : Rel (sample_pages EntityTuple)
two_blocks = ready 100 (some live_row ∷ []) ∷ ready 8168 [] ∷ []

abbrev last_block : Rel (sample_pages EntityTuple)
last_block = ready 100 (some live_row ∷ []) ∷ []

abbrev new_row : EntityRow
new_row = record { row_id = 11; meta = meta_bytes; props = some props_bytes }

abbrev new_tuple : EntityTuple
new_tuple = new_version 7 2 (tid 0 1) 11 (payload_of new_row)

row_live : is_live sample_xact live_row.header ≡ true
unfolding is_live
row_live = refl

row_other : xmax_other sample_xact live_row.header ≡ false
unfolding xmax_other
row_other = refl

row_at : fetch (sample_pages EntityTuple) two_blocks (tid 0 1) ≡ some live_row
unfolding fetch
row_at = refl

row_at_last : fetch (sample_pages EntityTuple) last_block (tid 0 1) ≡ some live_row
unfolding fetch
row_at_last = refl

two_blocks-RelNormal : RelNormal (sample_pages EntityTuple) two_blocks
two_blocks-RelNormal =
    RelNormal-two (sample_pages EntityTuple) (ready 100 (some live_row ∷ [])) (ready 8168 []) tt tt

room : maxalign (tuple_size new_tuple) + 4 ≤ 8164
unfolding tuple_size new_version payload_of pack pack_size
room = omega arith

entity_update-IsSuperseded_example :
    (rel' : Rel (sample_pages EntityTuple)) × (t : Tid) × (entity_update sample_xact
        (sample_pages EntityTuple)
        7
        2
        two_blocks
        (tid 0 1)
        new_row
      ≡ ok (tm_ok, rel', t))
    × IsSuperseded sample_xact
        (sample_pages EntityTuple)
        7
        2
        two_blocks
        (tid 0 1)
        live_row
        new_row
        rel'
        t
entity_update-IsSuperseded_example =
    entity_update-IsSuperseded sample_xact (sample_pages EntityTuple) 7 2 two_blocks (tid 0 1)
      live_row new_row row_at two_blocks-RelNormal row_live row_other (omega arith) room

entity_update_hang_example :
    entity_update sample_xact (sample_pages EntityTuple) 7 2 last_block (tid 0 1) new_row ≡ hang
entity_update_hang_example =
    entity_update_hang sample_xact (sample_pages EntityTuple) 7 2 last_block (tid 0 1) live_row
      new_row row_at_last row_live row_other refl
