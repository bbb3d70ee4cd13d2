-- ===== src/Entity.antt =====
-- The entity store of src/backend/access/np_entity_store.c: packing of an entity's two parts, and
-- the version chain that `np_entity_store_tuple_update` and src/backend/dml build.
pub mod Pack
pub mod Update
mod Tests
use neo_post_graph.Common.{
  ℕ, ◌+◌, ◌≡◌, Bool, true, false, not, Option, none, some, List, ◌++◌, if◌then◌else◌, length, take,
  replicate, drop, get_elem?,
}
use neo_post_graph.Layout.{maxalign}
use neo_post_graph.Mvcc.{Xact, Header, is_live, xmax_other}
use neo_post_graph.Storage.{
  Tid, invalid_tid, PageOps, Error, no_block, Outcome, ok, err, ◌>>=◌, Rel, fetch, store,
  write_record,
}

-- Bytes that begin with a varlena; `length` of one in memory is its VARSIZE.
abbrev pub Bytes : Type 0
Bytes = List ℕ

abbrev pub size_of_entity_header : ℕ
size_of_entity_header = 40

-- NPEntityTupleHeaderData with its payload.
pub record EntityTuple : Type 0 where
  pub header : Header
  pub prev_itemptr : Tid
  pub flags : ℕ
  pub id : ℕ
  pub serialized_entity : Bytes

pub data TmResult : Type 0 where
  tm_ok tm_invisible tm_updated : TmResult

-- memcpy into a buffer at an offset.
unfoldable pub memcpy : Bytes → ℕ → Bytes → Bytes
memcpy buf at src = take at buf ++ (src ++ drop (at + length src) buf)

unfoldable pub pack_size : Bytes → Bytes → ℕ
pack_size meta props = maxalign (length meta) + length props

unfoldable pub pack : Bytes → Bytes → Bytes → Bytes
unfolding memcpy
pack dest meta props = memcpy (memcpy dest 0 meta) (maxalign (length meta)) props

-- `varsize` is VARSIZE: it reads the size out of the first bytes.
module _ (varsize : Bytes → ℕ) where
  unfoldable pub get_meta : EntityTuple → Bytes
  get_meta hdr = hdr.serialized_entity

  unfoldable pub get_props : EntityTuple → Bytes
  unfolding get_meta
  get_props hdr = drop (maxalign (varsize (get_meta hdr))) (get_meta hdr)

  -- PG_DETOAST_DATUM_COPY of a plain varlena takes VARSIZE bytes.
  unfoldable pub copy_props : EntityTuple → Bytes
  unfolding get_props
  copy_props hdr = take (varsize (get_props hdr)) (get_props hdr)

-- The row of a slot of the entity table; a table of two columns has no third one.
pub record EntityRow : Type 0 where
  pub row_id : ℕ
  pub meta : Bytes
  pub props : Option Bytes

abbrev pub zeros : ℕ → Bytes
zeros n = replicate n 0

unfoldable pub payload_of : EntityRow → Bytes
unfolding pack pack_size
payload_of row = elim row.props [
  | none ↦ row.meta
  | some props ↦ pack (zeros (pack_size row.meta props)) row.meta props
]

-- A new version, made by command `cid` of transaction `fxid`, of what stands at `prev`.
unfoldable pub new_version : ℕ → ℕ → Tid → ℕ → Bytes → EntityTuple
new_version fxid cid prev id payload = record {
  header = record { xmin = fxid; xmax = 0; cmin = cid; cmax = 4294967295 };
  prev_itemptr = prev;
  flags = 0;
  id = id;
  serialized_entity = payload;
}

-- A tuple with its deleter written in.
unfoldable pub tombstone : ℕ → ℕ → EntityTuple → EntityTuple
tombstone fxid cid t = record t { header = record t.header { xmax = fxid; cmax = cid } }

unfoldable pub tuple_size : EntityTuple → ℕ
tuple_size t = maxalign (size_of_entity_header + length t.serialized_entity)

module _ (x : Xact) (pg : PageOps EntityTuple) where
  -- `np_entity_store_tuple_update`. The old block stays locked while the new version is written.
  unfoldable pub entity_update :
      ℕ → ℕ → Rel pg → Tid → EntityRow → Outcome (TmResult × Rel pg × Tid)
  entity_update fxid cid rel otid row = elim (get_elem? rel otid.block) [
    | none ↦ err no_block
    | some _ ↦ elim (fetch pg rel otid) [
      | none ↦ ok (tm_invisible, rel, otid)
      | some old ↦
          if not (is_live x old.header)
          then ok (tm_invisible, rel, otid)
          else if xmax_other x old.header
          then ok (tm_updated, rel, otid)
          else (let new = new_version fxid cid otid row.row_id (payload_of row) in
              let marked = store pg rel otid (tombstone fxid cid old) in
              do
                (rel', t) ← write_record pg (some otid.block) marked new (tuple_size new)
                ok (tm_ok, rel', t))
    ]
  ]
