-- ===== src/Gtype/Convert.antt =====
-- The bytes of a gtype value: `convert_to_gtype` of src/backend/utils/adt/gtype_util.c and the
-- functions below it. The buffer is its bytes; bytes reserved hold zeros until they are written.
pub mod Grown
pub mod Entry
pub mod Bound
pub mod Fits
pub mod Returns
mod Tests
use neo_post_graph.Common.{
  ℕ, zero, suc, ◌+◌, ◌-◌, ◌*◌, ◌==◌, ltb, Bool, true, false, Option, none, some, List, [], ◌∷◌,
  ◌++◌, if◌then◌else◌, length, take, drop, replicate,
}
use neo_post_graph.Storage.{program_limit_exceeded, invalid_type, Outcome, ok, err, ◌>>=◌}
use neo_post_graph.Entity.{Bytes}
use neo_post_graph.GtypeExt.{
  GtypeScalar, gtv_null, gtv_string, gtv_numeric, gtv_bool, to_bytes, pad_buffer_to_int,
  serialize_extended_type,
}
use neo_post_graph.Gtype.{
  GtypeValue, gtv_scalar, gtv_array, gtv_object, GtypeElems, elem, no_elems, GtypePairs, pair,
  no_pairs,
}
use neo_post_graph.Gtype.Entries.{gtentry_offlenmask, gte_offlenfld, stride_entry}

abbrev pub copy_to_buffer : Bytes → ℕ → Bytes → Bytes
copy_to_buffer buffer offset bytes =
    take offset buffer ++ (bytes ++ drop (offset + length bytes) buffer)

-- GTENTRY_IS_NULL, GTENTRY_IS_NUMERIC, the two for Booleans, and GTENTRY_IS_CONTAINER.
abbrev pub is_null_entry : ℕ
is_null_entry = 1073741824

abbrev pub is_numeric_entry : ℕ
is_numeric_entry = 268435456

abbrev pub is_container_entry : ℕ
is_container_entry = 1342177280

unfoldable pub convert_gtype_scalar : Bytes → GtypeScalar → Outcome (Bytes × ℕ)
unfolding pad_buffer_to_int serialize_extended_type
convert_gtype_scalar buffer gtv_null = ok (buffer, is_null_entry)
convert_gtype_scalar buffer (gtv_string b) = ok (buffer ++ b, length b)
convert_gtype_scalar buffer (gtv_numeric b) =
    let (padlen, padded) = pad_buffer_to_int buffer in
    ok (padded ++ b, is_numeric_entry + (padlen + length b))
convert_gtype_scalar buffer (gtv_bool true) = ok (buffer, 805306368)
convert_gtype_scalar buffer (gtv_bool false) = ok (buffer, 536870912)
convert_gtype_scalar buffer v = elim (serialize_extended_type buffer v) [
  | some r ↦ ok r
  | none ↦ err invalid_type
]

abbrev pub number_of_elems : GtypeElems → ℕ
number_of_elems no_elems = 0
number_of_elems (elem v vs) = suc (number_of_elems vs)

abbrev pub number_of_pairs : GtypePairs → ℕ
number_of_pairs no_pairs = 0
number_of_pairs (pair key value order ps) = suc (number_of_pairs ps)

-- GT_FARRAY, with GT_FSCALAR for a raw scalar.
abbrev pub array_flags : Bool → ℕ
array_flags false = 1073741824
array_flags true = 1342177280

-- A turn of a loop: the value's bytes are at the end of the buffer, and its entry goes to its place
-- among the entries. The new total is returned with the buffer.
unfoldable pub put_entry : ℕ → ℕ → ℕ → ℕ → Bytes → Outcome (Bytes × ℕ)
unfolding gte_offlenfld stride_entry
put_entry i entry_offset total meta buffer =
    let totallen = total + gte_offlenfld meta in
    if ltb gtentry_offlenmask totallen
    then err program_limit_exceeded
    else ok (
      copy_to_buffer buffer (entry_offset + 4 * i) (to_bytes 4 (stride_entry i totallen meta)),
      totallen,
    )

-- The length of a container is all that was appended, padding included.
unfoldable pub container_entry : ℕ → Bytes → Outcome (Bytes × ℕ)
container_entry base_offset buffer =
    let totallen = length buffer - base_offset in
    if ltb gtentry_offlenmask totallen
    then err program_limit_exceeded
    else ok (buffer, is_container_entry + totallen)

-- Padding, the header, and the space for so many entries; with the place where these begin.
unfoldable pub open_container : Bytes → ℕ → ℕ → Bytes × ℕ
unfolding pad_buffer_to_int to_bytes
open_container buffer header num =
    let (padlen, padded) = pad_buffer_to_int buffer in
    let headed = padded ++ to_bytes 4 header in (headed ++ replicate (4 * num) 0, length headed)

-- The first loop of convert_gtype_object.
unfoldable pub convert_keys : GtypePairs → ℕ → ℕ → ℕ → Bytes → Outcome (Bytes × ℕ)
unfolding convert_gtype_scalar put_entry
convert_keys no_pairs entry_offset i total buffer = ok (buffer, total)
convert_keys (pair key value order ps) entry_offset i total buffer =
    convert_gtype_scalar buffer (gtv_string key) >>= λ (b, meta).
    put_entry i entry_offset total meta b >>= λ (b', totallen).
    convert_keys ps entry_offset (suc i) totallen b'

-- `check_stack_depth` is PostgreSQL's, at the depth of the recursion.
module _ (check_stack_depth : ℕ → Outcome Unit) where
  unfoldable mutual
    unfolding convert_gtype_scalar put_entry container_entry open_container convert_keys

    pub convert_gtype_value : ℕ → GtypeValue → Bytes → Outcome (Bytes × ℕ)
    convert_gtype_value level (gtv_scalar v) buffer =
        check_stack_depth level >>= λ _. convert_gtype_scalar buffer v
    convert_gtype_value level (gtv_array raw vs) buffer = check_stack_depth level >>= λ _.
        let num = number_of_elems vs in
        let (opened, entry_offset) = open_container buffer (num + array_flags raw) num in
        convert_elems (suc level) vs entry_offset 0 0 opened >>= λ b.
        container_entry (length buffer) b
    convert_gtype_value level (gtv_object ps) buffer = check_stack_depth level >>= λ _.
        let num = number_of_pairs ps in
        let (opened, entry_offset) = open_container buffer (num + 536870912) (num * 2) in
        convert_keys ps entry_offset 0 0 opened >>= λ (b, totallen).
        convert_values (suc level) ps entry_offset num totallen b >>= λ b'.
        container_entry (length buffer) b'

    -- The loop of convert_gtype_array from the `i`th element on.
    pub convert_elems : ℕ → GtypeElems → ℕ → ℕ → ℕ → Bytes → Outcome Bytes
    convert_elems level no_elems entry_offset i total buffer = ok buffer
    convert_elems level (elem v vs) entry_offset i total buffer =
        convert_gtype_value level v buffer >>= λ (b, meta).
        put_entry i entry_offset total meta b >>= λ (b', totallen).
        convert_elems level vs entry_offset (suc i) totallen b'

    -- The second loop of convert_gtype_object.
    pub convert_values : ℕ → GtypePairs → ℕ → ℕ → ℕ → Bytes → Outcome Bytes
    convert_values level no_pairs entry_offset i total buffer = ok buffer
    convert_values level (pair key value order ps) entry_offset i total buffer =
        convert_gtype_value level value buffer >>= λ (b, meta).
        put_entry i entry_offset total meta b >>= λ (b', totallen).
        convert_values level ps entry_offset (suc i) totallen b'

  -- The varlena header is the length, shifted by two.
  unfoldable pub convert_to_gtype : GtypeValue → Outcome Bytes
  unfolding convert_gtype_value
  convert_to_gtype v = convert_gtype_value 0 v (replicate 4 0) >>= λ (buffer, entry).
      ok (copy_to_buffer buffer 0 (to_bytes 4 (4 * length buffer)))
