-- ===== src/GtypeExt/RoundTrip.antt =====
-- What `np_serialize_extended_type` writes, `np_deserialize_extended_type` reads.
use mathlib.Core.List.{append_assoc}
use neo_post_graph.Common.{
  ℕ, ◌+◌, ◌-◌, ◌%◌, ◌^◌, ◌≤◌, ◌<◌, ◌≡◌, refl, ap, some, ◌++◌, arith, length, replicate, drop,
  length-append, length-replicate, drop-length-append,
}
use neo_post_graph.Layout.{intalign}
use neo_post_graph.Entity.{Bytes}
use neo_post_graph.GtypeExt.{
  GtypeScalar, gtv_null, gtv_string, gtv_numeric, gtv_integer, gtv_float, gtv_bool, gtv_timestamp,
  gtv_timestamptz, gtv_date, gtv_time, gtv_timetz, gtv_interval, gtv_inet, gtv_cidr, gtv_mac,
  gtv_mac8, to_bytes, pad_buffer_to_int, serialize_header, serialize_extended_type, deserialize_as,
  deserialize_extended_type, timetz_padding,
}
use neo_post_graph.GtypeExt.Entry.{
  IsExtended, header_of, payload, written, serialize_extended_type_entry,
}
use neo_post_graph.GtypeExt.Memory.{read-to_bytes, drop-to_bytes, drop-drop, take-exact}

-- The padding ends where the reader, counting from an aligned base, aligns the offset to.
drop-padded :
    (buffer bytes : Bytes) (base : ℕ)
    → base % 4 ≡ 0
    → base ≤ length buffer
    → let (padlen, padded) = pad_buffer_to_int buffer in
      drop (intalign (length buffer - base)) (drop base (padded ++ bytes)) ≡ bytes
unfolding pad_buffer_to_int
drop-padded buffer bytes base aligned le =
    let pad : ℕ = 0 in
    let padding : Bytes = replicate (intalign (length buffer) - length buffer) pad in
    let end : base + intalign (length buffer - base) ≡ length (buffer ++ padding) = omega (
      arith,
      length-append buffer padding,
      length-replicate (intalign (length buffer) - length buffer) pad,
    ) in
    rw (drop-drop, end) (drop-length-append (buffer ++ padding) bytes)

read_payload :
    (v : GtypeScalar) (rest : Bytes)
    → IsExtended v
    → deserialize_as (header_of v) (payload v ++ rest) ≡ some v
unfolding IsExtended header_of payload deserialize_as
read_payload (gtv_integer n) rest h = ap (λ k. some (gtv_integer k)) (read-to_bytes 8 n rest h)
read_payload (gtv_float n) rest h = ap (λ k. some (gtv_float k)) (read-to_bytes 8 n rest h)
read_payload (gtv_timestamp n) rest h = ap (λ k. some (gtv_timestamp k)) (read-to_bytes 8 n rest h)
read_payload (gtv_timestamptz n) rest h =
    ap (λ k. some (gtv_timestamptz k)) (read-to_bytes 8 n rest h)
read_payload (gtv_date n) rest h = ap (λ k. some (gtv_date k)) (read-to_bytes 4 n rest h)
read_payload (gtv_time n) rest h = ap (λ k. some (gtv_time k)) (read-to_bytes 8 n rest h)
read_payload (gtv_timetz time zone) rest (t, z) =
    rw
      (
        append_assoc (to_bytes 8 time) (to_bytes 4 zone ++ timetz_padding) rest,
        append_assoc (to_bytes 4 zone) timetz_padding rest,
        read-to_bytes 8 time (to_bytes 4 zone ++ (timetz_padding ++ rest)) t,
        drop-to_bytes 8 time (to_bytes 4 zone ++ (timetz_padding ++ rest)),
        read-to_bytes 4 zone (timetz_padding ++ rest) z,
      )
      refl
read_payload (gtv_interval time day month) rest (t, d, m) =
    rw
      (
        append_assoc (to_bytes 8 time) (to_bytes 4 day ++ to_bytes 4 month) rest,
        append_assoc (to_bytes 4 day) (to_bytes 4 month) rest,
        ← drop-drop 4 8,
        read-to_bytes 8 time (to_bytes 4 day ++ (to_bytes 4 month ++ rest)) t,
        drop-to_bytes 8 time (to_bytes 4 day ++ (to_bytes 4 month ++ rest)),
        read-to_bytes 4 day (to_bytes 4 month ++ rest) d,
        drop-to_bytes 4 day (to_bytes 4 month ++ rest),
        read-to_bytes 4 month rest m,
      )
      refl
read_payload (gtv_inet b) rest h = ap (λ k. some (gtv_inet k)) (take-exact 22 b rest h)
read_payload (gtv_cidr b) rest h = ap (λ k. some (gtv_cidr k)) (take-exact 22 b rest h)
read_payload (gtv_mac b) rest h = ap (λ k. some (gtv_mac k)) (take-exact 6 b rest h)
read_payload (gtv_mac8 b) rest h = ap (λ k. some (gtv_mac8 k)) (take-exact 8 b rest h)
read_payload gtv_null rest h = absurd h
read_payload (gtv_string b) rest h = absurd h
read_payload (gtv_numeric b) rest h = absurd h
read_payload (gtv_bool b) rest h = absurd h

header_lt : (v : GtypeScalar) → header_of v < 256 ^ 4
unfolding header_of
header_lt (gtv_integer n) = omega arith
header_lt (gtv_float n) = omega arith
header_lt (gtv_timestamp n) = omega arith
header_lt (gtv_timestamptz n) = omega arith
header_lt (gtv_date n) = omega arith
header_lt (gtv_time n) = omega arith
header_lt (gtv_timetz time zone) = omega arith
header_lt (gtv_interval time day month) = omega arith
header_lt (gtv_inet b) = omega arith
header_lt (gtv_cidr b) = omega arith
header_lt (gtv_mac b) = omega arith
header_lt (gtv_mac8 b) = omega arith
header_lt gtv_null = omega arith
header_lt (gtv_string b) = omega arith
header_lt (gtv_numeric b) = omega arith
header_lt (gtv_bool b) = omega arith

-- Where the reader looks for the value.
read_place :
    (buffer rest : Bytes) (base : ℕ) (v : GtypeScalar)
    → base % 4 ≡ 0
    → base ≤ length buffer
    → drop (intalign (length buffer - base)) (drop base (written buffer v ++ rest))
      ≡ to_bytes 4 (header_of v) ++ (payload v ++ rest)
unfolding written serialize_header
read_place buffer rest base v aligned le =
    rw
      (
        append_assoc ((pad_buffer_to_int buffer).1 ++ to_bytes 4 (header_of v)) (payload v) rest,
        append_assoc (pad_buffer_to_int buffer).1 (to_bytes 4 (header_of v)) (payload v ++ rest),
      )
      (drop-padded buffer (to_bytes 4 (header_of v) ++ (payload v ++ rest)) base aligned le)

-- A value that fits its type, written by np_serialize_extended_type at the end of a buffer, is what
-- np_deserialize_extended_type reads back from an aligned base in the buffer, whatever follows.
pub deserialize-serialize :
    (buffer rest : Bytes) (base : ℕ) (v : GtypeScalar)
    → base % 4 ≡ 0
    → base ≤ length buffer
    → IsExtended v
    → (whole : Bytes) × (entry : ℕ) × (serialize_extended_type buffer v ≡ some (whole, entry))
      × (deserialize_extended_type (drop base (whole ++ rest)) (length buffer - base) ≡ some v)
unfolding deserialize_extended_type
deserialize-serialize buffer rest base v aligned le h =
    let (entry, done, _) = serialize_extended_type_entry buffer v h in
    (
      written buffer v,
      entry,
      done,
      rw
          (
            read_place buffer rest base v aligned le,
            read-to_bytes 4 (header_of v) (payload v ++ rest) (header_lt v),
            drop-to_bytes 4 (header_of v) (payload v ++ rest),
          )
          (read_payload v rest h),
    )
