-- ===== src/GtypeExt/Entry.antt =====
-- What `np_serialize_extended_type` puts into the buffer, and the entry it reports for it.
use neo_post_graph.Common.{
  ℕ, ◌+◌, ◌-◌, ◌^◌, ◌<◌, ◌≡◌, refl, some, [], ◌++◌, arith, length, take, replicate, length-append,
  length-replicate,
}
use neo_post_graph.Layout.{intalign}
use neo_post_graph.Entity.{Bytes}
use neo_post_graph.GtypeExt.{
  GtypeScalar, gtv_null, gtv_string, gtv_numeric, gtv_integer, gtv_float, gtv_bool, gtv_timestamp,
  gtv_timestamptz, gtv_date, gtv_time, gtv_timetz, gtv_interval, gtv_inet, gtv_cidr, gtv_mac,
  gtv_mac8, to_bytes, pad_buffer_to_int, serialize_header, serialize_with, serialize_extended_type,
  is_gtype, timetz_padding,
}
use neo_post_graph.GtypeExt.Memory.{length-to_bytes}

-- What the function stores, with numbers that fit their types and addresses of the right size.
unfoldable pub IsExtended : GtypeScalar → Type 0
IsExtended (gtv_integer n) = n < 256 ^ 8
IsExtended (gtv_float n) = n < 256 ^ 8
IsExtended (gtv_timestamp n) = n < 256 ^ 8
IsExtended (gtv_timestamptz n) = n < 256 ^ 8
IsExtended (gtv_date n) = n < 256 ^ 4
IsExtended (gtv_time n) = n < 256 ^ 8
IsExtended (gtv_timetz time zone) = (time < 256 ^ 8) × (zone < 256 ^ 4)
IsExtended (gtv_interval time day month) = (time < 256 ^ 8) × (day < 256 ^ 4) × (month < 256 ^ 4)
IsExtended (gtv_inet b) = length b ≡ 22
IsExtended (gtv_cidr b) = length b ≡ 22
IsExtended (gtv_mac b) = length b ≡ 6
IsExtended (gtv_mac8 b) = length b ≡ 8
IsExtended gtv_null = ⊥
IsExtended (gtv_string b) = ⊥
IsExtended (gtv_numeric b) = ⊥
IsExtended (gtv_bool b) = ⊥

-- The type's number and the data that stand in the buffer.
unfoldable pub header_of : GtypeScalar → ℕ
header_of (gtv_integer n) = 0
header_of (gtv_float n) = 1
header_of (gtv_timestamp n) = 2
header_of (gtv_timestamptz n) = 3
header_of (gtv_date n) = 4
header_of (gtv_time n) = 5
header_of (gtv_timetz time zone) = 6
header_of (gtv_interval time day month) = 7
header_of (gtv_inet b) = 9
header_of (gtv_cidr b) = 10
header_of (gtv_mac b) = 11
header_of _ = 12

unfoldable pub payload : GtypeScalar → Bytes
payload (gtv_timetz time zone) = to_bytes 8 time ++ (to_bytes 4 zone ++ timetz_padding)
payload (gtv_interval time day month) = to_bytes 8 time ++ (to_bytes 4 day ++ to_bytes 4 month)
payload (gtv_date n) = to_bytes 4 n
payload (gtv_integer n) = to_bytes 8 n
payload (gtv_float n) = to_bytes 8 n
payload (gtv_timestamp n) = to_bytes 8 n
payload (gtv_timestamptz n) = to_bytes 8 n
payload (gtv_time n) = to_bytes 8 n
payload (gtv_inet b) = take 22 b
payload (gtv_cidr b) = take 22 b
payload (gtv_mac b) = take 6 b
payload (gtv_mac8 b) = take 8 b
payload _ = []

unfoldable pub written : Bytes → GtypeScalar → Bytes
written buffer v = (serialize_header buffer (header_of v)).1 ++ payload v

length-written :
    (buffer : Bytes) (v : GtypeScalar)
    → length (written buffer v)
      ≡ length buffer + (pad_buffer_to_int buffer).0 + 4 + length (payload v)
unfolding written serialize_header pad_buffer_to_int
length-written buffer v =
    let pad : ℕ = 0 in
    let padding : Bytes = replicate (intalign (length buffer) - length buffer) pad in
    omega (
      arith,
      length-append ((buffer ++ padding) ++ to_bytes 4 (header_of v)) (payload v),
      length-append (buffer ++ padding) (to_bytes 4 (header_of v)),
      length-append buffer padding,
      length-replicate (intalign (length buffer) - length buffer) pad,
      length-to_bytes 4 (header_of v),
    )

-- What the entry's length leaves out.
unfoldable pub missing : Bytes → GtypeScalar → ℕ
missing buffer v = elim v [ gtv_timestamp _ ↦ intalign (length buffer) - length buffer | _ ↦ 0 ]

entry_with :
    (buffer : Bytes) (v : GtypeScalar)
    → is_gtype + ((pad_buffer_to_int buffer).0 + length (payload v) + 4) + 0
      ≡ is_gtype + (length (written buffer v) - length buffer)
entry_with buffer v = omega (arith, length-written buffer v)

timestamp_entry :
    (buffer : Bytes) (n : ℕ)
    → is_gtype + 12 + (intalign (length buffer) - length buffer)
      ≡ is_gtype + (length (written buffer (gtv_timestamp n)) - length buffer)
unfolding pad_buffer_to_int payload
timestamp_entry buffer n =
    omega (arith, length-written buffer (gtv_timestamp n), length-to_bytes 8 n)

-- An extended value is stored, and the entry it is given has the number of bytes by which the buffer
-- grew, padding included; for a timestamp alone, the padding is left out.
pub serialize_extended_type_entry :
    (buffer : Bytes) (v : GtypeScalar)
    → IsExtended v
    → (entry : ℕ) × (serialize_extended_type buffer v ≡ some (written buffer v, entry))
      × (entry + missing buffer v ≡ is_gtype + (length (written buffer v) - length buffer))
unfolding IsExtended header_of payload serialize_extended_type serialize_with serialize_header
    written missing
serialize_extended_type_entry buffer (gtv_integer n) h =
    (_, refl, entry_with buffer (gtv_integer n))
serialize_extended_type_entry buffer (gtv_float n) h = (_, refl, entry_with buffer (gtv_float n))
serialize_extended_type_entry buffer (gtv_timestamp n) h = (_, refl, timestamp_entry buffer n)
serialize_extended_type_entry buffer (gtv_timestamptz n) h =
    (_, refl, entry_with buffer (gtv_timestamptz n))
serialize_extended_type_entry buffer (gtv_date n) h = (_, refl, entry_with buffer (gtv_date n))
serialize_extended_type_entry buffer (gtv_time n) h = (_, refl, entry_with buffer (gtv_time n))
serialize_extended_type_entry buffer (gtv_timetz time zone) h =
    (_, refl, entry_with buffer (gtv_timetz time zone))
serialize_extended_type_entry buffer (gtv_interval time day month) h =
    (_, refl, entry_with buffer (gtv_interval time day month))
serialize_extended_type_entry buffer (gtv_inet b) h = (_, refl, entry_with buffer (gtv_inet b))
serialize_extended_type_entry buffer (gtv_cidr b) h = (_, refl, entry_with buffer (gtv_cidr b))
serialize_extended_type_entry buffer (gtv_mac b) h = (_, refl, entry_with buffer (gtv_mac b))
serialize_extended_type_entry buffer (gtv_mac8 b) h = (_, refl, entry_with buffer (gtv_mac8 b))
serialize_extended_type_entry buffer gtv_null h = absurd h
serialize_extended_type_entry buffer (gtv_string b) h = absurd h
serialize_extended_type_entry buffer (gtv_numeric b) h = absurd h
serialize_extended_type_entry buffer (gtv_bool b) h = absurd h
