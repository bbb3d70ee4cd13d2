-- ===== src/GtypeExt.antt =====
-- src/backend/utils/adt/gtype_ext.c: the extended types of a gtype, written into and read from its
-- bytes. Numbers are the unsigned values of their bits, stored least significant byte first.

mod Memory
mod Entry
pub mod RoundTrip
mod Tests
use neo_post_graph.Common.{
  ℕ, zero, suc, ◌+◌, ◌-◌, ◌*◌, ◌/◌, ◌%◌, Bool, Option, none, some, [], ◌∷◌, ◌++◌, if◌then◌else◌,
  ◌==◌, length, take, replicate, drop,
}
use neo_post_graph.Layout.{intalign}
use neo_post_graph.Entity.{Bytes}

-- The scalars of a gtype_value, IS_A_GTYPE_SCALAR in include/utils/gtype.h.
pub data GtypeScalar : Type 0 where
  gtv_null : GtypeScalar
  gtv_string gtv_numeric : Bytes → GtypeScalar
  gtv_integer gtv_float : ℕ → GtypeScalar
  gtv_bool : Bool → GtypeScalar
  gtv_timestamp gtv_timestamptz gtv_date gtv_time : ℕ → GtypeScalar
  gtv_timetz : (time zone : ℕ) → GtypeScalar
  gtv_interval : (time day month : ℕ) → GtypeScalar
  gtv_inet gtv_cidr gtv_mac gtv_mac8 : Bytes → GtypeScalar

-- A number of `width` bytes in memory.
unfoldable pub to_bytes : ℕ → ℕ → Bytes
to_bytes zero n = []
to_bytes (suc width) n = n % 256 ∷ to_bytes width (n / 256)

unfoldable pub of_bytes : Bytes → ℕ
of_bytes [] = 0
of_bytes (b ∷ bs) = b + 256 * of_bytes bs

unfoldable pub read : ℕ → Bytes → ℕ
unfolding of_bytes
read width bytes = of_bytes (take width bytes)

abbrev pub gt_header_size : ℕ
gt_header_size = 4

-- GTENTRY_IS_GTYPE; the lengths it is joined with by `|` have none of its bits.
abbrev pub is_gtype : ℕ
is_gtype = 1610612736

unfoldable pub pad_buffer_to_int : Bytes → ℕ × Bytes
pad_buffer_to_int buffer =
    let padlen = intalign (length buffer) - length buffer in (padlen, buffer ++ replicate padlen 0)

unfoldable pub serialize_header : Bytes → ℕ → ℕ × Bytes
unfolding to_bytes pad_buffer_to_int
serialize_header buffer type =
    let (padlen, padded) = pad_buffer_to_int buffer in
    (padlen, padded ++ to_bytes gt_header_size type)

-- The branches but that of GTV_TIMESTAMP: a header, its data, and their length with the padding.
unfoldable pub serialize_with : Bytes → ℕ → Bytes → Bytes × ℕ
unfolding serialize_header
serialize_with buffer type payload =
    let (padlen, headed) = serialize_header buffer type in
    (headed ++ payload, is_gtype + (padlen + length payload + gt_header_size))

-- The 16 bytes of a TimeTzADT end in four that are reserved and not written.
abbrev pub timetz_padding : Bytes
timetz_padding = replicate 4 0

-- The buffer and the entry; none where the function returns false.
unfoldable pub serialize_extended_type : Bytes → GtypeScalar → Option (Bytes × ℕ)
unfolding serialize_with
serialize_extended_type buffer (gtv_integer n) = some (serialize_with buffer 0 (to_bytes 8 n))
serialize_extended_type buffer (gtv_float n) = some (serialize_with buffer 1 (to_bytes 8 n))
serialize_extended_type buffer (gtv_timestamp n) =
    let (padlen, headed) = serialize_header buffer 2 in
    some (headed ++ to_bytes 8 n, is_gtype + (8 + gt_header_size))
serialize_extended_type buffer (gtv_timestamptz n) = some (serialize_with buffer 3 (to_bytes 8 n))
serialize_extended_type buffer (gtv_date n) = some (serialize_with buffer 4 (to_bytes 4 n))
serialize_extended_type buffer (gtv_time n) = some (serialize_with buffer 5 (to_bytes 8 n))
serialize_extended_type buffer (gtv_timetz time zone) =
    some (serialize_with buffer 6 (to_bytes 8 time ++ (to_bytes 4 zone ++ timetz_padding)))
serialize_extended_type buffer (gtv_interval time day month) =
    some (serialize_with buffer 7 (to_bytes 8 time ++ (to_bytes 4 day ++ to_bytes 4 month)))
serialize_extended_type buffer (gtv_inet b) = some (serialize_with buffer 9 (take 22 b))
serialize_extended_type buffer (gtv_cidr b) = some (serialize_with buffer 10 (take 22 b))
serialize_extended_type buffer (gtv_mac b) = some (serialize_with buffer 11 (take 6 b))
serialize_extended_type buffer (gtv_mac8 b) = some (serialize_with buffer 12 (take 8 b))
serialize_extended_type buffer gtv_null = none
serialize_extended_type buffer (gtv_string b) = none
serialize_extended_type buffer (gtv_numeric b) = none
serialize_extended_type buffer (gtv_bool b) = none

-- The switch on the header; `bytes` is what stands behind it.
unfoldable pub deserialize_as : ℕ → Bytes → Option GtypeScalar
unfolding read
deserialize_as header bytes =
    if header == 0
    then some (gtv_integer (read 8 bytes))
    else if header == 1
    then some (gtv_float (read 8 bytes))
    else if header == 2
    then some (gtv_timestamp (read 8 bytes))
    else if header == 3
    then some (gtv_timestamptz (read 8 bytes))
    else if header == 4
    then some (gtv_date (read 4 bytes))
    else if header == 5
    then some (gtv_time (read 8 bytes))
    else if header == 6
    then some (gtv_timetz (read 8 bytes) (read 4 (drop 8 bytes)))
    else if header == 7
    then some (gtv_interval (read 8 bytes) (read 4 (drop 8 bytes)) (read 4 (drop 12 bytes)))
    else if header == 9
    then some (gtv_inet (take 22 bytes))
    else if header == 10
    then some (gtv_cidr (take 22 bytes))
    else if header == 11
    then some (gtv_mac (take 6 bytes))
    else if header == 12
    then some (gtv_mac8 (take 8 bytes))
    else none

-- None where the code raises an error.
unfoldable pub deserialize_extended_type : Bytes → ℕ → Option GtypeScalar
unfolding deserialize_as
deserialize_extended_type base_addr offset =
    let base = drop (intalign offset) base_addr in
    deserialize_as (read gt_header_size base) (drop gt_header_size base)
