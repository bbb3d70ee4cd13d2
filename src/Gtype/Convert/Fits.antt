-- ===== src/Gtype/Convert/Fits.antt =====
-- The sizes of the steps of a conversion: a scalar, an entry put in its place, and a container.
use neo_post_graph.Common.{
  ℕ, zero, suc, ◌+◌, ◌-◌, ◌*◌, ◌/◌, ◌≤◌, ◌≡◌, refl, ltb, true, false, List, [], ◌∷◌, ◌++◌, length,
  take, drop, replicate, length-append, length-replicate, length-take, length-drop, arith,
}
use neo_post_graph.Storage.{ok}
use neo_post_graph.Entity.{Bytes}
use neo_post_graph.GtypeExt.{
  GtypeScalar, gtv_null, gtv_string, gtv_numeric, gtv_integer, gtv_float, gtv_bool, gtv_timestamp,
  gtv_timestamptz, gtv_date, gtv_time, gtv_timetz, gtv_interval, gtv_inet, gtv_cidr, gtv_mac,
  gtv_mac8, is_gtype, timetz_padding, to_bytes, pad_buffer_to_int, serialize_header, serialize_with,
  serialize_extended_type,
}
use neo_post_graph.Gtype.Entries.{gtentry_offlenmask, gte_offlenfld, stride_entry}
use neo_post_graph.Gtype.Convert.{
  copy_to_buffer, is_container_entry, convert_gtype_scalar, put_entry, container_entry,
  open_container,
}
use neo_post_graph.Gtype.Convert.Bound.{bound_scalar}
use neo_post_graph.Gtype.Convert.Grown.{Extends-length, convert_gtype_scalar-Extends}
use neo_post_graph.Gtype.Convert.Entry.{Tagged, scalar-Tagged}

-- At most `n` bytes were appended, and the entry has a length of at most `n`.
abbrev pub HasSize : ℕ → Bytes → Bytes → ℕ → Type 0
HasSize n buffer b e =
    (length buffer ≤ length b) × (length b ≤ length buffer + n) × (gte_offlenfld e ≤ n)

take_le : {A : Type 0} → (n : ℕ) (xs : List A) → length (take n xs) ≤ n
take_le zero xs = omega arith
take_le (suc n) [] = omega arith
take_le (suc n) (x ∷ xs) = let le = take_le n xs in omega arith

pub open_container-length :
    (buffer : Bytes) (header num : ℕ)
    → let (b, o) = open_container buffer header num in
      (length b ≡ o + 4 * num) × (length buffer ≤ o) × (o ≤ length buffer + 7)
unfolding open_container pad_buffer_to_int to_bytes
open_container-length buffer header num =
    let blank : ℕ = 0 in
    let pad : Bytes = replicate ((length buffer + 3) / 4 * 4 - length buffer) blank in
    let a = length-append buffer pad in
    let c = length-replicate ((length buffer + 3) / 4 * 4 - length buffer) blank in
    let d = length-append (buffer ++ pad) (to_bytes 4 header) in
    let e = length-append ((buffer ++ pad) ++ to_bytes 4 header) (replicate (4 * num) blank) in
    let f = length-replicate (4 * num) blank in (omega arith, omega arith, omega arith)

serialize_with-length :
    (buffer : Bytes) (type : ℕ) (bytes : Bytes)
    → length bytes ≤ 22
    → length ((serialize_with buffer type bytes).0) ≤ length buffer + 29
unfolding serialize_with serialize_header pad_buffer_to_int to_bytes
serialize_with-length buffer type bytes le =
    let blank : ℕ = 0 in
    let pad : Bytes = replicate ((length buffer + 3) / 4 * 4 - length buffer) blank in
    let a = length-append buffer pad in
    let c = length-replicate ((length buffer + 3) / 4 * 4 - length buffer) blank in
    let d = length-append (buffer ++ pad) (to_bytes 4 type) in
    let e = length-append ((buffer ++ pad) ++ to_bytes 4 type) bytes in omega arith

-- A scalar is always converted.
scalar-length :
    (v : GtypeScalar) (buffer : Bytes)
    → (b : Bytes) × (e : ℕ) × (convert_gtype_scalar buffer v ≡ ok (b, e))
      × (length b ≤ length buffer + bound_scalar v)
unfolding convert_gtype_scalar serialize_extended_type pad_buffer_to_int to_bytes serialize_with
    serialize_header
scalar-length gtv_null buffer = (_, _, refl, omega arith)
scalar-length (gtv_bool true) buffer = (_, _, refl, omega arith)
scalar-length (gtv_bool false) buffer = (_, _, refl, omega arith)
scalar-length (gtv_string t) buffer = (_, _, refl, omega (arith, length-append buffer t))
scalar-length (gtv_numeric t) buffer =
    let blank : ℕ = 0 in
    let pad : Bytes = replicate ((length buffer + 3) / 4 * 4 - length buffer) blank in
    let a = length-append buffer pad in
    let c = length-replicate ((length buffer + 3) / 4 * 4 - length buffer) blank in
    (_, _, refl, omega (arith, length-append (buffer ++ pad) t))
scalar-length (gtv_integer n) buffer =
    (_, _, refl, serialize_with-length buffer 0 (to_bytes 8 n) (omega arith))
scalar-length (gtv_float n) buffer =
    (_, _, refl, serialize_with-length buffer 1 (to_bytes 8 n) (omega arith))
scalar-length (gtv_timestamp n) buffer =
    (_, _, refl, serialize_with-length buffer 2 (to_bytes 8 n) (omega arith))
scalar-length (gtv_timestamptz n) buffer =
    (_, _, refl, serialize_with-length buffer 3 (to_bytes 8 n) (omega arith))
scalar-length (gtv_date n) buffer =
    (_, _, refl, serialize_with-length buffer 4 (to_bytes 4 n) (omega arith))
scalar-length (gtv_time n) buffer =
    (_, _, refl, serialize_with-length buffer 5 (to_bytes 8 n) (omega arith))
scalar-length (gtv_timetz t z) buffer = (
  _,
  _,
  refl,
  serialize_with-length buffer 6 (to_bytes 8 t ++ (to_bytes 4 z ++ timetz_padding)) (omega arith),
)
scalar-length (gtv_interval t d m) buffer = (
  _,
  _,
  refl,
  serialize_with-length buffer 7 (to_bytes 8 t ++ (to_bytes 4 d ++ to_bytes 4 m)) (omega arith),
)
scalar-length (gtv_inet i) buffer =
    (_, _, refl, serialize_with-length buffer 9 (take 22 i) (take_le 22 i))
scalar-length (gtv_cidr i) buffer =
    (_, _, refl, serialize_with-length buffer 10 (take 22 i) (take_le 22 i))
scalar-length (gtv_mac i) buffer =
    let le = take_le 6 i in (_, _, refl, serialize_with-length buffer 11 (take 6 i) (omega arith))
scalar-length (gtv_mac8 i) buffer =
    let le = take_le 8 i in (_, _, refl, serialize_with-length buffer 12 (take 8 i) (omega arith))

-- The length that the entry holds, when its type is apart.
Tagged-offlenfld :
    (n : ℕ) (buffer b : Bytes) (e : ℕ)
    → n ≤ gtentry_offlenmask
    → length buffer ≤ length b
    → length b ≤ length buffer + n
    → Tagged buffer b e
    → gte_offlenfld e ≤ n
unfolding gte_offlenfld
Tagged-offlenfld n buffer b e small grown le (type, few, tagged) = omega arith

scalar-offlenfld :
    (v : GtypeScalar) (buffer b : Bytes) (e : ℕ)
    → bound_scalar v ≤ gtentry_offlenmask
    → length buffer ≤ length b
    → length b ≤ length buffer + bound_scalar v
    → convert_gtype_scalar buffer v ≡ ok (b, e)
    → gte_offlenfld e ≤ bound_scalar v
unfolding convert_gtype_scalar serialize_extended_type gte_offlenfld
scalar-offlenfld (gtv_timestamp n) buffer b e small grown le h =
    let same : is_gtype + 12 ≡ e = cc in omega arith
scalar-offlenfld (gtv_bool t) buffer b e small grown le h =
    Tagged-offlenfld 0 buffer b e small grown le (scalar-Tagged (gtv_bool t) buffer b e tt h)
scalar-offlenfld v buffer b e small grown le h =
    Tagged-offlenfld (bound_scalar v) buffer b e small grown le (scalar-Tagged v buffer b e tt h)

pub scalar_fits :
    (v : GtypeScalar) (buffer : Bytes)
    → bound_scalar v ≤ gtentry_offlenmask
    → (b : Bytes) × (e : ℕ) × (convert_gtype_scalar buffer v ≡ ok (b, e))
      × HasSize (bound_scalar v) buffer b e
scalar_fits v buffer small =
    let (b, e, h, le) = scalar-length v buffer in
    let grown = Extends-length buffer b (convert_gtype_scalar-Extends buffer v b e h) in
    (b, e, h, (grown, le, scalar-offlenfld v buffer b e small grown le h))

copy_to_buffer-length :
    (buffer : Bytes) (offset : ℕ) (bytes : Bytes)
    → offset + length bytes ≤ length buffer
    → length (copy_to_buffer buffer offset bytes) ≡ length buffer
copy_to_buffer-length buffer offset bytes le =
    let a = length-append (take offset buffer) (bytes ++ drop (offset + length bytes) buffer) in
    let c = length-append bytes (drop (offset + length bytes) buffer) in
    let d = length-take offset buffer (omega arith) in
    let e = length-drop (offset + length bytes) buffer in omega arith

-- The total stays within the mask.
pub put_entry_fits :
    (i entry_offset total meta n : ℕ) (buffer : Bytes)
    → total + n ≤ gtentry_offlenmask
    → gte_offlenfld meta ≤ n
    → entry_offset + 4 * i + 4 ≤ length buffer
    → (b : Bytes) × (t : ℕ) × (put_entry i entry_offset total meta buffer ≡ ok (b, t))
      × (length b ≡ length buffer)
      × (t ≤ total + n)
unfolding put_entry to_bytes
put_entry_fits i entry_offset total meta n buffer small le room =
    let under : ltb gtentry_offlenmask (total + gte_offlenfld meta) ≡ false = ground arith in
    let bytes = to_bytes 4 (stride_entry i (total + gte_offlenfld meta) meta) in
    (
      copy_to_buffer buffer (entry_offset + 4 * i) bytes,
      total + gte_offlenfld meta,
      rw under refl,
      copy_to_buffer-length buffer (entry_offset + 4 * i) bytes (omega arith),
      omega arith,
    )

pub container_entry_fits :
    (base buffer : Bytes) (n : ℕ)
    → n ≤ gtentry_offlenmask
    → length base ≤ length buffer
    → length buffer ≤ length base + n
    → (e : ℕ) × (container_entry (length base) buffer ≡ ok (buffer, e)) × HasSize n base buffer e
unfolding container_entry gte_offlenfld
container_entry_fits base buffer n small grown le =
    let under : ltb gtentry_offlenmask (length buffer - length base) ≡ false = ground arith in
    (is_container_entry + (length buffer - length base), rw under refl, (grown, le, omega arith))
