-- ===== src/Gtype/Convert/Entry.antt =====
-- The entry of a converted value has the length of what was appended for it.
use neo_post_graph.Common.{
  ℕ, ◌+◌, ◌-◌, suc, ◌*◌, ◌≤◌, ◌<◌, ◌≡◌, ap, true, false, ◌++◌, length, replicate, length-append,
  length-replicate, arith,
}
use mathlib.Core.Path.{subst}
use neo_post_graph.Storage.{Outcome, ok, ◌>>=◌}
use neo_post_graph.Storage.Outcomes.{bind_ok}
use neo_post_graph.Entity.{Bytes}
use neo_post_graph.Layout.{intalign}
use neo_post_graph.GtypeExt.{
  GtypeScalar, gtv_null, gtv_string, gtv_numeric, gtv_integer, gtv_float, gtv_bool, gtv_timestamp,
  gtv_timestamptz, gtv_date, gtv_time, gtv_timetz, gtv_interval, gtv_inet, gtv_cidr, gtv_mac,
  gtv_mac8, timetz_padding, to_bytes, pad_buffer_to_int, serialize_header, serialize_with,
  serialize_extended_type,
}
use neo_post_graph.Gtype.{GtypeValue, gtv_scalar, gtv_array, gtv_object}
use neo_post_graph.Gtype.Entries.{gtentry_offlenmask}
use neo_post_graph.Gtype.Convert.{
  is_null_entry, convert_gtype_scalar, number_of_elems, number_of_pairs, array_flags,
  container_entry, open_container, convert_gtype_value, convert_elems, convert_keys, convert_values,
}
use neo_post_graph.Gtype.Convert.Grown.{
  Extends, Extends-length, bind_unit, convert_gtype_scalar-Extends, value-Extends,
  container_entry_lem,
}

-- All but a timestamp by itself.
abbrev pub IsCounted : GtypeValue → Type 0
IsCounted (gtv_scalar (gtv_timestamp n)) = ⊥
IsCounted (gtv_scalar v) = Unit
IsCounted (gtv_array raw vs) = Unit
IsCounted (gtv_object ps) = Unit

-- The bytes of a container are within the mask.
abbrev pub IsWithin : GtypeValue → ℕ → Type 0
IsWithin (gtv_scalar v) n = Unit
IsWithin (gtv_array raw vs) n = n ≤ gtentry_offlenmask
IsWithin (gtv_object ps) n = n ≤ gtentry_offlenmask

-- The bytes appended, and an entry of type bits and their number.
abbrev pub HasEntry : GtypeValue → Bytes → Bytes → ℕ → Type 0
HasEntry v buffer b e =
    (more : Bytes) × (type : ℕ) × (b ≡ buffer ++ more)
    × (type < 8)
    × (e ≡ type * 268435456 + length more)
    × IsWithin v (length more)

-- An entry with type bits, and a length.
abbrev pub Tagged : Bytes → Bytes → ℕ → Type 0
Tagged buffer b e = (type : ℕ) × (type < 8) × (e + length buffer ≡ type * 268435456 + length b)

entry_of :
    (v : GtypeValue) (buffer b : Bytes) (e : ℕ)
    → Extends buffer b
    → Tagged buffer b e
    → IsWithin v (length b - length buffer)
    → HasEntry v buffer b e
entry_of v buffer b e (more, at) (type, small, tagged) within =
    let size : length b ≡ length buffer + length more = rw at (length-append buffer more) in
    let grown : length b - length buffer ≡ length more = omega arith in
    (more, type, at, small, omega arith, subst (λ n. IsWithin v n) grown within)

Tagged-of :
    (buffer : Bytes) (r : Bytes × ℕ) (b : Bytes) (e type : ℕ)
    → type < 8
    → r.1 + length buffer ≡ type * 268435456 + length (r.0)
    → Outcome.ok r ≡ ok (b, e)
    → Tagged buffer b e
Tagged-of buffer r b e type small tagged h =
    let same : r ≡ (b, e) = cc in
    (type, small, subst (λ w. w.1 + length buffer ≡ type * 268435456 + length (w.0)) same tagged)

serialize_with-Tagged :
    (buffer : Bytes) (type : ℕ) (bytes b : Bytes) (e : ℕ)
    → Outcome.ok (serialize_with buffer type bytes) ≡ ok (b, e)
    → Tagged buffer b e
unfolding serialize_with serialize_header pad_buffer_to_int
serialize_with-Tagged buffer type bytes b e h =
    let blank : ℕ = 0 in
    let pad : Bytes = replicate (intalign (length buffer) - length buffer) blank in
    Tagged-of buffer (((buffer ++ pad) ++ to_bytes 4 type) ++ bytes, _) b e 6 (omega arith)
      (omega (
        arith,
        length-append ((buffer ++ pad) ++ to_bytes 4 type) bytes,
        length-append (buffer ++ pad) (to_bytes 4 type),
        length-append buffer pad,
        length-replicate (intalign (length buffer) - length buffer) blank,
      ))
      h

pub scalar-Tagged :
    (v : GtypeScalar) (buffer b : Bytes) (e : ℕ)
    → IsCounted (gtv_scalar v)
    → convert_gtype_scalar buffer v ≡ ok (b, e)
    → Tagged buffer b e
unfolding convert_gtype_scalar serialize_extended_type pad_buffer_to_int
scalar-Tagged gtv_null buffer b e c h =
    Tagged-of buffer (buffer, is_null_entry) b e 4 (omega arith) (omega arith) h
scalar-Tagged (gtv_string t) buffer b e c h =
    Tagged-of buffer (buffer ++ t, length t) b e 0 (omega arith)
      (omega (arith, length-append buffer t)) h
scalar-Tagged (gtv_numeric t) buffer b e c h =
    let blank : ℕ = 0 in
    let pad : Bytes = replicate (intalign (length buffer) - length buffer) blank in
    Tagged-of buffer ((buffer ++ pad) ++ t, _) b e 1 (omega arith)
      (omega (
        arith,
        length-append (buffer ++ pad) t,
        length-append buffer pad,
        length-replicate (intalign (length buffer) - length buffer) blank,
      ))
      h
scalar-Tagged (gtv_bool true) buffer b e c h =
    Tagged-of buffer (buffer, 805306368) b e 3 (omega arith) (omega arith) h
scalar-Tagged (gtv_bool false) buffer b e c h =
    Tagged-of buffer (buffer, 536870912) b e 2 (omega arith) (omega arith) h
scalar-Tagged (gtv_integer n) buffer b e c h = serialize_with-Tagged buffer 0 (to_bytes 8 n) b e h
scalar-Tagged (gtv_float n) buffer b e c h = serialize_with-Tagged buffer 1 (to_bytes 8 n) b e h
scalar-Tagged (gtv_timestamp n) buffer b e c h = absurd c
scalar-Tagged (gtv_timestamptz n) buffer b e c h =
    serialize_with-Tagged buffer 3 (to_bytes 8 n) b e h
scalar-Tagged (gtv_date n) buffer b e c h = serialize_with-Tagged buffer 4 (to_bytes 4 n) b e h
scalar-Tagged (gtv_time n) buffer b e c h = serialize_with-Tagged buffer 5 (to_bytes 8 n) b e h
scalar-Tagged (gtv_timetz t z) buffer b e c h =
    serialize_with-Tagged buffer 6 (to_bytes 8 t ++ (to_bytes 4 z ++ timetz_padding)) b e h
scalar-Tagged (gtv_interval t d m) buffer b e c h =
    serialize_with-Tagged buffer 7 (to_bytes 8 t ++ (to_bytes 4 d ++ to_bytes 4 m)) b e h
scalar-Tagged (gtv_inet i) buffer b e c h = serialize_with-Tagged buffer 9 _ b e h
scalar-Tagged (gtv_cidr i) buffer b e c h = serialize_with-Tagged buffer 10 _ b e h
scalar-Tagged (gtv_mac i) buffer b e c h = serialize_with-Tagged buffer 11 _ b e h
scalar-Tagged (gtv_mac8 i) buffer b e c h = serialize_with-Tagged buffer 12 _ b e h

container-Tagged :
    (buffer b' b : Bytes) (e : ℕ)
    → Extends buffer b
    → container_entry (length buffer) b' ≡ ok (b, e)
    → Tagged buffer b e × (length b ≤ length buffer + gtentry_offlenmask)
container-Tagged buffer b' b e extends h =
    let (same, le, entry) = container_entry_lem (length buffer) b' b e h in
    let longer : length buffer ≤ length b = Extends-length buffer b extends in
    let size : length b' ≡ length b = ap length same in ((5, omega arith, omega arith), omega arith)

module _ (check : ℕ → Outcome Unit) where
  pub HasEntry-of :
      (level : ℕ) (v : GtypeValue) (buffer b : Bytes) (e : ℕ)
      → IsCounted v
      → convert_gtype_value check level v buffer ≡ ok (b, e)
      → HasEntry v buffer b e
  unfolding convert_gtype_value
  HasEntry-of level (gtv_scalar v) buffer b e c h =
      let rest = bind_unit (check level) _ (b, e) h in
      entry_of (gtv_scalar v) buffer b e (convert_gtype_scalar-Extends buffer v b e rest)
        (scalar-Tagged v buffer b e c rest) tt
  HasEntry-of level (gtv_array raw vs) buffer b e c h =
      let num = number_of_elems vs in
      let (opened, entry_offset) = open_container buffer (num + array_flags raw) num in
      let (b', filled, rest) =
        bind_ok (convert_elems check (suc level) vs entry_offset 0 0 opened)
          (λ w. container_entry (length buffer) w) (b, e) (bind_unit (check level) _ (b, e) h) in
      let extends = value-Extends check level (gtv_array raw vs) buffer b e h in
      let (tagged, within) = container-Tagged buffer b' b e extends rest in
      entry_of (gtv_array raw vs) buffer b e extends tagged (omega arith)
  HasEntry-of level (gtv_object ps) buffer b e c h =
      let num = number_of_pairs ps in
      let (opened, entry_offset) = open_container buffer (num + 536870912) (num * 2) in
      let ((b1, totallen), keys, values) =
        bind_ok (convert_keys ps entry_offset 0 0 opened)
          (λ (w, t). convert_values check (suc level) ps entry_offset num t w >>= λ w'.
            container_entry (length buffer) w')
          (b, e) (bind_unit (check level) _ (b, e) h) in
      let (b2, filled, rest) =
        bind_ok (convert_values check (suc level) ps entry_offset num totallen b1)
          (λ w. container_entry (length buffer) w) (b, e) values in
      let extends = value-Extends check level (gtv_object ps) buffer b e h in
      let (tagged, within) = container-Tagged buffer b2 b e extends rest in
      entry_of (gtv_object ps) buffer b e extends tagged (omega arith)
