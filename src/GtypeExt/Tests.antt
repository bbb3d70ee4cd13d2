-- ===== src/GtypeExt/Tests.antt =====
-- Runs of the serializer of the extended types.
use neo_post_graph.Common.{ℕ, ◌+◌, ◌-◌, ◌≡◌, refl, some, [], ◌∷◌, ◌++◌, arith, length, drop}
use neo_post_graph.Entity.{Bytes}
use neo_post_graph.GtypeExt.{
  GtypeScalar, gtv_timestamp, gtv_timetz, serialize_extended_type, deserialize_extended_type,
  is_gtype,
}
use neo_post_graph.GtypeExt.Entry.{IsExtended, written, missing, serialize_extended_type_entry}
use neo_post_graph.GtypeExt.RoundTrip.{deserialize-serialize}

-- A container's header and a string of one byte.
abbrev string_first : Bytes
string_first = 1 ∷ 0 ∷ 0 ∷ 64 ∷ 97 ∷ []

abbrev noon : GtypeScalar
noon = gtv_timetz 43200000000 3600

noon-IsExtended : IsExtended noon
unfolding IsExtended
noon-IsExtended = (omega arith, omega arith)

deserialize-serialize_example :
    (whole : Bytes) × (entry : ℕ) × (serialize_extended_type string_first noon
      ≡ some (whole, entry))
    × (deserialize_extended_type (drop 4 (whole ++ (98 ∷ []))) (length string_first - 4)
        ≡ some noon)
deserialize-serialize_example =
    deserialize-serialize string_first (98 ∷ []) 4 noon refl (omega arith) noon-IsExtended

new_year-IsExtended : IsExtended (gtv_timestamp 725846400000000)
unfolding IsExtended
new_year-IsExtended = omega arith

three_missing : missing string_first (gtv_timestamp 725846400000000) ≡ 3
unfolding missing
three_missing = refl

serialize_extended_type_entry_example :
    (entry : ℕ) × (serialize_extended_type string_first (gtv_timestamp 725846400000000)
      ≡ some (written string_first (gtv_timestamp 725846400000000), entry))
    × (entry + missing string_first (gtv_timestamp 725846400000000)
        ≡ is_gtype
          + (length (written string_first (gtv_timestamp 725846400000000)) - length string_first))
serialize_extended_type_entry_example =
    serialize_extended_type_entry string_first (gtv_timestamp 725846400000000) new_year-IsExtended
