-- ===== src/Gtype/Entries.antt =====
-- The entries at the start of a container (src/backend/utils/adt/gtype_util.c): each has the length
-- of its value or, every 32nd, the offset at which it ends.
pub mod Offset
use neo_post_graph.Common.{
  ℕ, zero, suc, ◌+◌, ◌-◌, ◌*◌, ◌/◌, ◌%◌, ◌==◌, ltb, Bool, List, [], ◌∷◌, if◌then◌else◌,
}
use neo_post_graph.Storage.{program_limit_exceeded, Outcome, ok, err, ◌>>=◌}

-- GTENTRY_OFFLENMASK.
abbrev pub gtentry_offlenmask : ℕ
gtentry_offlenmask = 268435455

unfoldable pub gte_offlenfld : ℕ → ℕ
gte_offlenfld e = e % 268435456

unfoldable pub gte_has_off : ℕ → Bool
gte_has_off e = e / 2147483648 % 2 == 1

-- `e & GTENTRY_TYPEMASK`.
unfoldable pub gte_type : ℕ → ℕ
gte_type e = e / 268435456 % 8 * 268435456

-- The parts that `|` joins have no bit in common while `totallen` is within the mask.
unfoldable pub stride_entry : ℕ → ℕ → ℕ → ℕ
unfolding gte_type
stride_entry i totallen meta = if i % 32 == 0 then gte_type meta + totallen + 2147483648 else meta

-- The entries of the loops of convert_gtype_array and convert_gtype_object, from those that the
-- values were given when they were converted, from the `i`th on.
unfoldable pub stride_entries : ℕ → ℕ → List ℕ → Outcome (List ℕ)
unfolding gte_offlenfld stride_entry
stride_entries i total [] = ok []
stride_entries i total (meta ∷ metas) =
    let totallen = total + gte_offlenfld meta in
    let rest = stride_entries (suc i) totallen metas in
    if ltb gtentry_offlenmask totallen
    then err program_limit_exceeded
    else (rest >>= λ es. ok (stride_entry i totallen meta ∷ es))

-- `children[i]`; behind the entries lies other memory, which is not read.
abbrev pub children : List ℕ → ℕ → ℕ
children [] i = 0
children (e ∷ es) zero = e
children (e ∷ es) (suc i) = children es i

-- The loop that walks back from the entry before `i`.
unfoldable pub offset_back : List ℕ → ℕ → ℕ → ℕ
unfolding gte_offlenfld gte_has_off
offset_back es zero offset = offset
offset_back es (suc i) offset =
    let more = (offset + gte_offlenfld (children es i)) % 4294967296 in
    let rest = offset_back es i more in if gte_has_off (children es i) then more else rest

unfoldable pub get_gtype_offset : List ℕ → ℕ → ℕ
unfolding offset_back
get_gtype_offset es index = offset_back es index 0

unfoldable pub get_gtype_length : List ℕ → ℕ → ℕ
unfolding get_gtype_offset gte_offlenfld gte_has_off
get_gtype_length es index =
    if gte_has_off (children es index)
    then (gte_offlenfld (children es index) + 4294967296 - get_gtype_offset es index) % 4294967296
    else gte_offlenfld (children es index)
