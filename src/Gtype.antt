-- ===== src/Gtype.antt =====
-- Gtype values under construction: `push_gtype_value` of src/backend/utils/adt/gtype_util.c for
-- values in memory, and the removal of duplicate keys.
pub mod In
pub mod Capacity
pub mod Build
pub mod Order
pub mod Unique
pub mod Entries
pub mod Convert
mod Tests
use neo_post_graph.Common.{
  ℕ, zero, suc, ◌+◌, ◌*◌, ◌==◌, leb, ltb, Bool, true, false, not, ◌&&◌, ◌||◌, Option, none, some,
  List, [], ◌∷◌, ◌++◌, if◌then◌else◌, length,
}
use neo_post_graph.Storage.{program_limit_exceeded, wild_write, Outcome, ok, err, ◌>>=◌}
use neo_post_graph.Entity.{Bytes}
use neo_post_graph.AdjList.{alloc}
use neo_post_graph.GtypeExt.{GtypeScalar}

-- gtype_value without its binary form. A list of values cannot stand in the type itself.
mutual
  pub data GtypeValue : Type 0 where
    gtv_scalar : GtypeScalar → GtypeValue
    gtv_array : (raw_scalar : Bool) → GtypeElems → GtypeValue
    gtv_object : GtypePairs → GtypeValue

  pub data GtypeElems : Type 0 where
    no_elems : GtypeElems
    elem : GtypeValue → GtypeElems → GtypeElems

  pub data GtypePairs : Type 0 where
    no_pairs : GtypePairs
    pair : (key : Bytes) (value : GtypeValue) (order : ℕ) → GtypePairs → GtypePairs

-- gtype_pair, whose key is a string.
pub record GtypePair : Type 0 where
  pub key : Bytes
  pub value : GtypeValue
  pub order : ℕ

abbrev pub to_elems : List GtypeValue → GtypeElems
to_elems [] = no_elems
to_elems (v ∷ vs) = elem v (to_elems vs)

abbrev pub to_pairs : List GtypePair → GtypePairs
to_pairs [] = no_pairs
to_pairs (p ∷ ps) = pair p.key p.value p.order (to_pairs ps)

-- The container of a gtype_parse_state, with the number of elements or pairs that its memory holds.
-- `key` is what `append_key` has left behind the last pair.
pub data Container : Type 0 where
  in_array : (raw_scalar : Bool) (size : ℕ) (elems : List GtypeValue) → Container
  in_object : (size : ℕ) (pairs : List GtypePair) (key : Option Bytes) → Container

abbrev pub container_value : Container → GtypeValue
container_value (in_array raw size elems) = gtv_array raw (to_elems elems)
container_value (in_object size pairs key) = gtv_object (to_pairs pairs)

-- Min(MaxAllocSize / sizeof, GT_CMASK), for values of 32 bytes and pairs of 72.
abbrev pub gtype_max_elems : ℕ
gtype_max_elems = 33554431

abbrev pub gtype_max_pairs : ℕ
gtype_max_pairs = 14913080

-- gtype_in_state: the stack of containers and the last result.
pub record InState : Type 0 where
  pub parse_state : List Container
  pub res : Option GtypeValue

-- The sign of a comparison.
pub data Sign : Type 0 where
  less equal greater : Sign

abbrev pub memcmp : Bytes → Bytes → Sign
memcmp [] [] = equal
memcmp [] (b ∷ bs) = less
memcmp (a ∷ more) [] = greater
memcmp (a ∷ more) (b ∷ bs) =
    let rest = memcmp more bs in if ltb a b then less else (if ltb b a then greater else rest)

unfoldable pub length_compare_gtype_string_value : Bytes → Bytes → Sign
length_compare_gtype_string_value a b =
    if length a == length b
    then memcmp a b
    else (if ltb (length b) (length a) then greater else less)

-- With the value that is left in the argument `binequal`, if it is written.
unfoldable pub length_compare_gtype_pair : GtypePair → GtypePair → Sign × Bool
unfolding length_compare_gtype_string_value
length_compare_gtype_pair a b = elim (length_compare_gtype_string_value a.key b.key) [
  | equal ↦ ((if ltb b.order a.order then less else greater), true)
  | less ↦ (less, false)
  | greater ↦ (greater, false)
]

-- qsort_arg of PostgreSQL, on a comparison that may set the flag it is given.
abbrev pub Qsort : Type 0
Qsort = (GtypePair → GtypePair → Sign × Bool) → List GtypePair → List GtypePair × Bool

abbrev pub is_equal : Sign → Bool
is_equal equal = true
is_equal less = false
is_equal greater = false

-- The loop over the sorted pairs, with the last pair kept.
unfoldable pub unique_pairs : GtypePair → List GtypePair → List GtypePair
unfolding length_compare_gtype_string_value
unique_pairs last [] = last ∷ []
unique_pairs last (p ∷ ps) = elim (is_equal (length_compare_gtype_string_value p.key last.key)) [
  | true ↦ unique_pairs last ps
  | false ↦ last ∷ unique_pairs p ps
]

unfoldable pub drop_duplicates : List GtypePair → List GtypePair
unfolding unique_pairs
drop_duplicates [] = []
drop_duplicates (p ∷ ps) = unique_pairs p ps

unfoldable pub uniqueify_gtype_object : Qsort → List GtypePair → List GtypePair
unfolding length_compare_gtype_pair drop_duplicates
uniqueify_gtype_object qsort_arg pairs =
    let (sorted, has_non_uniq) =
      if ltb 1 (length pairs) then qsort_arg length_compare_gtype_pair pairs else (pairs, false) in
    if has_non_uniq then drop_duplicates sorted else sorted

-- Memory for `size` elements of so many bytes that holds `num`; it is doubled when it is full.
unfoldable pub repalloc_full : ℕ → ℕ → ℕ → Outcome ℕ
repalloc_full bytes num size =
    if leb size num then alloc (bytes * (size * 2)) (size * 2) else ok size

unfoldable pub append_key : Bytes → Container → Outcome Container
unfolding repalloc_full
append_key name (in_object size pairs key) =
    if leb gtype_max_pairs (length pairs)
    then err program_limit_exceeded
    else repalloc_full 72 (length pairs) size >>= λ size'. ok (in_object size' pairs (some name))
append_key name (in_array raw size elems) = err wild_write

-- A pair behind the last one, where `append_key` has left a key.
unfoldable pub append_value : GtypeValue → Container → Outcome Container
append_value v (in_object size pairs (some name)) =
    ok
      (in_object size (pairs ++ (record { key = name; value = v; order = length pairs } ∷ [])) none)
append_value v (in_object size pairs none) = err wild_write
append_value v (in_array raw size elems) = err wild_write

unfoldable pub append_element : GtypeValue → Container → Outcome Container
unfolding repalloc_full
append_element v (in_array raw size elems) =
    if leb gtype_max_elems (length elems)
    then err program_limit_exceeded
    else repalloc_full 32 (length elems) size >>= λ size'.
        ok (in_array raw size' (elems ++ (v ∷ [])))
append_element v (in_object size pairs key) = err wild_write

-- The value of a container is appended to its parent by the parent's type.
unfoldable pub append_to : GtypeValue → Container → Outcome Container
unfolding append_element append_value
append_to v (in_array raw size elems) = append_element v (in_array raw size elems)
append_to v (in_object size pairs key) = append_value v (in_object size pairs key)

-- WGT_BEGIN_ARRAY and WGT_BEGIN_OBJECT.
unfoldable pub push_begin : Container → InState → Outcome InState
push_begin c s = ok (record { parse_state = c ∷ s.parse_state; res = some (container_value c) })

-- WGT_KEY, WGT_VALUE and WGT_ELEM, which give no result.
unfoldable pub push_on_top : (Container → Outcome Container) → InState → Outcome InState
push_on_top f s = elim s.parse_state [
  | [] ↦ err wild_write
  | c ∷ cs ↦ f c >>= λ c'. ok (record { parse_state = c' ∷ cs; res = none })
]

unfoldable pub end_container : Qsort → Container → Container
unfolding uniqueify_gtype_object
end_container qsort_arg (in_array raw size elems) = in_array raw size elems
end_container qsort_arg (in_object size pairs key) =
    in_object size (uniqueify_gtype_object qsort_arg pairs) key

-- WGT_END_ARRAY and WGT_END_OBJECT.
unfoldable pub push_end : Qsort → InState → Outcome InState
unfolding append_to end_container
push_end qsort_arg s = elim s.parse_state [
  | [] ↦ err wild_write
  | c ∷ [] ↦
      ok (record { parse_state = []; res = some (container_value (end_container qsort_arg c)) })
  | c ∷ parent ∷ rest ↦
      let v = container_value (end_container qsort_arg c) in
      append_to v parent >>= λ p. ok (record { parse_state = p ∷ rest; res = some v })
]
