-- ===== src/Gtype/Convert/Tests.antt =====
-- Runs of the conversion to bytes.
use neo_post_graph.Common.{ℕ, ◌≡◌, refl, arith, ltb, if◌then◌else◌, false, true, [], ◌∷◌}
use neo_post_graph.Storage.{Outcome, ok, err, statement_too_complex}
use neo_post_graph.Entity.{Bytes}
use neo_post_graph.GtypeExt.{gtv_null, gtv_string, gtv_bool}
use neo_post_graph.Gtype.{
  GtypeValue, gtv_scalar, gtv_array, gtv_object, elem, no_elems, pair, no_pairs,
}
use neo_post_graph.Gtype.Convert.{
  convert_gtype_value, convert_to_gtype, convert_gtype_scalar, put_entry, container_entry,
  open_container,
}
use neo_post_graph.Gtype.Convert.Entry.{HasEntry}
use neo_post_graph.Gtype.Convert.Bound.{bound, IsShallow}
use neo_post_graph.Gtype.Convert.Returns.{convert_gtype_value-HasEntry}

-- A stack for a container and what is in it.
abbrev for_two : ℕ → Outcome Unit
for_two level = if ltb level 2 then ok tt else err statement_too_complex

-- [ "abc", null ]
abbrev two : GtypeValue
two =
    gtv_array false
      (elem (gtv_scalar (gtv_string (97 ∷ 98 ∷ 99 ∷ []))) (elem (gtv_scalar gtv_null) no_elems))

abbrev two_bytes : Bytes
two_bytes = 2 ∷ 0 ∷ 0 ∷ 64 ∷ 3 ∷ 0 ∷ 0 ∷ 128 ∷ 0 ∷ 0 ∷ 0 ∷ 64 ∷ 97 ∷ 98 ∷ 99 ∷ []

-- Behind one byte, with three of padding.
two_run : convert_gtype_value for_two 0 two (7 ∷ []) ≡ ok (7 ∷ 0 ∷ 0 ∷ 0 ∷ two_bytes, 1342177298)
unfolding convert_gtype_value convert_gtype_scalar put_entry container_entry open_container
two_run = refl

-- { "k" : true }
object_run :
    convert_to_gtype for_two (gtv_object (pair (107 ∷ []) (gtv_scalar (gtv_bool true)) 0 no_pairs))
    ≡ ok (68 ∷ 0 ∷ 0 ∷ 0 ∷ 1 ∷ 0 ∷ 0 ∷ 32 ∷ 1 ∷ 0 ∷ 0 ∷ 128 ∷ 0 ∷ 0 ∷ 0 ∷ 48 ∷ 107 ∷ [])
unfolding convert_to_gtype convert_gtype_value convert_gtype_scalar put_entry container_entry
    open_container
object_run = refl

-- [ [ null ] ]
too_deep :
    convert_to_gtype for_two
      (gtv_array false (elem (gtv_array false (elem (gtv_scalar gtv_null) no_elems)) no_elems))
    ≡ err statement_too_complex
unfolding convert_to_gtype convert_gtype_value convert_gtype_scalar put_entry container_entry
    open_container
too_deep = refl

convert_gtype_value-HasEntry_example :
    (b : Bytes) × (e : ℕ) × (convert_gtype_value for_two 0 two (7 ∷ []) ≡ ok (b, e))
    × HasEntry two (7 ∷ []) b e
unfolding bound IsShallow
convert_gtype_value-HasEntry_example =
    convert_gtype_value-HasEntry for_two two (7 ∷ []) tt (refl, (refl, (refl, tt))) (omega arith)
