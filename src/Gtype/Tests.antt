-- ===== src/Gtype/Tests.antt =====
-- Runs of the actions, with input functions that take the first byte of a text.
use neo_post_graph.Common.{
  ℕ, ◌≡◌, refl, inl, arith, Bool, true, false, ◌||◌, ◌==◌, none, some, List, [], ◌∷◌, if◌then◌else◌,
}
use mathlib.Core.List.{Memᴰ}
use neo_post_graph.Storage.{Outcome, ok, err, invalid_annotation}
use neo_post_graph.Entity.{Bytes}
use neo_post_graph.GtypeExt.{gtv_null, gtv_integer, gtv_float}
use neo_post_graph.Parser.{
  TokenType, token_invalid, token_string, token_integer, token_object_start, token_object_end,
  token_array_start, token_array_end, token_comma, token_colon, token_annotation, token_identifier,
  token_null, token_end, is_token, is_scalar_token,
}
use neo_post_graph.Parser.Listed.{listed}
use neo_post_graph.Parser.Doc.{
  Doc, scalar, array, object, no_docs, doc, no_fields, field, tokens, turns_of, IsDoc,
}
use neo_post_graph.Gtype.{
  GtypeValue, gtv_scalar, gtv_array, gtv_object, elem, no_elems, pair, no_pairs, GtypePair, Sign,
  less, Qsort, uniqueify_gtype_object, length_compare_gtype_pair,
}
use neo_post_graph.Gtype.In.{
  PgInput, codes, cast_token, scalar_value, check_string_length, gtype_value_from_cstring,
}
use neo_post_graph.Gtype.Build.{value_of, gtype_value_from_cstring-value_of}
use neo_post_graph.Gtype.Entries.{gte_offlenfld, stride_entries, get_gtype_offset, get_gtype_length}
use neo_post_graph.Gtype.Entries.Offset.{get_gtype_length-stride_entries}
use neo_post_graph.Gtype.Unique.{IsSorting, IsUnique, uniqueify_gtype_object-IsUnique}

abbrev same_bytes : Bytes → Bytes → Bool
same_bytes [] [] = true
same_bytes (a ∷ more) (b ∷ bs) = let rest = same_bytes more bs in if a == b then rest else false
same_bytes _ _ = false

abbrev first_byte : Bytes → Outcome ℕ
first_byte [] = err invalid_annotation
first_byte (b ∷ bs) = ok b

abbrev sample_input : PgInput
sample_input = record {
  same_word = same_bytes;
  strtoint64 = first_byte;
  float8in = first_byte;
  numeric_in = ok;
  timestamp_in = first_byte;
  timestamptz_in = first_byte;
  date_in = first_byte;
  time_in = first_byte;
  timetz_in = λ b. ok (0, 0);
  interval_in = λ b. ok (0, 0, 0);
  inet_in = ok;
  cidr_in = ok;
  macaddr_in = ok;
  macaddr8_in = ok;
}

abbrev is_less : Sign → Bool
is_less less = true
is_less _ = false

abbrev insert :
    (GtypePair → GtypePair → Sign × Bool) → GtypePair → List GtypePair → List GtypePair × Bool
insert cmp p [] = (p ∷ [], false)
insert cmp p (q ∷ qs) =
    let (sign, flag) = cmp p q in
    let (rest, more) = insert cmp p qs in
    if is_less sign then (p ∷ q ∷ qs, flag) else (q ∷ rest, flag || more)

abbrev insertion_sort : Qsort
insertion_sort cmp [] = ([], false)
insertion_sort cmp (p ∷ ps) =
    let (sorted, flag) = insertion_sort cmp ps in
    let (r, more) = insert cmp p sorted in (r, flag || more)

-- { "b" : 1, "a" : [ null ], "b" : 2 :: float }
abbrev twice : Doc
twice = object (
    field (98 ∷ []) (scalar token_integer (49 ∷ []) none) (
      field (97 ∷ []) (array (doc (scalar token_null [] none) no_docs))
        (field (98 ∷ []) (scalar token_integer (50 ∷ []) (some (codes "float"))) no_fields)))

abbrev twice_tokens : List (TokenType × Bytes)
twice_tokens =
    (token_object_start, [])
    ∷ (token_string, 98 ∷ [])
    ∷ (token_colon, [])
    ∷ (token_integer, 49 ∷ [])
    ∷ (token_comma, [])
    ∷ (token_string, 97 ∷ [])
    ∷ (token_colon, [])
    ∷ (token_array_start, [])
    ∷ (token_null, [])
    ∷ (token_array_end, [])
    ∷ (token_comma, [])
    ∷ (token_string, 98 ∷ [])
    ∷ (token_colon, [])
    ∷ (token_integer, 50 ∷ [])
    ∷ (token_annotation, [])
    ∷ (token_identifier, codes "float")
    ∷ (token_object_end, [])
    ∷ (token_end, [])
    ∷ []

abbrev twice_value : GtypeValue
twice_value = gtv_object (
    pair (97 ∷ []) (gtv_array false (elem (gtv_scalar gtv_null) no_elems)) 1
      (pair (98 ∷ []) (gtv_scalar (gtv_float 50)) 2 no_pairs))

unknown_annotation :
    value_of sample_input insertion_sort (scalar token_integer (49 ∷ []) (some (codes "decimal")))
    ≡ err invalid_annotation
unfolding value_of cast_token
unknown_annotation = refl

null_annotation :
    value_of sample_input insertion_sort (scalar token_null [] (some (codes "decimal")))
    ≡ ok (gtv_scalar gtv_null)
unfolding value_of cast_token scalar_value
null_annotation = refl

gtype_value_from_cstring-value_of_example :
    gtype_value_from_cstring sample_input insertion_sort listed 20
      ((token_invalid, []) ∷ twice_tokens)
    ≡ ok (some twice_value)
unfolding value_of cast_token scalar_value check_string_length uniqueify_gtype_object
    length_compare_gtype_pair tokens turns_of IsDoc is_scalar_token is_token
gtype_value_from_cstring-value_of_example =
    gtype_value_from_cstring-value_of sample_input insertion_sort listed twice 20
      ((token_invalid, []) ∷ twice_tokens) twice_tokens [] twice_value (omega arith)
      (refl, (refl, ((refl, (refl, tt)), (refl, tt)))) refl
      (
        _,
        refl,
        tt,
        refl,
        (
          _,
          refl,
          refl,
          refl,
          (
            _,
            refl,
            tt,
            refl,
            (
              _,
              refl,
              refl,
              refl,
              (
                _,
                refl,
                tt,
                refl,
                (
                  _,
                  refl,
                  refl,
                  refl,
                  (
                    _,
                    refl,
                    tt,
                    refl,
                    (
                      _,
                      refl,
                      tt,
                      refl,
                      (
                        _,
                        refl,
                        refl,
                        refl,
                        (
                          _,
                          refl,
                          tt,
                          refl,
                          (
                            _,
                            refl,
                            tt,
                            refl,
                            (
                              _,
                              refl,
                              refl,
                              refl,
                              (
                                _,
                                refl,
                                tt,
                                refl,
                                (
                                  _,
                                  refl,
                                  refl,
                                  refl,
                                  (
                                    _,
                                    refl,
                                    tt,
                                    refl,
                                    (
                                      _,
                                      refl,
                                      refl,
                                      refl,
                                      (_, refl, tt, refl, (_, refl, tt, refl, refl)),
                                    ),
                                  ),
                                ),
                              ),
                            ),
                          ),
                        ),
                      ),
                    ),
                  ),
                ),
              ),
            ),
          ),
        ),
      )
      refl

abbrev pushed : List GtypePair
pushed =
    record { key = 98 ∷ []; value = gtv_scalar (gtv_integer 49); order = 0 }
    ∷ record { key = 97 ∷ []; value = gtv_scalar gtv_null; order = 1 }
    ∷ record { key = 98 ∷ []; value = gtv_scalar (gtv_float 50); order = 2 }
    ∷ []

pushed-IsSorting : IsSorting pushed (insertion_sort length_compare_gtype_pair pushed)
unfolding length_compare_gtype_pair
pushed-IsSorting = record {
  all =
      (Memᴰ.tail (Memᴰ.tail (Memᴰ.head refl)), (Memᴰ.head refl, (Memᴰ.tail (Memᴰ.head refl), tt)));
  only =
      (Memᴰ.tail (Memᴰ.head refl), (Memᴰ.tail (Memᴰ.tail (Memᴰ.head refl)), (Memᴰ.head refl, tt)));
  in_order = (refl, (refl, tt));
  flagged = inl refl;
}

uniqueify_gtype_object-IsUnique_example :
    IsUnique pushed (uniqueify_gtype_object insertion_sort pushed)
uniqueify_gtype_object-IsUnique_example =
    uniqueify_gtype_object-IsUnique insertion_sort pushed pushed-IsSorting

-- A string of three bytes, a null and a numeric of twelve.
abbrev three : List ℕ
three = 3 ∷ 1073741824 ∷ 268435468 ∷ []

three_entries : stride_entries 0 0 three ≡ ok (2147483651 ∷ 1073741824 ∷ 268435468 ∷ [])
unfolding stride_entries
three_entries = refl

get_gtype_length-stride_entries_example :
    (es : List ℕ) × (stride_entries 0 0 three ≡ ok es)
    × (get_gtype_offset es 2 ≡ 3)
    × (get_gtype_length es 2 ≡ 12)
unfolding gte_offlenfld
get_gtype_length-stride_entries_example =
    get_gtype_length-stride_entries three 2 (omega arith, (omega arith, (omega arith, tt)))
      (omega arith) (omega arith)
