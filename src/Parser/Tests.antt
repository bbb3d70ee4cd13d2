-- ===== src/Parser/Tests.antt =====
-- Runs of the parser on lists of tokens, with actions that note what they are given.
use neo_post_graph.Common.{◌≡◌, refl, arith, none, some, List, [], ◌∷◌, ◌++◌}
use neo_post_graph.Storage.{ok, err, parse_error, invalid_annotation, statement_too_complex}
use neo_post_graph.Entity.{Bytes}
use neo_post_graph.Parser.{
  TokenType, token_invalid, token_string, token_integer, token_object_start, token_object_end,
  token_array_start, token_array_end, token_comma, token_colon, token_annotation, token_identifier,
  token_null, token_end, is_token, is_scalar_token, SemAction, lex_expect, parse_scalar,
  parse_value, parse_gtype,
}
use neo_post_graph.Parser.Doc.{
  Doc, scalar, array, object, no_docs, doc, no_fields, field, tokens, turns_of, is_null, IsDoc, act,
}
use neo_post_graph.Parser.Listed.{listed}
use neo_post_graph.Parser.Accept.{parse_gtype-act}

abbrev noted : SemAction (List Bytes)
noted = record {
  object_start = λ s. ok (s ++ ((123 ∷ []) ∷ []));
  object_end = λ s. ok (s ++ ((125 ∷ []) ∷ []));
  array_start = λ s. ok (s ++ ((91 ∷ []) ∷ []));
  array_end = λ s. ok (s ++ ((93 ∷ []) ∷ []));
  object_field_start = λ name null s. ok (s ++ (name ∷ []));
  scalar = λ text type annotation s. ok (s ++ (text ∷ []));
}

-- [ { "a" : 1 :: i }, null ]
abbrev nested : Doc
nested = array (
    doc (object (field (97 ∷ []) (scalar token_integer (49 ∷ []) (some (105 ∷ []))) no_fields))
      (doc (scalar token_null [] none) no_docs))

abbrev nested_tokens : List (TokenType × Bytes)
nested_tokens =
    (token_array_start, [])
    ∷ (token_object_start, [])
    ∷ (token_string, 97 ∷ [])
    ∷ (token_colon, [])
    ∷ (token_integer, 49 ∷ [])
    ∷ (token_annotation, [])
    ∷ (token_identifier, 105 ∷ [])
    ∷ (token_object_end, [])
    ∷ (token_comma, [])
    ∷ (token_null, [])
    ∷ (token_array_end, [])
    ∷ (token_end, [])
    ∷ []

nested_run :
    parse_gtype listed noted 20 ((token_invalid, []) ∷ nested_tokens) []
    ≡ ok ((91 ∷ []) ∷ (123 ∷ []) ∷ (97 ∷ []) ∷ (49 ∷ []) ∷ (125 ∷ []) ∷ [] ∷ (93 ∷ []) ∷ [])
unfolding parse_gtype parse_value lex_expect is_token parse_scalar is_scalar_token
nested_run = refl

-- [ null ,
comma_at_end :
    parse_gtype listed noted 20
      ((token_invalid, [])
        ∷ (token_array_start, [])
        ∷ (token_null, [])
        ∷ (token_comma, [])
        ∷ (token_array_end, [])
        ∷ [])
      []
    ≡ err parse_error
unfolding parse_gtype parse_value lex_expect is_token parse_scalar is_scalar_token
comma_at_end = refl

-- [ [ [ [ null, with a stack for three arrays
too_deep :
    parse_gtype listed noted 20
      ((token_invalid, [])
        ∷ (token_array_start, [])
        ∷ (token_array_start, [])
        ∷ (token_array_start, [])
        ∷ (token_array_start, [])
        ∷ (token_null, [])
        ∷ [])
      []
    ≡ err statement_too_complex
unfolding parse_gtype parse_value lex_expect is_token parse_scalar is_scalar_token
too_deep = refl

annotation_unnamed :
    parse_gtype listed noted 20
      ((token_invalid, []) ∷ (token_null, []) ∷ (token_annotation, []) ∷ (token_integer, []) ∷ [])
      []
    ≡ err invalid_annotation
unfolding parse_gtype parse_value lex_expect is_token parse_scalar is_scalar_token
annotation_unnamed = refl

parse_gtype-act_example :
    parse_gtype listed noted 13 ((token_invalid, []) ∷ nested_tokens) []
    ≡ ok ((91 ∷ []) ∷ (123 ∷ []) ∷ (97 ∷ []) ∷ (49 ∷ []) ∷ (125 ∷ []) ∷ [] ∷ (93 ∷ []) ∷ [])
unfolding act is_null tokens turns_of IsDoc is_scalar_token is_token
parse_gtype-act_example =
    parse_gtype-act listed noted nested 13 ((token_invalid, []) ∷ nested_tokens) nested_tokens [] []
      ((91 ∷ []) ∷ (123 ∷ []) ∷ (97 ∷ []) ∷ (49 ∷ []) ∷ (125 ∷ []) ∷ [] ∷ (93 ∷ []) ∷ [])
      (omega arith) (refl, ((refl, (refl, tt)), (refl, tt))) refl
      (
        _,
        refl,
        tt,
        refl,
        (
          _,
          refl,
          tt,
          refl,
          (
            _,
            refl,
            refl,
            refl,
            (
              _,
              refl,
              tt,
              refl,
              (
                _,
                refl,
                refl,
                refl,
                (
                  _,
                  refl,
                  tt,
                  refl,
                  (
                    _,
                    refl,
                    refl,
                    refl,
                    (
                      _,
                      refl,
                      tt,
                      refl,
                      (
                        _,
                        refl,
                        tt,
                        refl,
                        (_, refl, refl, refl, (_, refl, tt, refl, (_, refl, tt, refl, refl))),
                      ),
                    ),
                  ),
                ),
              ),
            ),
          ),
        ),
      )
      refl
