-- ===== src/Parser.antt =====
-- The recursive descent parser of src/backend/utils/adt/gtype_parser.c, over any lexer.
pub mod Doc
pub mod Steps
pub mod Accept
pub mod Listed
mod Tests
use neo_post_graph.Common.{
  ℕ, zero, suc, ◌==◌, ltb, Bool, true, false, not, ◌&&◌, ◌||◌, Option, none, some, if◌then◌else◌,
}
use neo_post_graph.Storage.{parse_error, invalid_annotation, Outcome, ok, err, hang, ◌>>=◌}
use neo_post_graph.Entity.{Bytes}

-- gtype_token_type of include/utils/gtype_parser.h.
pub data TokenType : Type 0 where
  token_invalid token_string token_integer token_float token_numeric : TokenType
  token_timestamp token_timestamptz token_date token_time token_timetz : TokenType
  token_interval token_inet token_cidr token_macaddr token_macaddr8 : TokenType
  token_object_start token_object_end token_array_start token_array_end : TokenType
  token_comma token_colon token_annotation token_identifier : TokenType
  token_true token_false token_null token_end : TokenType

-- The values of the enumeration.
unfoldable pub token_number : TokenType → ℕ
token_number token_invalid = 0
token_number token_string = 1
token_number token_integer = 2
token_number token_float = 3
token_number token_numeric = 4
token_number token_timestamp = 5
token_number token_timestamptz = 6
token_number token_date = 7
token_number token_time = 8
token_number token_timetz = 9
token_number token_interval = 10
token_number token_inet = 11
token_number token_cidr = 12
token_number token_macaddr = 13
token_number token_macaddr8 = 14
token_number token_object_start = 15
token_number token_object_end = 16
token_number token_array_start = 17
token_number token_array_end = 18
token_number token_comma = 19
token_number token_colon = 20
token_number token_annotation = 21
token_number token_identifier = 22
token_number token_true = 23
token_number token_false = 24
token_number token_null = 25
token_number token_end = 26

unfoldable pub is_token : TokenType → TokenType → Bool
unfolding token_number
is_token a b = token_number a == token_number b

-- The tokens that `parse_scalar` accepts.
unfoldable pub is_scalar_token : TokenType → Bool
is_scalar_token token_true = true
is_scalar_token token_false = true
is_scalar_token token_null = true
is_scalar_token token_integer = true
is_scalar_token token_float = true
is_scalar_token token_string = true
is_scalar_token token_inet = true
is_scalar_token _ = false

-- A lexing context: its look-ahead token, the text that `lex_accept` hands back for it, and
-- `gtype_lex`. `check_stack_depth` is PostgreSQL's, which raises an error if the stack is too deep
-- with so many objects and arrays open.
pub record Lexer : Type 1 where
  pub Lex : Type 0
  pub token_type : Lex → TokenType
  pub lexeme : Lex → Bytes
  pub lex : Lex → Outcome Lex
  pub check_stack_depth : ℕ → Outcome Unit

-- The semantic actions that the callers set; those for the ends of fields and for array elements are
-- null with all of them.
pub record SemAction (S : Type 0) : Type 0 where
  pub object_start : S → Outcome S
  pub object_end : S → Outcome S
  pub array_start : S → Outcome S
  pub array_end : S → Outcome S
  pub object_field_start : Bytes → Bool → S → Outcome S
  pub scalar : Bytes → TokenType → Option Bytes → S → Outcome S

module _ (x : Lexer) {S : Type 0} (sem : SemAction S) where
  open x use {Lex, token_type, lexeme, lex, check_stack_depth}

  unfoldable pub lex_expect : TokenType → Lex → Outcome Lex
  lex_expect token l = if is_token (token_type l) token then lex l else err parse_error

  unfoldable pub parse_scalar_annotation : Lex → Outcome (Option Bytes × Lex)
  parse_scalar_annotation l =
      if not (is_token (token_type l) token_annotation)
      then ok (none, l)
      else (lex l >>= λ l'.
          if is_token (token_type l') token_identifier
          then (lex l' >>= λ l''. ok (some (lexeme l'), l''))
          else err invalid_annotation)

  unfoldable pub parse_scalar : Lex → S → Outcome (Lex × S)
  unfolding parse_scalar_annotation
  parse_scalar l s =
      if is_scalar_token (token_type l)
      then (lex l >>= λ l'. parse_scalar_annotation l' >>= λ (annotation, l'').
          sem.scalar (lexeme l) (token_type l) annotation s >>= λ s'. ok (l'', s'))
      else err parse_error

  -- Calls and turns of loops are counted; with none left the parser does not return.
  -- `depth` objects and arrays are open, as lex_level counts them.
  unfoldable mutual
    -- The switch that an element, the value of a field and the document share.
    pub parse_value : ℕ → ℕ → Lex → S → Outcome (Lex × S)
    parse_value depth zero l s = hang
    parse_value depth (suc turns) l s = elim (token_type l) [
      | token_object_start ↦ parse_object depth turns l s
      | token_array_start ↦ parse_array depth turns l s
      | _ ↦ parse_scalar l s
    ]

    pub parse_object : ℕ → ℕ → Lex → S → Outcome (Lex × S)
    parse_object depth zero l s = hang
    parse_object depth (suc turns) l s = check_stack_depth depth >>= λ _.
        sem.object_start s >>= λ s1. lex_expect token_object_start l >>= λ l1.
        elim (token_type l1) [
          | token_string ↦ parse_object_field (suc depth) turns l1 s1 >>= λ (l2, s2).
              object_fields (suc depth) turns l2 s2
          | token_object_end ↦ ok (l1, s1)
          | _ ↦ err parse_error
        ]
        >>= λ (l3, s3).
            lex_expect token_object_end l3 >>= λ l4. sem.object_end s3 >>= λ s4. ok (l4, s4)

    pub parse_object_field : ℕ → ℕ → Lex → S → Outcome (Lex × S)
    parse_object_field depth zero l s = hang
    parse_object_field depth (suc turns) l s = lex_expect token_string l >>= λ l1.
        lex_expect token_colon l1 >>= λ l2.
        sem.object_field_start (lexeme l) (is_token (token_type l2) token_null) s >>= λ s1.
        parse_value depth turns l2 s1

    -- The loop over the further fields.
    pub object_fields : ℕ → ℕ → Lex → S → Outcome (Lex × S)
    object_fields depth zero l s = hang
    object_fields depth (suc turns) l s = elim (is_token (token_type l) token_comma) [
      | false ↦ ok (l, s)
      | true ↦ lex l >>= λ l1.
          parse_object_field depth turns l1 s >>= λ (l2, s2). object_fields depth turns l2 s2
    ]

    pub parse_array : ℕ → ℕ → Lex → S → Outcome (Lex × S)
    parse_array depth zero l s = hang
    parse_array depth (suc turns) l s = check_stack_depth depth >>= λ _. sem.array_start s >>= λ s1.
        lex_expect token_array_start l >>= λ l1.
        elim (is_token (token_type l1) token_array_end) [
          | true ↦ ok (l1, s1)
          | false ↦ parse_value (suc depth) turns l1 s1 >>= λ (l2, s2).
              array_elements (suc depth) turns l2 s2
        ]
        >>= λ (l3, s3).
            lex_expect token_array_end l3 >>= λ l4. sem.array_end s3 >>= λ s4. ok (l4, s4)

    -- The loop over the further elements.
    pub array_elements : ℕ → ℕ → Lex → S → Outcome (Lex × S)
    array_elements depth zero l s = hang
    array_elements depth (suc turns) l s = elim (is_token (token_type l) token_comma) [
      | false ↦ ok (l, s)
      | true ↦ lex l >>= λ l1.
          parse_value depth turns l1 s >>= λ (l2, s2). array_elements depth turns l2 s2
    ]

  -- `parse_gtype`, on a context before its first token.
  unfoldable pub parse_gtype : ℕ → Lex → S → Outcome S
  parse_gtype turns l s = lex l >>= λ l1.
      parse_value 0 turns l1 s >>= λ (l2, s2). lex_expect token_end l2 >>= λ l3. ok s2
