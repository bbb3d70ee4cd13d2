-- ===== src/Parser/Steps.antt =====
-- The steps of the parser at the tokens of a document.
use neo_post_graph.Common.{
  ℕ, suc, ◌≡◌, refl, Bool, true, false, Option, none, some, List, [], ◌∷◌, ◌++◌, arith,
}
use neo_post_graph.Storage.{ok}
use neo_post_graph.Entity.{Bytes}
use neo_post_graph.Parser.{
  TokenType, token_string, token_object_start, token_object_end, token_array_start, token_array_end,
  token_comma, token_colon, token_annotation, token_true, token_null, is_token, is_scalar_token,
  Lexer, SemAction, lex_expect, parse_scalar, parse_value, parse_object_field, object_fields,
  array_elements,
}
use neo_post_graph.Parser.Doc.{
  Doc, scalar, array, object, Docs, no_docs, doc, Fields, no_fields, field, Token, tokens,
  more_tokens, more_field_tokens, is_null, IsDoc, Yields,
}

pub Yields-append :
    (x : Lexer) (l l' : x.Lex) (ts us : List Token)
    → Yields x l (ts ++ us) l'
    → (m : x.Lex) × Yields x l ts m × Yields x m us l'
Yields-append x l l' [] us y = (l, refl, y)
Yields-append x l l' (t ∷ ts) us (next, type, text, e, y) =
    let (m, first, second) = Yields-append x next l' ts us y in
    (m, (next, type, text, e, first), second)

module _ (x : Lexer) {S : Type 0} (sem : SemAction S) where
  open x use {Lex, token_type, lexeme, lex}

  -- A look-ahead token that ends a scalar.
  abbrev pub Ends : Lex → Type 0
  Ends l = is_token (token_type l) token_annotation ≡ false

  pub value_scalar :
      (t : TokenType) (depth turns : ℕ) (l : Lex) (s : S)
      → token_type l ≡ t
      → is_scalar_token t ≡ true
      → parse_value x sem depth (suc turns) l s ≡ parse_scalar x sem l s
  unfolding parse_value is_scalar_token
  value_scalar token_true depth turns l s e h = ground arith
  value_scalar _ depth turns l s e h = ground arith

  pub scalar_lem :
      (type : TokenType) (text : Bytes) (a : Option Bytes) (l l' : Lex) (s s' : S)
      → is_scalar_token type ≡ true
      → Yields x l (tokens (scalar type text a)) l'
      → Ends l'
      → sem.scalar text type a s ≡ ok s'
      → parse_scalar x sem l s ≡ ok (l', s')
  unfolding parse_scalar tokens is_token
  scalar_lem type text none l l' s s' h (next, e, f, g, same) ends done =
      rw (e, h, g, same, ends, f, done) refl
  scalar_lem type text (some a) l l' s s' h (l1, e, f, g, (l2, e1, _, g1, (l3, e2, f2, g2, same)))
        ends done =
      rw (e, h, g, e1, g1, e2, f2, g2, same, f, done) refl

  pub scalar_not_end :
      (t : TokenType) → is_scalar_token t ≡ true → is_token t token_array_end ≡ false
  unfolding is_scalar_token is_token
  scalar_not_end token_true h = refl
  scalar_not_end _ h = ground arith

  pub first_not_end :
      (d : Doc) (depth : ℕ) (l l' : Lex)
      → IsDoc x depth d
      → Yields x l (tokens d) l'
      → is_token (token_type l) token_array_end ≡ false
  unfolding tokens IsDoc is_token
  first_not_end (scalar type text a) depth l l' h (next, e, _, _, _) = rw e (scalar_not_end type h)
  first_not_end (array no_docs) depth l l' h (next, e, _, _, _) = rw e refl
  first_not_end (array (doc d ds)) depth l l' h (next, e, _, _, _) = rw e refl
  first_not_end (object no_fields) depth l l' h (next, e, _, _, _) = rw e refl
  first_not_end (object (field name d fs)) depth l l' h (next, e, _, _, _) = rw e refl

  pub first_null :
      (d : Doc) (l l' : Lex)
      → Yields x l (tokens d) l'
      → is_token (token_type l) token_null ≡ is_null d
  unfolding tokens is_null is_token
  first_null (scalar type text a) l l' (next, e, _, _, _) = rw e refl
  first_null (array no_docs) l l' (next, e, _, _, _) = rw e refl
  first_null (array (doc d ds)) l l' (next, e, _, _, _) = rw e refl
  first_null (object no_fields) l l' (next, e, _, _, _) = rw e refl
  first_null (object (field name d fs)) l l' (next, e, _, _, _) = rw e refl

  pub Ends-docs : (ds : Docs) (l l' : Lex) → Yields x l (more_tokens ds) l' → Ends l' → Ends l
  unfolding more_tokens is_token
  Ends-docs no_docs l l' same ends = rw same ends
  Ends-docs (doc d ds) l l' (next, e, _, _, _) ends = rw e refl

  pub Ends-fields :
      (fs : Fields) (l l' : Lex) → Yields x l (more_field_tokens fs) l' → Ends l' → Ends l
  unfolding more_field_tokens is_token
  Ends-fields no_fields l l' same ends = rw same ends
  Ends-fields (field name d fs) l l' (next, e, _, _, _) ends = rw e refl

  pub expect_string :
      (l l1 : Lex)
      → token_type l ≡ token_string
      → lex l ≡ ok l1
      → lex_expect x sem token_string l ≡ ok l1
  unfolding lex_expect is_token
  expect_string l l1 a b = rw a b

  pub expect_colon :
      (l l1 : Lex)
      → token_type l ≡ token_colon
      → lex l ≡ ok l1
      → lex_expect x sem token_colon l ≡ ok l1
  unfolding lex_expect is_token
  expect_colon l l1 a b = rw a b

  module _ (l l1 l2 l3 l4 : Lex) (s s1 s2 s3 s4 : S) (depth turns : ℕ) where
    pub array_empty :
        x.check_stack_depth depth ≡ ok tt
        → token_type l ≡ token_array_start
        → lex l ≡ ok l1
        → token_type l1 ≡ token_array_end
        → lex l1 ≡ ok l2
        → sem.array_start s ≡ ok s1
        → sem.array_end s1 ≡ ok s2
        → parse_value x sem depth (suc (suc turns)) l s ≡ ok (l2, s2)
    unfolding parse_value lex_expect is_token
    array_empty z a b c d e f = ground arith

    pub array_some :
        x.check_stack_depth depth ≡ ok tt
        → token_type l ≡ token_array_start
        → lex l ≡ ok l1
        → is_token (token_type l1) token_array_end ≡ false
        → parse_value x sem (suc depth) turns l1 s1 ≡ ok (l2, s2)
        → array_elements x sem (suc depth) turns l2 s2 ≡ ok (l3, s3)
        → token_type l3 ≡ token_array_end
        → lex l3 ≡ ok l4
        → sem.array_start s ≡ ok s1
        → sem.array_end s3 ≡ ok s4
        → parse_value x sem depth (suc (suc turns)) l s ≡ ok (l4, s4)
    unfolding parse_value lex_expect is_token
    array_some z a b c d e f g h i = ground arith

    pub object_empty :
        x.check_stack_depth depth ≡ ok tt
        → token_type l ≡ token_object_start
        → lex l ≡ ok l1
        → token_type l1 ≡ token_object_end
        → lex l1 ≡ ok l2
        → sem.object_start s ≡ ok s1
        → sem.object_end s1 ≡ ok s2
        → parse_value x sem depth (suc (suc turns)) l s ≡ ok (l2, s2)
    unfolding parse_value lex_expect is_token
    object_empty z a b c d e f = ground arith

    pub object_some :
        x.check_stack_depth depth ≡ ok tt
        → token_type l ≡ token_object_start
        → lex l ≡ ok l1
        → token_type l1 ≡ token_string
        → parse_object_field x sem (suc depth) turns l1 s1 ≡ ok (l2, s2)
        → object_fields x sem (suc depth) turns l2 s2 ≡ ok (l3, s3)
        → token_type l3 ≡ token_object_end
        → lex l3 ≡ ok l4
        → sem.object_start s ≡ ok s1
        → sem.object_end s3 ≡ ok s4
        → parse_value x sem depth (suc (suc turns)) l s ≡ ok (l4, s4)
    unfolding parse_value lex_expect is_token
    object_some z a b c d e f g h i = ground arith

    pub field_lem :
        (name : Bytes) (null : Bool)
        → token_type l ≡ token_string
        → lexeme l ≡ name
        → lex l ≡ ok l1
        → token_type l1 ≡ token_colon
        → lex l1 ≡ ok l2
        → is_token (token_type l2) token_null ≡ null
        → sem.object_field_start name null s ≡ ok s1
        → parse_value x sem depth turns l2 s1 ≡ ok (l3, s3)
        → parse_object_field x sem depth (suc turns) l s ≡ ok (l3, s3)
    unfolding parse_object_field
    field_lem name null a b c d e f g h =
        rw (expect_string l l1 a c, expect_colon l1 l2 d e, b, f, g) h

    pub more_element :
        token_type l ≡ token_comma
        → lex l ≡ ok l1
        → parse_value x sem depth turns l1 s ≡ ok (l2, s2)
        → array_elements x sem depth turns l2 s2 ≡ ok (l3, s3)
        → array_elements x sem depth (suc turns) l s ≡ ok (l3, s3)
    unfolding array_elements is_token
    more_element a b c d = ground arith

    pub more_field :
        token_type l ≡ token_comma
        → lex l ≡ ok l1
        → parse_object_field x sem depth turns l1 s ≡ ok (l2, s2)
        → object_fields x sem depth turns l2 s2 ≡ ok (l3, s3)
        → object_fields x sem depth (suc turns) l s ≡ ok (l3, s3)
    unfolding object_fields is_token
    more_field a b c d = ground arith

  pub elements_end :
      (depth turns : ℕ) (l : Lex) (s : S)
      → token_type l ≡ token_array_end
      → array_elements x sem depth (suc turns) l s ≡ ok (l, s)
  unfolding array_elements is_token
  elements_end depth turns l s e = ground arith

  pub fields_end :
      (depth turns : ℕ) (l : Lex) (s : S)
      → token_type l ≡ token_object_end
      → object_fields x sem depth (suc turns) l s ≡ ok (l, s)
  unfolding object_fields is_token
  fields_end depth turns l s e = ground arith

  pub Ends-array : (l : Lex) → token_type l ≡ token_array_end → Ends l
  unfolding is_token
  Ends-array l e = rw e refl

  pub Ends-object : (l : Lex) → token_type l ≡ token_object_end → Ends l
  unfolding is_token
  Ends-object l e = rw e refl
