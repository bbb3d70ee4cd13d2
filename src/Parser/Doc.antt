-- ===== src/Parser/Doc.antt =====
-- Documents, their tokens, and what the semantic actions make of one: a description of the parser by
-- recursion over documents.
use neo_post_graph.Common.{
  ℕ, suc, ◌+◌, ◌≡◌, Bool, true, false, Option, none, some, List, [], ◌∷◌, ◌++◌,
}
use neo_post_graph.Storage.{Outcome, ok, ◌>>=◌}
use neo_post_graph.Entity.{Bytes}
use neo_post_graph.Parser.{
  TokenType, token_string, token_object_start, token_object_end, token_array_start, token_array_end,
  token_comma, token_colon, token_annotation, token_identifier, token_null, is_token,
  is_scalar_token, Lexer, SemAction,
}

mutual
  pub data Doc : Type 0 where
    scalar : (type : TokenType) (text : Bytes) (annotation : Option Bytes) → Doc
    array : Docs → Doc
    object : Fields → Doc

  pub data Docs : Type 0 where
    no_docs : Docs
    doc : Doc → Docs → Docs

  pub data Fields : Type 0 where
    no_fields : Fields
    field : (name : Bytes) → Doc → Fields → Fields

pub record Token : Type 0 where
  pub type : TokenType
  pub text : Option Bytes

-- A token whose text is not asked for.
abbrev pub mark : TokenType → Token
mark t = record { type = t; text = none }

abbrev pub annotation_tokens : Option Bytes → List Token
annotation_tokens none = []
annotation_tokens (some a) =
    mark token_annotation ∷ record { type = token_identifier; text = some a } ∷ []

unfoldable mutual
  pub tokens : Doc → List Token
  tokens (scalar type text a) = record { type = type; text = some text } ∷ annotation_tokens a
  tokens (array no_docs) = mark token_array_start ∷ mark token_array_end ∷ []
  tokens (array (doc d ds)) =
      mark token_array_start ∷ (tokens d ++ (more_tokens ds ++ (mark token_array_end ∷ [])))
  tokens (object no_fields) = mark token_object_start ∷ mark token_object_end ∷ []
  tokens (object (field name d fs)) =
      mark token_object_start
      ∷ (record { type = token_string; text = some name }
          ∷ (mark token_colon
              ∷ (tokens d ++ (more_field_tokens fs ++ (mark token_object_end ∷ [])))))

  pub more_tokens : Docs → List Token
  more_tokens no_docs = []
  more_tokens (doc d ds) = mark token_comma ∷ (tokens d ++ more_tokens ds)

  pub more_field_tokens : Fields → List Token
  more_field_tokens no_fields = []
  more_field_tokens (field name d fs) =
      mark token_comma
      ∷ (record { type = token_string; text = some name }
          ∷ (mark token_colon ∷ (tokens d ++ more_field_tokens fs)))

-- Turns that are enough for a document.
unfoldable mutual
  pub turns_of : Doc → ℕ
  turns_of (scalar type text a) = 1
  turns_of (array ds) = 3 + turns_of_docs ds
  turns_of (object fs) = 3 + turns_of_fields fs

  pub turns_of_docs : Docs → ℕ
  turns_of_docs no_docs = 0
  turns_of_docs (doc d ds) = 1 + turns_of d + turns_of_docs ds

  pub turns_of_fields : Fields → ℕ
  turns_of_fields no_fields = 0
  turns_of_fields (field name d fs) = 2 + turns_of d + turns_of_fields fs

unfoldable pub is_null : Doc → Bool
unfolding is_token
is_null (scalar type text a) = is_token type token_null
is_null (array ds) = false
is_null (object fs) = false

-- A document whose scalars `parse_scalar` accepts, and that, with so many objects and arrays around
-- it, is not nested too deep for the stack.
module _ (x : Lexer) where
  unfoldable mutual
    pub IsDoc : ℕ → Doc → Type 0
    IsDoc depth (scalar type text a) = is_scalar_token type ≡ true
    IsDoc depth (array ds) = (x.check_stack_depth depth ≡ ok tt) × AreDocs (suc depth) ds
    IsDoc depth (object fs) = (x.check_stack_depth depth ≡ ok tt) × AreFields (suc depth) fs

    pub AreDocs : ℕ → Docs → Type 0
    AreDocs depth no_docs = Unit
    AreDocs depth (doc d ds) = IsDoc depth d × AreDocs depth ds

    pub AreFields : ℕ → Fields → Type 0
    AreFields depth no_fields = Unit
    AreFields depth (field name d fs) = IsDoc depth d × AreFields depth fs

module _ {S : Type 0} (sem : SemAction S) where
  -- The actions of a document, in order.
  unfoldable mutual
    pub act : Doc → S → Outcome S
    act (scalar type text a) s = sem.scalar text type a s
    act (array ds) s = sem.array_start s >>= λ s1. act_docs ds s1 >>= sem.array_end
    act (object fs) s = sem.object_start s >>= λ s1. act_fields fs s1 >>= sem.object_end

    pub act_docs : Docs → S → Outcome S
    act_docs no_docs s = ok s
    act_docs (doc d ds) s = act d s >>= act_docs ds

    pub act_fields : Fields → S → Outcome S
    act_fields no_fields s = ok s
    act_fields (field name d fs) s =
        sem.object_field_start name (is_null d) s >>= λ s1. act d s1 >>= act_fields fs

abbrev pub HasText : Bytes → Option Bytes → Type 0
HasText lexeme none = Unit {0}
HasText lexeme (some text) = lexeme ≡ text

-- From `l`, the lexer gives these tokens, and then stands at `l'`.
abbrev pub Yields : (x : Lexer) → x.Lex → List Token → x.Lex → Type 0
Yields x l [] l' = l ≡ l'
Yields x l (t ∷ ts) l' =
    (next : x.Lex) × (x.token_type l ≡ t.type)
    × HasText (x.lexeme l) t.text
    × (x.lex l ≡ ok next)
    × Yields x next ts l'
