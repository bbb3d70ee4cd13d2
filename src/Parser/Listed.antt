-- ===== src/Parser/Listed.antt =====
-- A lexer that reads a list of tokens, for the runs of the parser, with a stack for three levels.
use neo_post_graph.Common.{ltb, if◌then◌else◌, List, [], ◌∷◌}
use neo_post_graph.Storage.{Outcome, ok, err, parse_error, statement_too_complex}
use neo_post_graph.Entity.{Bytes}
use neo_post_graph.Parser.{TokenType, token_invalid, Lexer}

abbrev pub head_type : List (TokenType × Bytes) → TokenType
head_type [] = token_invalid
head_type ((type, text) ∷ ts) = type

abbrev pub head_text : List (TokenType × Bytes) → Bytes
head_text [] = []
head_text ((type, text) ∷ ts) = text

abbrev pub next_token : List (TokenType × Bytes) → Outcome (List (TokenType × Bytes))
next_token [] = err parse_error
next_token (t ∷ ts) = ok ts

-- The first token of the list is the look-ahead one.
abbrev pub listed : Lexer
listed = record {
  Lex = List (TokenType × Bytes);
  token_type = head_type;
  lexeme = head_text;
  lex = next_token;
  check_stack_depth = λ depth. if ltb depth 3 then ok tt else err statement_too_complex;
}
