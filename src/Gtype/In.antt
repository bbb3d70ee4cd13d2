-- ===== src/Gtype/In.antt =====
-- The semantic actions of src/backend/utils/adt/gtype.c that build a gtype value from its text.
use Prim.Native.Char.{code}
use Prim.Native.String.{String}
use neo_post_graph.Common.{
  ℕ, ltb, Bool, true, false, not, Option, none, some, List, [], ◌∷◌, if◌then◌else◌, length,
}
use neo_post_graph.Storage.{
  program_limit_exceeded, invalid_annotation, invalid_type, Outcome, ok, err, ◌>>=◌,
}
use neo_post_graph.Entity.{Bytes}
use neo_post_graph.GtypeExt.{
  GtypeScalar, gtv_null, gtv_string, gtv_numeric, gtv_integer, gtv_float, gtv_bool, gtv_timestamp,
  gtv_timestamptz, gtv_date, gtv_time, gtv_timetz, gtv_interval, gtv_inet, gtv_cidr, gtv_mac,
  gtv_mac8,
}
use neo_post_graph.Parser.{
  TokenType, token_string, token_integer, token_float, token_numeric, token_timestamp,
  token_timestamptz, token_date, token_time, token_timetz, token_interval, token_inet, token_cidr,
  token_macaddr, token_macaddr8, token_true, token_false, token_null, is_token, SemAction, Lexer,
  parse_gtype,
}
use neo_post_graph.Gtype.{
  GtypeValue, gtv_scalar, in_array, in_object, InState, Qsort, append_key, append_to,
  append_element, push_begin, push_on_top, push_end,
}

-- The input functions of PostgreSQL's types, and its comparison of strings without case.
pub record PgInput : Type 0 where
  pub same_word : Bytes → Bytes → Bool
  pub strtoint64 : Bytes → Outcome ℕ
  pub float8in : Bytes → Outcome ℕ
  pub numeric_in : Bytes → Outcome Bytes
  pub timestamp_in : Bytes → Outcome ℕ
  pub timestamptz_in : Bytes → Outcome ℕ
  pub date_in : Bytes → Outcome ℕ
  pub time_in : Bytes → Outcome ℕ
  pub timetz_in : Bytes → Outcome (ℕ × ℕ)
  pub interval_in : Bytes → Outcome (ℕ × ℕ × ℕ)
  pub inet_in : Bytes → Outcome Bytes
  pub cidr_in : Bytes → Outcome Bytes
  pub macaddr_in : Bytes → Outcome Bytes
  pub macaddr8_in : Bytes → Outcome Bytes

abbrev pub codes : String → Bytes
codes String.[] = []
codes (String.◌∷◌ c s) = code c ∷ codes s

-- The names of scalar types that an annotation may have.
abbrev pub annotation_names : List (Bytes × TokenType)
annotation_names =
    (codes "numeric", token_numeric)
    ∷ (codes "integer", token_integer)
    ∷ (codes "int", token_integer)
    ∷ (codes "float", token_float)
    ∷ (codes "timestamp", token_timestamp)
    ∷ (codes "timestamptz", token_timestamptz)
    ∷ (codes "date", token_date)
    ∷ (codes "time", token_time)
    ∷ (codes "timetz", token_timetz)
    ∷ (codes "interval", token_interval)
    ∷ (codes "inet", token_inet)
    ∷ (codes "cidr", token_cidr)
    ∷ (codes "macaddr", token_macaddr)
    ∷ (codes "macaddr8", token_macaddr8)
    ∷ (codes "text", token_string)
    ∷ []

unfoldable pub check_string_length : Bytes → Outcome Bytes
check_string_length b = if ltb 268435455 (length b) then err program_limit_exceeded else ok b

module _ (pg : PgInput) where
  abbrev pub find_name : Bytes → List (Bytes × TokenType) → Outcome TokenType
  find_name annotation [] = err invalid_annotation
  find_name annotation ((name, token) ∷ names) =
      let rest = find_name annotation names in
      if pg.same_word annotation name then ok token else rest

  -- The token type that an annotation asks for. The cast of a null is a null.
  unfoldable pub cast_token : TokenType → Option Bytes → Outcome TokenType
  unfolding is_token
  cast_token type none = ok type
  cast_token type (some annotation) =
      if not (is_token type token_null) then find_name annotation annotation_names else ok type

  unfoldable pub scalar_value : Bytes → TokenType → Outcome GtypeScalar
  unfolding check_string_length
  scalar_value token token_string = check_string_length token >>= λ b. ok (gtv_string b)
  scalar_value token token_integer = pg.strtoint64 token >>= λ n. ok (gtv_integer n)
  scalar_value token token_float = pg.float8in token >>= λ n. ok (gtv_float n)
  scalar_value token token_numeric = pg.numeric_in token >>= λ b. ok (gtv_numeric b)
  scalar_value token token_timestamp = pg.timestamp_in token >>= λ n. ok (gtv_timestamp n)
  scalar_value token token_timestamptz = pg.timestamptz_in token >>= λ n. ok (gtv_timestamptz n)
  scalar_value token token_date = pg.date_in token >>= λ n. ok (gtv_date n)
  scalar_value token token_time = pg.time_in token >>= λ n. ok (gtv_time n)
  scalar_value token token_timetz = pg.timetz_in token >>= λ (t, z). ok (gtv_timetz t z)
  scalar_value token token_interval = pg.interval_in token >>= λ (t, d, m). ok (gtv_interval t d m)
  scalar_value token token_inet = pg.inet_in token >>= λ b. ok (gtv_inet b)
  scalar_value token token_cidr = pg.cidr_in token >>= λ b. ok (gtv_cidr b)
  scalar_value token token_macaddr = pg.macaddr_in token >>= λ b. ok (gtv_mac b)
  scalar_value token token_macaddr8 = pg.macaddr8_in token >>= λ b. ok (gtv_mac8 b)
  scalar_value token token_true = ok (gtv_bool true)
  scalar_value token token_false = ok (gtv_bool false)
  scalar_value token token_null = ok gtv_null
  scalar_value token _ = err invalid_type

  -- `qsort_arg` is that of `uniqueify_gtype_object`.
  module _ (qsort_arg : Qsort) where
    -- A scalar with nothing around it becomes an array that is marked as one.
    unfoldable pub push_scalar : GtypeValue → InState → Outcome InState
    unfolding push_begin push_on_top push_end append_to append_element
    push_scalar v s = elim s.parse_state [
      | [] ↦ push_begin (in_array true 1 []) s >>= λ s1.
          push_on_top (append_element v) s1 >>= push_end qsort_arg
      | c ∷ cs ↦ push_on_top (append_to v) s
    ]

    unfoldable pub gtype_in_scalar : Bytes → TokenType → Option Bytes → InState → Outcome InState
    unfolding push_scalar cast_token scalar_value
    gtype_in_scalar token type annotation s = cast_token type annotation >>= λ cast.
        scalar_value token cast >>= λ v. push_scalar (gtv_scalar v) s

    unfoldable pub gtype_in_object_field_start : Bytes → Bool → InState → Outcome InState
    unfolding check_string_length push_on_top append_key
    gtype_in_object_field_start name null s =
        check_string_length name >>= λ key. push_on_top (append_key key) s

    unfoldable pub gtype_in : SemAction InState
    unfolding push_begin push_end gtype_in_scalar gtype_in_object_field_start
    gtype_in = record {
      object_start = push_begin (in_object 4 [] none);
      object_end = push_end qsort_arg;
      array_start = push_begin (in_array false 4 []);
      array_end = push_end qsort_arg;
      object_field_start = gtype_in_object_field_start;
      scalar = gtype_in_scalar;
    }

    unfoldable pub gtype_value_from_cstring : (x : Lexer) → ℕ → x.Lex → Outcome (Option GtypeValue)
    unfolding parse_gtype gtype_in
    gtype_value_from_cstring x turns lex =
        parse_gtype x gtype_in turns lex (record { parse_state = []; res = none }) >>= λ s. ok s.res
