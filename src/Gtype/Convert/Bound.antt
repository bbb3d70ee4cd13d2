-- ===== src/Gtype/Convert/Bound.antt =====
-- How many bytes a converted value may take, and how deep its conversion goes.
use neo_post_graph.Common.{ℕ, suc, ◌+◌, ◌*◌, ◌≡◌, length}
use neo_post_graph.Storage.{Outcome, ok}
use neo_post_graph.GtypeExt.{GtypeScalar, gtv_null, gtv_string, gtv_numeric, gtv_bool}
use neo_post_graph.Gtype.{
  GtypeValue, gtv_scalar, gtv_array, gtv_object, GtypeElems, elem, no_elems, GtypePairs, pair,
  no_pairs,
}
use neo_post_graph.Gtype.Convert.{number_of_elems, number_of_pairs}

-- Padding of at most three bytes, a header of four and at most twenty-two bytes behind it.
abbrev pub bound_scalar : GtypeScalar → ℕ
bound_scalar gtv_null = 0
bound_scalar (gtv_bool b) = 0
bound_scalar (gtv_string b) = length b
bound_scalar (gtv_numeric b) = 3 + length b
bound_scalar _ = 29

abbrev pub bound_keys : GtypePairs → ℕ
bound_keys no_pairs = 0
bound_keys (pair key value order ps) = length key + bound_keys ps

unfoldable mutual
  pub bound : GtypeValue → ℕ
  bound (gtv_scalar v) = bound_scalar v
  bound (gtv_array raw vs) = 7 + 4 * number_of_elems vs + bound_elems vs
  bound (gtv_object ps) = 7 + 4 * (number_of_pairs ps * 2) + (bound_keys ps + bound_values ps)

  pub bound_elems : GtypeElems → ℕ
  bound_elems no_elems = 0
  bound_elems (elem v vs) = bound v + bound_elems vs

  pub bound_values : GtypePairs → ℕ
  bound_values no_pairs = 0
  bound_values (pair key value order ps) = bound value + bound_values ps

-- The check of the stack passes at the depth of each value in this one.
module _ (check_stack_depth : ℕ → Outcome Unit) where
  unfoldable mutual
    pub IsShallow : ℕ → GtypeValue → Type 0
    IsShallow level (gtv_scalar v) = check_stack_depth level ≡ ok tt
    IsShallow level (gtv_array raw vs) =
        (check_stack_depth level ≡ ok tt) × AreShallow (suc level) vs
    IsShallow level (gtv_object ps) = (check_stack_depth level ≡ ok tt) × HasShallow (suc level) ps

    pub AreShallow : ℕ → GtypeElems → Type 0
    AreShallow level no_elems = Unit
    AreShallow level (elem v vs) = IsShallow level v × AreShallow level vs

    pub HasShallow : ℕ → GtypePairs → Type 0
    HasShallow level no_pairs = Unit
    HasShallow level (pair key value order ps) = IsShallow level value × HasShallow level ps
