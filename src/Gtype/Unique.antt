-- ===== src/Gtype/Unique.antt =====
-- uniqueify_gtype_object: what the sort and the removal of duplicates leave of the pairs.
use neo_post_graph.Common.{
  ◌≤◌, ◌<◌, ◌≡◌, refl, sym, ap, ◌∙◌, ltb, Bool, true, false, List, [], ◌∷◌, length, arith,
  Bool-cases, ◌⊎◌, inl, inr,
}
use mathlib.Core.List.{Memᴰ}
use mathlib.Core.List.Memᴰ
use mathlib.Core.Path.{subst}
use neo_post_graph.Gtype.{
  GtypePair, less, greater, length_compare_gtype_string_value, length_compare_gtype_pair, Qsort,
  is_equal, unique_pairs, drop_duplicates, uniqueify_gtype_object,
}
use neo_post_graph.Gtype.Order.{
  KeyLess, compare_equal, PairLess, Sign-cases, is_equal-true, pair_equal, pair_greater, earlier,
  differ,
}

-- One after the other in a list.
abbrev pub Adjacent : (GtypePair → GtypePair → Type 0) → List GtypePair → Type 0
Adjacent R [] = Unit
Adjacent R (p ∷ []) = Unit
Adjacent R (p ∷ q ∷ ps) = R p q × Adjacent R (q ∷ ps)

abbrev pub Each : (GtypePair → Type 0) → List GtypePair → Type 0
Each P [] = Unit
Each P (p ∷ ps) = P p × Each P ps

-- What a sort that compares gives: the elements in order, and the flag set if it compared two
-- elements that set it, as it must for neighbours.
pub record IsSorting (pairs : List GtypePair) (r : List GtypePair × Bool) : Type 0 where
  pub all : Each (λ p. Memᴰ p r.0) pairs
  pub only : Each (λ p. Memᴰ p pairs) r.0
  pub in_order : Adjacent (λ p q. (length_compare_gtype_pair p q).0 ≡ less) r.0
  pub flagged : (r.1 ≡ true) ⊎ Adjacent (λ p q. (length_compare_gtype_pair p q).1 ≡ false) r.0

-- A pair with this key that is at least as late.
abbrev pub Later : GtypePair → GtypePair → Type 0
Later p q = (q.key ≡ p.key) × (p.order ≤ q.order)

-- The last pair that was kept and the last that was read have one key.
abbrev Kept : GtypePair → GtypePair → Type 0
Kept last read = (read.key ≡ last.key) × (read.order ≤ last.order)

module _ (last read p : GtypePair) (kept : Kept last read) (h : PairLess read p) where
  Kept-next :
      is_equal (length_compare_gtype_string_value p.key last.key) ≡ true
      → Kept last p × (p.order ≤ last.order)
  Kept-next e =
      let same : p.key ≡ last.key =
        compare_equal p.key last.key
          (is_equal-true (length_compare_gtype_string_value p.key last.key) e) in
      let before : p.order < read.order = earlier read p (kept.0 ∙ sym same) h in
      let (_, order) = kept in
      let at_most : p.order ≤ last.order = omega arith in ((same, at_most), at_most)

  kept_new : is_equal (length_compare_gtype_string_value p.key last.key) ≡ false → KeyLess last p
  kept_new e = let fresh : KeyLess read p = differ read p h (rw (kept.0) e) in rw (← kept.0) fresh

module _ (last p : GtypePair) (ps : List GtypePair) where
  unique_pairs-same :
      is_equal (length_compare_gtype_string_value p.key last.key) ≡ true
      → unique_pairs last (p ∷ ps) ≡ unique_pairs last ps
  unfolding unique_pairs
  unique_pairs-same e = rw (e, unique_pairs) refl

  unique_pairs-new :
      is_equal (length_compare_gtype_string_value p.key last.key) ≡ false
      → unique_pairs last (p ∷ ps) ≡ last ∷ unique_pairs p ps
  unfolding unique_pairs
  unique_pairs-new e = rw (e, unique_pairs) refl

unique_pairs-KeyLess :
    (r last read : GtypePair) (ps : List GtypePair)
    → KeyLess r last
    → Kept last read
    → Adjacent PairLess (read ∷ ps)
    → Adjacent KeyLess (r ∷ unique_pairs last ps)
unfolding unique_pairs
unique_pairs-KeyLess r last read [] h kept sorted = (h, tt)
unique_pairs-KeyLess r last read (p ∷ ps) h kept (lt, sorted) =
    elim (Bool-cases (is_equal (length_compare_gtype_string_value p.key last.key))) [
      | inl e ↦
          let (next, _) = Kept-next last read p kept lt e in
          rw (unique_pairs-same last p ps e) (unique_pairs-KeyLess r last p ps h next sorted)
      | inr e ↦ rw (unique_pairs-new last p ps e) (
        h,
        unique_pairs-KeyLess last p p ps (kept_new last read p kept lt e) (refl, omega arith)
            sorted,
      )
    ]

unique_pairs-Adjacent :
    (last read : GtypePair) (ps : List GtypePair)
    → Kept last read
    → Adjacent PairLess (read ∷ ps)
    → Adjacent KeyLess (unique_pairs last ps)
unfolding unique_pairs
unique_pairs-Adjacent last read [] kept sorted = tt
unique_pairs-Adjacent last read (p ∷ ps) kept (lt, sorted) =
    elim (Bool-cases (is_equal (length_compare_gtype_string_value p.key last.key))) [
      | inl e ↦
          let (next, _) = Kept-next last read p kept lt e in
          rw (unique_pairs-same last p ps e) (unique_pairs-Adjacent last p ps next sorted)
      | inr e ↦ rw (unique_pairs-new last p ps e) (
          unique_pairs-KeyLess last p p ps (kept_new last read p kept lt e) (refl, omega arith)
            sorted)
    ]

unique_pairs-Later :
    (q last read : GtypePair) (ps : List GtypePair)
    → Kept last read
    → Adjacent PairLess (read ∷ ps)
    → Memᴰ q (last ∷ ps)
    → (p : GtypePair) × Memᴰ p (unique_pairs last ps) × Later q p
unfolding unique_pairs
unique_pairs-Later q last read [] kept sorted m = elim (Memᴰ.cases_cons m) [
  | inl e ↦ (last, Memᴰ.head refl, rw e (refl, omega arith))
  | inr none ↦ absurd (Memᴰ.not-nil none)
]
unique_pairs-Later q last read (p ∷ ps) kept (lt, sorted) m =
    elim (Bool-cases (is_equal (length_compare_gtype_string_value p.key last.key))) [
      | inl e ↦
          let (next, at_most) = Kept-next last read p kept lt e in
          rw (unique_pairs-same last p ps e) (elim (Memᴰ.cases_cons m) [
            | inl first ↦ unique_pairs-Later q last p ps next sorted (Memᴰ.head first)
            | inr more ↦ elim (Memᴰ.cases_cons more) [
              | inl second ↦
                  let (k, at, (same, later)) =
                    unique_pairs-Later last last p ps next sorted (Memᴰ.head refl) in
                  (k, at, rw second (same ∙ sym (next.0), omega arith))
              | inr rest ↦ unique_pairs-Later q last p ps next sorted (Memᴰ.tail rest)
            ]
          ])
      | inr e ↦ rw (unique_pairs-new last p ps e) (elim (Memᴰ.cases_cons m) [
        | inl first ↦ (last, Memᴰ.head refl, rw first (refl, omega arith))
        | inr more ↦
            let (k, at, later) = unique_pairs-Later q p p ps (refl, omega arith) sorted more in
            (k, Memᴰ.tail at, later)
      ])
    ]

unique_pairs-Mem :
    (q last : GtypePair) (ps : List GtypePair) → Memᴰ q (unique_pairs last ps) → Memᴰ q (last ∷ ps)
unfolding unique_pairs
unique_pairs-Mem q last [] m = m
unique_pairs-Mem q last (p ∷ ps) m =
    elim (Bool-cases (is_equal (length_compare_gtype_string_value p.key last.key))) [
      | inl e ↦
          elim (Memᴰ.cases_cons (
            unique_pairs-Mem q last ps (subst (λ l. Memᴰ q l) (unique_pairs-same last p ps e) m))) [
              | inl first ↦ Memᴰ.head first
              | inr rest ↦ Memᴰ.tail (Memᴰ.tail rest)
            ]
      | inr e ↦ elim (Memᴰ.cases_cons (subst (λ l. Memᴰ q l) (unique_pairs-new last p ps e) m)) [
        | inl first ↦ Memᴰ.head first
        | inr rest ↦ Memᴰ.tail (unique_pairs-Mem q p ps rest)
      ]
    ]

Each-of :
    (P : GtypePair → Type 0) (ps : List GtypePair) → ((p : GtypePair) → Memᴰ p ps → P p) → Each P ps
Each-of P [] f = tt
Each-of P (p ∷ ps) f = (f p (Memᴰ.head refl), Each-of P ps (λ q m. f q (Memᴰ.tail m)))

Each-at :
    (P : GtypePair → Type 0) (ps : List GtypePair) (p : GtypePair) → Each P ps → Memᴰ p ps → P p
Each-at P [] p each m = absurd (Memᴰ.not-nil m)
Each-at P (q ∷ ps) p (first, each) m = elim (Memᴰ.cases_cons m) [
  | inl e ↦ subst P (sym e) first
  | inr rest ↦ Each-at P ps p each rest
]

unflagged :
    (ps : List GtypePair)
    → Adjacent PairLess ps
    → Adjacent (λ p q. (length_compare_gtype_pair p q).1 ≡ false) ps
    → Adjacent KeyLess ps
unflagged [] sorted flags = tt
unflagged (p ∷ []) sorted flags = tt
unflagged (p ∷ q ∷ ps) (lt, sorted) (flag, flags) =
    elim (Sign-cases (length_compare_gtype_string_value p.key q.key)) [
      | inl c ↦ (c, unflagged (q ∷ ps) sorted flags)
      | inr (inl c) ↦
          let set : true ≡ false = sym (ap (λ r. r.1) (pair_equal p q c)) ∙ flag in absurd (cc)
      | inr (inr c) ↦
          let sign : greater ≡ less = sym (ap (λ r. r.0) (pair_greater p q c)) ∙ lt in absurd (cc)
    ]

-- Keys that grow, every pair one of the input, and for each pair of the input one with its key that
-- is at least as late.
pub record IsUnique (pairs unique : List GtypePair) : Type 0 where
  pub growing : Adjacent KeyLess unique
  pub only : Each (λ p. Memᴰ p pairs) unique
  pub latest : Each (λ q. (p : GtypePair) × Memᴰ p unique × Later q p) pairs

same-IsUnique :
    (pairs sorted : List GtypePair)
    → Adjacent KeyLess sorted
    → Each (λ p. Memᴰ p sorted) pairs
    → Each (λ p. Memᴰ p pairs) sorted
    → IsUnique pairs sorted
same-IsUnique pairs sorted growing all only = record {
  growing = growing;
  only = only;
  latest =
      Each-of (λ q. (p : GtypePair) × Memᴰ p sorted × Later q p) pairs
        (λ q m. (q, Each-at (λ p. Memᴰ p sorted) pairs q all m, (refl, omega arith)));
}

drop_duplicates-IsUnique :
    (pairs sorted : List GtypePair)
    → Adjacent PairLess sorted
    → Each (λ p. Memᴰ p sorted) pairs
    → Each (λ p. Memᴰ p pairs) sorted
    → IsUnique pairs (drop_duplicates sorted)
unfolding drop_duplicates
drop_duplicates-IsUnique pairs [] sorted all only = same-IsUnique pairs [] tt all only
drop_duplicates-IsUnique pairs (r ∷ rs) sorted all only = record {
  growing = unique_pairs-Adjacent r r rs (refl, omega arith) sorted;
  only =
      Each-of (λ p. Memᴰ p pairs) (unique_pairs r rs)
        (λ p m. Each-at (λ q. Memᴰ q pairs) (r ∷ rs) p only (unique_pairs-Mem p r rs m));
  latest =
      Each-of (λ q. (p : GtypePair) × Memᴰ p (unique_pairs r rs) × Later q p) pairs
        (λ q m.
          unique_pairs-Later q r r rs (refl, omega arith) sorted
            (Each-at (λ p. Memᴰ p (r ∷ rs)) pairs q all m));
}

-- The pairs that uniqueify_gtype_object leaves have strictly growing keys, are pairs of the object,
-- and for each pair of the object one of them has its key and an order that is no smaller: the last
-- value given to a key wins. This holds if qsort_arg sorts these pairs by the comparison and passes
-- on the flag.
pub uniqueify_gtype_object-IsUnique :
    (qsort_arg : Qsort) (pairs : List GtypePair)
    → IsSorting pairs (qsort_arg length_compare_gtype_pair pairs)
    → IsUnique pairs (uniqueify_gtype_object qsort_arg pairs)
unfolding uniqueify_gtype_object
uniqueify_gtype_object-IsUnique qsort_arg [] h = same-IsUnique [] [] tt tt tt
uniqueify_gtype_object-IsUnique qsort_arg (a ∷ []) h =
    same-IsUnique (a ∷ []) (a ∷ []) tt (Memᴰ.head refl, tt) (Memᴰ.head refl, tt)
uniqueify_gtype_object-IsUnique qsort_arg (a ∷ b ∷ ps) h =
    let pairs : List GtypePair = a ∷ b ∷ ps in
    let many : ltb 1 (length pairs) ≡ true = ground arith in
    let r : List GtypePair × Bool = qsort_arg length_compare_gtype_pair pairs in
    rw many (elim (Bool-cases (r.1)) [
      | inl e ↦ rw e (drop_duplicates-IsUnique pairs (r.0) h.in_order h.all h.only)
      | inr e ↦ rw e (elim h.flagged [
        | inl f ↦ absurd (cc)
        | inr f ↦ same-IsUnique pairs (r.0) (unflagged (r.0) h.in_order f) h.all h.only
      ])
    ])
