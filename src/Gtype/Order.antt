-- ===== src/Gtype/Order.antt =====
-- The order of keys and of pairs that uniqueify_gtype_object sorts by.
use neo_post_graph.Common.{
  ◌<◌, ◌≡◌, refl, sym, ap, ◌∙◌, ◌==◌, ltb, true, false, [], ◌∷◌, if◌then◌else◌, length, arith,
  Bool-cases, ◌⊎◌, inl, inr,
}
use neo_post_graph.Entity.{Bytes}
use neo_post_graph.Gtype.{
  GtypePair, Sign, less, equal, greater, memcmp, length_compare_gtype_string_value,
  length_compare_gtype_pair, is_equal,
}

-- Shorter keys first, and those of a length in the order of their bytes.
abbrev pub KeyLess : GtypePair → GtypePair → Type 0
KeyLess p q = length_compare_gtype_string_value p.key q.key ≡ less

pub memcmp_equal : (a b : Bytes) → memcmp a b ≡ equal → a ≡ b
memcmp_equal [] [] h = refl
memcmp_equal [] (b ∷ bs) h = cc
memcmp_equal (a ∷ more) [] h = cc
memcmp_equal (a ∷ more) (b ∷ bs) h = elim (Bool-cases (ltb a b)) [
  | inl c ↦ absurd (ground arith)
  | inr c ↦ elim (Bool-cases (ltb b a)) [
    | inl d ↦ absurd (ground arith)
    | inr d ↦
        let rest : memcmp more bs ≡ equal = ground arith in
        let same : a ≡ b = ground arith in rw (same, memcmp_equal more bs rest) refl
  ]
]

pub memcmp_self : (a : Bytes) → memcmp a a ≡ equal
memcmp_self [] = refl
memcmp_self (a ∷ more) = ground (arith, memcmp_self more)

pub compare_equal : (a b : Bytes) → length_compare_gtype_string_value a b ≡ equal → a ≡ b
unfolding length_compare_gtype_string_value
compare_equal a b h = elim (Bool-cases (length a == length b)) [
  | inl c ↦ memcmp_equal a b (ground arith)
  | inr c ↦ absurd (ground arith)
]

pub compare_self : (a : Bytes) → length_compare_gtype_string_value a a ≡ equal
unfolding length_compare_gtype_string_value
compare_self a = ground (arith, memcmp_self a)

abbrev pub PairLess : GtypePair → GtypePair → Type 0
PairLess p q = (length_compare_gtype_pair p q).0 ≡ less

pub Sign-cases : (c : Sign) → (c ≡ less) ⊎ ((c ≡ equal) ⊎ (c ≡ greater))
Sign-cases less = inl refl
Sign-cases equal = inr (inl refl)
Sign-cases greater = inr (inr refl)

pub is_equal-true : (c : Sign) → is_equal c ≡ true → c ≡ equal
is_equal-true less h = cc
is_equal-true equal h = refl
is_equal-true greater h = cc

pub pair_equal :
    (p q : GtypePair)
    → length_compare_gtype_string_value p.key q.key ≡ equal
    → length_compare_gtype_pair p q ≡ ((if ltb q.order p.order then less else greater), true)
unfolding length_compare_gtype_pair
pair_equal p q h = rw (h, length_compare_gtype_pair) refl

pub pair_greater :
    (p q : GtypePair)
    → length_compare_gtype_string_value p.key q.key ≡ greater
    → length_compare_gtype_pair p q ≡ (greater, false)
unfolding length_compare_gtype_pair
pair_greater p q h = rw (h, length_compare_gtype_pair) refl

-- A pair in order behind one with the same key comes before it in the text.
pub earlier : (p q : GtypePair) → p.key ≡ q.key → PairLess p q → q.order < p.order
earlier p q e h =
    let same : length_compare_gtype_string_value p.key q.key ≡ equal = rw e (compare_self q.key) in
    let sign : (if ltb q.order p.order then less else greater) ≡ less =
      sym (ap (λ r. r.0) (pair_equal p q same)) ∙ h in
    elim (Bool-cases (ltb q.order p.order)) [ inl c ↦ ground arith | inr c ↦ absurd (ground arith) ]

pub differ :
    (p q : GtypePair)
    → PairLess p q
    → is_equal (length_compare_gtype_string_value q.key p.key) ≡ false
    → KeyLess p q
differ p q h e = elim (Sign-cases (length_compare_gtype_string_value p.key q.key)) [
  | inl c ↦ c
  | inr (inl c) ↦
      let same : length_compare_gtype_string_value q.key p.key ≡ equal =
        rw (compare_equal p.key q.key c) (compare_self q.key) in
      absurd (cc)
  | inr (inr c) ↦
      let sign : greater ≡ less = sym (ap (λ r. r.0) (pair_greater p q c)) ∙ h in absurd (cc)
]
