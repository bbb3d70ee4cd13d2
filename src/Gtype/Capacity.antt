-- ===== src/Gtype/Capacity.antt =====
-- The memory of a container under construction: `append_key` and `append_element` of
-- src/backend/utils/adt/gtype_util.c, up to the limit of the allocator.
use neo_post_graph.Common.{
  ℕ, zero, suc, ◌*◌, ◌≤◌, ◌<◌, ◌≡◌, refl, leb, true, false, none, some, List, [], ◌∷◌, ◌++◌, length,
  length-append, arith, Bool-cases, inl, inr,
}
use mathlib.Core.Path.{subst}
use neo_post_graph.Storage.{ok, err, invalid_alloc_size}
use neo_post_graph.Entity.{Bytes}
use neo_post_graph.Gtype.{
  GtypeValue, GtypePair, in_array, in_object, repalloc_full, append_key, append_element,
}

-- The limit is reached after `k` doublings.
abbrev IsSize : ℕ → ℕ → ℕ → Type 0
IsSize limit zero size = size ≡ limit
IsSize limit (suc k) size = IsSize limit k (size * 2)

IsSize-le : (limit k size : ℕ) → IsSize limit k size → size ≤ limit
IsSize-le limit zero size h = omega arith
IsSize-le limit (suc k) size h = let le = IsSize-le limit k (size * 2) h in omega arith

-- Memory for `size` values holds `num`.
abbrev pub HasRoom : ℕ → ℕ → ℕ → Type 0
HasRoom limit size num = (k : ℕ) × IsSize limit k size × (0 < size) × (num ≤ size)

HasRoom-le : (limit size num : ℕ) → HasRoom limit size num → num ≤ limit
HasRoom-le limit size num (k, is, positive, holds) =
    let le = IsSize-le limit k size is in omega arith

pub repalloc_full-HasRoom :
    (limit bytes size num : ℕ)
    → ((m : ℕ) → m ≤ limit → bytes * m ≤ 1073741823)
    → HasRoom limit size num
    → num < limit
    → (size' : ℕ) × (repalloc_full bytes num size ≡ ok size') × HasRoom limit size' (suc num)
unfolding repalloc_full
repalloc_full-HasRoom limit bytes size num fits (zero, is, positive, holds) less =
    let free : leb size num ≡ false = ground arith in
    (size, rw free refl, (zero, is, positive, omega arith))
repalloc_full-HasRoom limit bytes size num fits (suc k, is, positive, holds) less =
    elim (Bool-cases (leb size num)) [
      | inr free ↦ (size, rw free refl, (suc k, is, positive, ground arith))
      | inl full ↦
          let le = fits (size * 2) (IsSize-le limit k (size * 2) is) in
          let small : leb (bytes * (size * 2)) 1073741823 ≡ true = ground arith in
          (size * 2, rw (full, small) refl, (k, is, omega arith, ground arith))
    ]

pub repalloc_full_error :
    (limit bytes size num : ℕ)
    → 1073741823 < bytes * (limit * 2)
    → HasRoom limit size num
    → limit ≤ num
    → repalloc_full bytes num size ≡ err invalid_alloc_size
unfolding repalloc_full
repalloc_full_error limit bytes size num large (k, is, positive, holds) over =
    let le = IsSize-le limit k size is in
    let same : size ≡ limit = omega arith in
    let full : leb size num ≡ true = ground arith in
    let refused : leb (bytes * (size * 2)) 1073741823 ≡ false = rw same (ground arith) in
    rw (full, refused) refl

-- Powers of two below 2 ^ 30 bytes, for values of 32 bytes and pairs of 72.
abbrev pub max_elems : ℕ
max_elems = 16777216

abbrev pub max_pairs : ℕ
max_pairs = 8388608

length_snoc : {A : Type 0} → (xs : List A) (x : A) → suc (length xs) ≡ length (xs ++ (x ∷ []))
length_snoc xs x = omega (arith, length-append xs (x ∷ []))

pub append_element_free :
    (v : GtypeValue) (vs : List GtypeValue) (size : ℕ)
    → HasRoom max_elems size (length vs)
    → leb max_elems (length vs) ≡ false
    → (size' : ℕ) × (append_element v (in_array false size vs)
        ≡ ok (in_array false size' (vs ++ (v ∷ []))))
      × HasRoom max_elems size' (length (vs ++ (v ∷ [])))
unfolding append_element
append_element_free v vs size room free =
    let less : length vs < max_elems = ground arith in
    let (size', e, room') =
      repalloc_full-HasRoom max_elems 32 size (length vs) (λ m le. omega arith) room less in
    let under : leb 33554431 (length vs) ≡ false = ground arith in
    (size', rw (under, e) refl, subst (λ n. HasRoom max_elems size' n) (length_snoc vs v) room')

pub append_element_full :
    (v : GtypeValue) (vs : List GtypeValue) (size : ℕ)
    → HasRoom max_elems size (length vs)
    → leb max_elems (length vs) ≡ true
    → append_element v (in_array false size vs) ≡ err invalid_alloc_size
unfolding append_element
append_element_full v vs size room full =
    let over : max_elems ≤ length vs = ground arith in
    let e = repalloc_full_error max_elems 32 size (length vs) (omega arith) room over in
    let le = HasRoom-le max_elems size (length vs) room in
    let under : leb 33554431 (length vs) ≡ false = ground arith in rw (under, e) refl

-- The pair that is put behind the others with the key has room too.
pub append_key_free :
    (key : Bytes) (ps : List GtypePair) (size : ℕ)
    → HasRoom max_pairs size (length ps)
    → leb max_pairs (length ps) ≡ false
    → (size' : ℕ) × (append_key key (in_object size ps none) ≡ ok (in_object size' ps (some key)))
      × ((p : GtypePair) → HasRoom max_pairs size' (length (ps ++ (p ∷ []))))
unfolding append_key
append_key_free key ps size room free =
    let less : length ps < max_pairs = ground arith in
    let (size', e, room') =
      repalloc_full-HasRoom max_pairs 72 size (length ps) (λ m le. omega arith) room less in
    let under : leb 14913080 (length ps) ≡ false = ground arith in
    (
      size',
      rw (under, e) refl,
      λ p. subst (λ n. HasRoom max_pairs size' n) (length_snoc ps p) room',
    )

pub append_key_full :
    (key : Bytes) (ps : List GtypePair) (size : ℕ)
    → HasRoom max_pairs size (length ps)
    → leb max_pairs (length ps) ≡ true
    → append_key key (in_object size ps none) ≡ err invalid_alloc_size
unfolding append_key
append_key_full key ps size room full =
    let over : max_pairs ≤ length ps = ground arith in
    let e = repalloc_full_error max_pairs 72 size (length ps) (omega arith) room over in
    let le = HasRoom-le max_pairs size (length ps) room in
    let under : leb 14913080 (length ps) ≡ false = ground arith in rw (under, e) refl
