-- ===== src/GtypeExt/Memory.antt =====
-- Numbers in memory, and parts of a run of bytes.
use native.Mathlib.Nat.{pow-succ'}
use neo_post_graph.Common.{
  ℕ, zero, suc, ◌+◌, ◌*◌, ◌/◌, ◌^◌, ◌<◌, ◌≡◌, refl, sym, ap, ◌∙◌, [], ◌∷◌, ◌++◌, arith, length,
  take, drop, take-length-append,
}
use neo_post_graph.Entity.{Bytes}
use neo_post_graph.GtypeExt.{to_bytes, of_bytes, read}

pub length-to_bytes : (width n : ℕ) → length (to_bytes width n) ≡ width
unfolding to_bytes
length-to_bytes zero n = refl
length-to_bytes (suc width) n = ap suc (length-to_bytes width (n / 256))

pub read-to_bytes :
    (width n : ℕ) (rest : Bytes) → n < 256 ^ width → read width (to_bytes width n ++ rest) ≡ n
unfolding to_bytes read of_bytes
read-to_bytes zero n rest h = omega arith
read-to_bytes (suc width) n rest h =
    let pow : 256 ^ suc width ≡ 256 * 256 ^ width = pow-succ' 256 width in
    omega (arith, read-to_bytes width (n / 256) rest (omega arith))

pub drop-to_bytes : (width n : ℕ) (rest : Bytes) → drop width (to_bytes width n ++ rest) ≡ rest
unfolding to_bytes
drop-to_bytes zero n rest = refl
drop-to_bytes (suc width) n rest = drop-to_bytes width (n / 256) rest

drop-nil : (n : ℕ) → drop {A = ℕ} n [] ≡ []
drop-nil zero = refl
drop-nil (suc n) = refl

pub drop-drop : (m n : ℕ) (xs : Bytes) → drop m (drop n xs) ≡ drop (n + m) xs
drop-drop m zero xs = ap (λ (k : ℕ). drop k xs) (omega arith)
drop-drop m (suc n) [] = drop-nil m ∙ sym (drop-nil (suc n + m))
drop-drop m (suc n) (x ∷ xs) = drop-drop m n xs ∙ ap (λ (k : ℕ). drop k (x ∷ xs)) end
  where
    end : suc (n + m) ≡ suc n + m
    end = omega arith

take-length : (b : Bytes) → take (length b) b ≡ b
take-length [] = refl
take-length (x ∷ xs) = ap (λ zs. x ∷ zs) (take-length xs)

pub take-exact : (n : ℕ) (b rest : Bytes) → length b ≡ n → take n (take n b ++ rest) ≡ b
take-exact n b rest e = rw (← e, take-length b) (take-length-append b rest)
