-- ===== src/AdjList/Chain/Cut.antt =====
-- A list in memory and the chain of blocks that it becomes.
use neo_post_graph.Common.{
  ℕ, zero, suc, ◌+◌, ◌-◌, ◌*◌, ◌/◌, ◌≤◌, ◌<◌, ◌≡◌, refl, sym, ap, ◌∙◌, none, some, List, [], ◌∷◌,
  ◌++◌, arith, leb, length, take, drop, length-take, length-drop, Bool-cases, inl, inr,
}
use neo_post_graph.Storage.{Tid, PageOps, ok, Rel, fetch}
use neo_post_graph.Storage.Append.{RelNormal}
use neo_post_graph.AdjList.{
  AdjListMember, AdjList, ArrayListRecord, max_edges_per_block, members, insert_chunked_arraylist,
}
use neo_post_graph.AdjList.Grow.{IsAdjList}
use neo_post_graph.AdjList.Chain.{stored, piece, Segment}
use neo_post_graph.AdjList.Chain.Chunks.{pieces, chunks-Inserted}

abbrev pub concat : {A : Type 0} → List (List A) → List A
concat [] = []
concat (xs ∷ xss) = xs ++ concat xss

take-drop : {A : Type 0} (n : ℕ) (xs : List A) → take n xs ++ drop n xs ≡ xs
take-drop zero xs = refl
take-drop (suc n) [] = refl
take-drop (suc n) (x ∷ xs) = ap (λ ys. x ∷ ys) (take-drop n xs)

drop-nil : {A : Type 0} (n : ℕ) → drop {A = A} n [] ≡ []
drop-nil zero = refl
drop-nil (suc n) = refl

drop-drop : {A : Type 0} (m n k : ℕ) (xs : List A) → n + m ≡ k → drop m (drop n xs) ≡ drop k xs
drop-drop m zero k xs e = ap (λ (j : ℕ). drop j xs) (omega arith)
drop-drop m (suc n) zero xs e = absurd (omega arith)
drop-drop m (suc n) (suc k) [] e = drop-nil m
drop-drop m (suc n) (suc k) (x ∷ xs) e = drop-drop m n k xs (omega arith)

drop-past : {A : Type 0} (n : ℕ) (xs : List A) → length xs ≤ n → drop n xs ≡ []
drop-past zero [] h = refl
drop-past zero (x ∷ xs) h = absurd (omega arith)
drop-past (suc n) [] h = refl
drop-past (suc n) (x ∷ xs) h = drop-past n xs (omega arith)

take-past : {A : Type 0} (n : ℕ) (xs : List A) → length xs ≤ n → take n xs ≡ xs
take-past zero [] h = refl
take-past zero (x ∷ xs) h = absurd (omega arith)
take-past (suc n) [] h = refl
take-past (suc n) (x ∷ xs) h = ap (λ ys. x ∷ ys) (take-past n xs (omega arith))

piece-drop :
    (all : List AdjListMember) (i : ℕ)
    → piece all i ++ drop (suc i * max_edges_per_block) all ≡ drop (i * max_edges_per_block) all
piece-drop all i =
    let rest = drop (i * max_edges_per_block) all in
    let left = length-drop (i * max_edges_per_block) all in
    let whole : piece all i ≡ take max_edges_per_block rest =
      elim (Bool-cases (leb (length all - i * max_edges_per_block) max_edges_per_block)) [
        | inl few ↦ ground (
          arith,
          take-past (length all - i * max_edges_per_block) rest (omega arith),
          take-past max_edges_per_block rest (ground (arith, left)),
        )
        | inr many ↦ ground arith
      ] in
    let next : drop max_edges_per_block rest ≡ drop (suc i * max_edges_per_block) all =
      drop-drop max_edges_per_block (i * max_edges_per_block) (suc i * max_edges_per_block) all
        (omega arith) in
    ap (λ ys. ys ++ drop (suc i * max_edges_per_block) all) whole
    ∙ (ap (λ ys. take max_edges_per_block rest ++ ys) (sym next)
        ∙ take-drop max_edges_per_block rest)

concat-pieces :
    (all : List AdjListMember) (n i : ℕ)
    → length all ≤ (i + n) * max_edges_per_block
    → concat (pieces all n i) ≡ drop (i * max_edges_per_block) all
concat-pieces all zero i h = sym (drop-past (i * max_edges_per_block) all (omega arith))
concat-pieces all (suc n) i h =
    ap (λ ys. piece all i ++ ys) (concat-pieces all n (suc i) (omega arith)) ∙ piece-drop all i

length-pieces : (all : List AdjListMember) (n i : ℕ) → length (pieces all n i) ≡ n
length-pieces all zero i = refl
length-pieces all (suc n) i = ap suc (length-pieces all n (suc i))

module _ (pg : PageOps ArrayListRecord) (fxid cid array_oid : ℕ) (zeroed : AdjListMember) where
  -- A list of members that is not empty becomes a doubly linked chain of fresh blocks, as few as
  -- their size allows, that together hold the members in their order, that hang on the given
  -- previous entry and that end in the given next one; no block that was there is changed. This
  -- holds if an empty page has room for a full block and every line pointer is in use.
  pub insert_chunked_arraylist-Segment :
      (rel : Rel pg) (vertex_id : ℕ) (adj : AdjList) (prev_tbl : ℕ) (prev downstream : Tid)
      → 8132 ≤ pg.free_space pg.empty
      → RelNormal pg rel
      → IsAdjList adj
      → 0 < adj.nitems
      → (rel' : Rel pg) × (t : Tid) × (cs : List (List AdjListMember)) × (insert_chunked_arraylist
            pg fxid cid array_oid zeroed rel vertex_id adj prev_tbl prev downstream
          ≡ ok (rel', t))
        × (concat cs ≡ members adj)
        × (length cs ≡ (adj.nitems + max_edges_per_block - 1) / max_edges_per_block)
        × Segment pg fxid cid array_oid rel rel' vertex_id prev_tbl
            (stored prev)
            cs
            t
            (stored downstream)
        × ((u : Tid)
            → elim (fetch pg rel u) [ none ↦ fetch pg rel' u | some r ↦ some r ] ≡ fetch pg rel' u)
  unfolding insert_chunked_arraylist
  insert_chunked_arraylist-Segment rel vertex_id adj prev_tbl prev downstream fits normal w pos =
      let n = (adj.nitems - 1) / max_edges_per_block in
      let chunks : (adj.nitems + max_edges_per_block - 1) / max_edges_per_block ≡ suc n =
        omega arith in
      let len : length (members adj) ≡ adj.nitems =
        length-take adj.nitems adj.slots (omega (arith, w.within, w.allocated)) in
      let (rel', t, e, r) =
        chunks-Inserted pg fxid cid array_oid fits zeroed vertex_id (members adj) downstream n 0 rel
          prev_tbl prev none normal tt (omega arith) in
      (
        rel',
        t,
        pieces (members adj) (suc n) 0,
        ground (arith, chunks, e),
        concat-pieces (members adj) (suc n) 0 (omega arith),
        length-pieces (members adj) (suc n) 0 ∙ sym chunks,
        r.chain,
        r.kept,
      )
