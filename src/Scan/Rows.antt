-- ===== src/Scan/Rows.antt =====
-- What a scan returns.
use neo_post_graph.Common.{
  ℕ, zero, suc, ◌+◌, ◌-◌, ◌≤◌, ◌<◌, ◌≡◌, refl, ap, ◌⊎◌, Bool, Option, none, some, List, [], ◌∷◌,
  ◌++◌, if◌then◌else◌, length, get_elem?, drop, arith, get_elem?_lt, get_elem?-append_left,
  Bool-cases, Option-cases, inl, inr,
}
use mathlib.Core.Path.{subst₂}
use neo_post_graph.Storage.{Tid, tid, PageOps, Outcome, ok, Rel}
use neo_post_graph.Scan.{ScanDesc, scan_begin, scan_page, scan_blocks, getnextslot, drain}

module _ {I : Type 0} (visible : I → Bool) where
  -- The visible items of block `b` behind line pointers that begin at offset `suc k`.
  abbrev pub page_rows : ℕ → ℕ → List (Option I) → List (I × Tid)
  page_rows b k [] = []
  page_rows b k (none ∷ ss) = page_rows b (suc k) ss
  page_rows b k (some i ∷ ss) =
      let rest = page_rows b (suc k) ss in if visible i then (i, tid b (suc k)) ∷ rest else rest

  drop-get_elem? {ℓ} :
      {A : Type ℓ} (xs : List A) (k : ℕ) (v : A)
      → get_elem? xs k ≡ some v
      → drop k xs ≡ v ∷ drop (suc k) xs
  drop-get_elem? [] k v h = cc
  drop-get_elem? (x ∷ xs) zero v h = ground arith
  drop-get_elem? (x ∷ xs) (suc k) v h = drop-get_elem? xs k v h

  drop-all {ℓ} : {A : Type ℓ} (xs : List A) (k : ℕ) → length xs ≤ k → drop k xs ≡ []
  drop-all [] zero h = refl
  drop-all [] (suc k) h = refl
  drop-all (x ∷ xs) zero h = absurd (omega arith)
  drop-all (x ∷ xs) (suc k) h = drop-all xs k (omega arith)

  -- Of a page's remaining rows: there are none and none was found, or the first one was found and
  -- the rest follows its offset.
  abbrev PageStep : ℕ → List (Option I) → Option (I × ℕ) → List (I × Tid) → Type 0
  PageStep b ss found rows =
      ((found ≡ none) × (rows ≡ []))
      ⊎ ((i : I) × (o : ℕ) × (found ≡ some (i, suc o))
          × (rows ≡ (i, tid b (suc o)) ∷ page_rows b (suc o) (drop (suc o) ss)))

  pub scan_page-rows :
      (b : ℕ) (ss : List (Option I)) (n k : ℕ)
      → length ss - k ≡ n
      → PageStep b ss (scan_page visible ss n (suc k)) (page_rows b k (drop k ss))
  unfolding scan_page
  scan_page-rows b ss zero k h = inl (refl, ap (page_rows b k) (drop-all ss k (omega arith)))
  scan_page-rows b ss (suc n) k h =
      let (s, e) = get_elem?_lt ss k (omega arith) in
      let split = drop-get_elem? ss k s e in
      let rest = scan_page-rows b ss n (suc k) (omega arith) in
      elim (Option-cases s) [
        | inl gone ↦ subst₂ (PageStep b ss) (ground arith) (ground arith) rest
        | inr (i, here) ↦ elim (Bool-cases (visible i)) [
          | inl shown ↦ inr (i, k, ground arith, ground arith)
          | inr hidden ↦ subst₂ (PageStep b ss) (ground arith) (ground arith) rest
        ]
      ]

  module _ (pg : PageOps I) where
    -- The visible items of blocks that begin at block `b`, in the order of their addresses.
    abbrev pub rel_rows : ℕ → Rel pg → List (I × Tid)
    rel_rows b [] = []
    rel_rows b (p ∷ ps) = page_rows b 0 (pg.slots p) ++ rel_rows (suc b) ps

    -- The rows from offset `suc k` of the first of these blocks on.
    abbrev rows_from : ℕ → ℕ → Rel pg → List (I × Tid)
    rows_from b k [] = []
    rows_from b k (p ∷ ps) = page_rows b k (drop k (pg.slots p)) ++ rel_rows (suc b) ps

    rows_from-zero : (b : ℕ) (ps : Rel pg) → rows_from b 0 ps ≡ rel_rows b ps
    rows_from-zero b [] = refl
    rows_from-zero b (p ∷ ps) = refl

    module _ (scanned later : Rel pg) where
      abbrev desc : ℕ → ℕ → ScanDesc
      desc b k = record { rs_nblocks = length scanned; curr_block = b; curr_offset = suc k }

      -- Of the remaining rows of a scan: there are none and the end was reported, or the first was
      -- returned and the rest follows the new position.
      abbrev ScanStep : Outcome (Option (I × Tid) × ScanDesc) → List (I × Tid) → Type 0
      ScanStep r rows =
          ((d : ScanDesc) × (r ≡ ok (none, d)) × (rows ≡ []))
          ⊎ ((row : I × Tid) × (b : ℕ) × (k : ℕ) × (r ≡ ok (some row, desc b k))
              × (b < length scanned)
              × (rows ≡ row ∷ rows_from b k (drop b scanned)))

      scan_blocks-rows :
          (n b k : ℕ)
          → n + b ≡ length scanned
          → ScanStep
              (scan_blocks visible pg (scanned ++ later) n (desc b k))
              (rows_from b k (drop b scanned))
      unfolding scan_blocks
      scan_blocks-rows zero b k h =
          inl (desc b k, refl, ap (rows_from b k) (drop-all scanned b (omega arith)))
      scan_blocks-rows (suc n) b k h =
          let (p, e) = get_elem?_lt scanned b (omega arith) in
          let split = drop-get_elem? scanned b p e in
          let at = get_elem?-append_left scanned later b (omega arith) in
          let rest = scan_blocks-rows n (suc b) 0 (omega arith) in
          elim (scan_page-rows b (pg.slots p) (length (pg.slots p) + 1 - suc k) k (omega arith)) [
            | inl (missed, no_rows) ↦
                let page : page_rows b k (drop k (pg.slots p))
                      ++ rel_rows (suc b) (drop (suc b) scanned)
                    ≡ rel_rows (suc b) (drop (suc b) scanned) =
                  ap (λ rs. rs ++ rel_rows (suc b) (drop (suc b) scanned)) no_rows in
                subst₂ ScanStep (ground arith)
                  (ground (arith, split, page, rows_from-zero (suc b) (drop (suc b) scanned))) rest
            | inr (i, o, found, rows) ↦
                inr ((i, tid b (suc o)), b, suc o, ground arith, omega arith, ground arith)
          ]

      drain-rows :
          (fuel b k : ℕ)
          → b ≤ length scanned
          → length (rows_from b k (drop b scanned)) < fuel
          → drain visible pg fuel (scanned ++ later) (desc b k)
            ≡ ok (rows_from b k (drop b scanned))
      unfolding drain getnextslot
      drain-rows zero b k le lt = absurd (omega arith)
      drain-rows (suc fuel) b k le lt =
          elim (scan_blocks-rows (length scanned - b) b k (omega arith)) [
            | inl (d, r, rows) ↦ ground arith
            | inr (row, b', k', r, le', rows) ↦ ground (arith, drain-rows fuel b' k' (omega arith))
          ]

    -- A scan returns the visible items of the blocks that the relation had when the scan began, each
    -- once and in the order of their addresses, and comes to its end, whatever blocks the relation
    -- has since got behind those.
    pub drain-eq-rows :
        (scanned later : Rel pg) (fuel : ℕ)
        → length (rel_rows 0 scanned) < fuel
        → drain visible pg fuel (scanned ++ later) (scan_begin visible pg scanned)
          ≡ ok (rel_rows 0 scanned)
    drain-eq-rows scanned later fuel lt =
        let from = rows_from-zero 0 scanned in
        ground (arith, drain-rows scanned later fuel 0 0 (omega arith))
