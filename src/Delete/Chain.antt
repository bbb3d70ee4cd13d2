-- ===== src/Delete/Chain.antt =====
-- The adjacency of a vertex as a finite chain of nodes, and what a change of one node does to it.
use neo_post_graph.Common.{
  ℕ, suc, ◌<◌, ◌≡◌, ◌≢◌, refl, sym, ap, ◌∙◌, ◌==◌, Bool, true, false, not, ◌&&◌, Option, some, List,
  [], ◌∷◌, ◌++◌, if◌then◌else◌, length, arith, Bool-cases, inl, inr,
}
use mathlib.Core.Path.{subst}
use neo_post_graph.Storage.{Tid, tid_is_valid}
use neo_post_graph.AdjList.{AdjListMember}

-- The entries that stand at one address, and the address of the next ones.
pub record Node : Type 0 where
  pub entries : List AdjListMember
  pub next_tbl : ℕ
  pub next : Tid

abbrev pub is_place : ℕ → Tid → Bool
is_place tbl t = tid_is_valid t && not (tbl == 0)

abbrev pub same_place : ℕ → Tid → ℕ → Tid → Bool
same_place tbl t tbl' t' = tbl == tbl' && (t.block == t'.block && t.offset == t'.offset)

-- All entries of a chain, in order.
abbrev pub all_entries : List Node → List AdjListMember
all_entries [] = []
all_entries (n ∷ ns) = n.entries ++ all_entries ns

-- The nodes that a walk from an address meets, up to one that is no address.
abbrev pub IsChain : (ℕ → Tid → Option Node) → ℕ → Tid → List Node → Type 0
IsChain node tbl t [] = is_place tbl t ≡ false
IsChain node tbl t (n ∷ ns) =
    (is_place tbl t ≡ true) × (node tbl t ≡ some n) × IsChain node n.next_tbl n.next ns

module _ (node : ℕ → Tid → Option Node) where
  IsChain-unique :
      (tbl : ℕ) (t : Tid) (ns ms : List Node)
      → IsChain node tbl t ns
      → IsChain node tbl t ms
      → length ns ≡ length ms
  IsChain-unique tbl t [] [] c d = refl
  IsChain-unique tbl t [] (m ∷ ms) c d = cc (c, d.0)
  IsChain-unique tbl t (n ∷ ns) [] c d = cc (c.0, d)
  IsChain-unique tbl t (n ∷ ns) (m ∷ ms) (p, e, c) (q, f, d) =
      let same : n ≡ m = cc in
      let d' : IsChain node n.next_tbl n.next ms =
        subst (λ (k : Node). IsChain node k.next_tbl k.next ms) (sym same) d in
      omega (arith, IsChain-unique n.next_tbl n.next ns ms c d')

  -- Two chains of different lengths start at different addresses.
  IsChain-ne :
      (tbl : ℕ) (t : Tid) (ns : List Node) (tbl' : ℕ) (t' : Tid) (ms : List Node)
      → IsChain node tbl t ns
      → IsChain node tbl' t' ms
      → length ns ≢ length ms
      → same_place tbl t tbl' t' ≡ false
  IsChain-ne tbl t ns tbl' t' ms c d ne = elim (Bool-cases (same_place tbl t tbl' t')) [
    | inr e ↦ e
    | inl e ↦
        let same_tbl : tbl' ≡ tbl = ground arith in
        let same_tid : t' ≡ t = ground arith in
        absurd (
          ne (
            IsChain-unique tbl t ns ms c (
              subst (λ k. IsChain node k t ms) same_tbl
                (subst (λ u. IsChain node tbl' u ms) same_tid d))))
  ]

-- `node'` differs from `node` in the node at one address.
abbrev pub IsChanged : (ℕ → Tid → Option Node) → (ℕ → Tid → Option Node) → ℕ → Tid → Node → Type 0
IsChanged node node' tbl t n =
    (u_tbl : ℕ) (u : Tid)
    → node' u_tbl u ≡ (if same_place u_tbl u tbl t then some n else node u_tbl u)

module _ (node node' : ℕ → Tid → Option Node) (tbl : ℕ) (t : Tid) (full : List Node) (n : Node)
    (chain : IsChain node tbl t full) (changed : IsChanged node node' tbl t n) where
  -- A chain that is shorter than the one from the changed address does not meet it.
  pub IsChain-keep :
      (u_tbl : ℕ) (u : Tid) (ns : List Node)
      → length ns < length full
      → IsChain node u_tbl u ns
      → IsChain node' u_tbl u ns
  IsChain-keep u_tbl u [] lt c = c
  IsChain-keep u_tbl u (m ∷ ns) lt c =
      let differs : same_place u_tbl u tbl t ≡ false =
        IsChain-ne node u_tbl u (m ∷ ns) tbl t full c chain (omega arith) in
      (
        c.0,
        ground (arith, changed u_tbl u, c.1),
        IsChain-keep m.next_tbl m.next ns (omega arith) c.2,
      )

  -- A node of a longer chain stays as it was.
  pub IsChain-before :
      (u_tbl : ℕ) (u : Tid) (m : Node) (ns : List Node)
      → length full < length (m ∷ ns)
      → IsChain node u_tbl u (m ∷ ns)
      → node' u_tbl u ≡ some m
  IsChain-before u_tbl u m ns lt c =
      let differs : same_place u_tbl u tbl t ≡ false =
        IsChain-ne node u_tbl u (m ∷ ns) tbl t full c chain (omega arith) in
      ground (arith, changed u_tbl u, c.1)

-- If the changed node leads on to the same address, every chain keeps its addresses.
module _ (node node' : ℕ → Tid → Option Node) (tbl : ℕ) (t : Tid) (n n' : Node)
    (here : node tbl t ≡ some n) (same_tbl : n'.next_tbl ≡ n.next_tbl)
    (same_next : n'.next ≡ n.next) (changed : IsChanged node node' tbl t n') where
  node-replace :
      (u_tbl : ℕ) (u : Tid) (m : Node)
      → node u_tbl u ≡ some m
      → (m' : Node) × (node' u_tbl u ≡ some m') × (m'.next_tbl ≡ m.next_tbl) × (m'.next ≡ m.next)
  node-replace u_tbl u m e = elim (Bool-cases (same_place u_tbl u tbl t)) [
    | inr differs ↦ (m, ground (arith, changed u_tbl u), refl, refl)
    | inl same ↦
        let is_tbl : u_tbl ≡ tbl = ground arith in
        let is_tid : u ≡ t = ground arith in
        let is : n ≡ m = cc in
        (
          n',
          ground (arith, changed u_tbl u),
          same_tbl ∙ ap (λ (k : Node). k.next_tbl) is,
          same_next ∙ ap (λ (k : Node). k.next) is,
        )
  ]

  pub IsChain-replace :
      (u_tbl : ℕ) (u : Tid) (ms : List Node)
      → IsChain node u_tbl u ms
      → (ms' : List Node) × (length ms' ≡ length ms) × IsChain node' u_tbl u ms'
  IsChain-replace u_tbl u [] c = ([], refl, c)
  IsChain-replace u_tbl u (m ∷ ms) (p, e, c) =
      let (m', e', f, g) = node-replace u_tbl u m e in
      let (ms', l, c') = IsChain-replace m.next_tbl m.next ms c in
      (
        m' ∷ ms',
        ap suc l,
        (
          p,
          e',
          subst (λ k. IsChain node' k m'.next ms') (sym f)
              (subst (λ v. IsChain node' m.next_tbl v ms') (sym g) c'),
        ),
      )
