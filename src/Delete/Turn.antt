-- ===== src/Delete/Turn.antt =====
-- One turn of the walk of `np_delete_edge_from_adj_list`.
use neo_post_graph.Common.{
  ℕ, suc, ◌≡◌, refl, ◌==◌, true, false, Option, none, some, List, [], ◌∷◌, ◌++◌, if◌then◌else◌,
  arith, Bool-cases, Option-cases, inl, inr,
}
use mathlib.Core.Path.{subst}
use neo_post_graph.Storage.{Tid, PageOps, ok, fetch, store}
use neo_post_graph.Storage.Fetch.{fetch-store, fetch-block}
use neo_post_graph.PhysMap.{NeoPhysMapRecord}
use neo_post_graph.AdjList.{AdjListMember, ArrayListRecord}
use neo_post_graph.LinkedList.{LinkedListRecord, Tables, put_linked, put_arrays}
use neo_post_graph.Delete.{deleted_header, is_target, mark_member, unlink_walk}
use neo_post_graph.Delete.Chain.{Node, is_place, IsChanged}

-- A linked list's entry as a member of an array list, as the compaction also reads it.
abbrev pub member_of : LinkedListRecord → AdjListMember
member_of r = record {
  edge_id = r.id;
  edge_lid = r.edge_lid;
  other_id = r.other_id;
  other_lid = r.other_lid;
  dir = r.dir;
  header = r.header;
  flags = 0;
}

-- What a deletion does to the entries of a vertex.
abbrev pub mark_first : ℕ → ℕ → ℕ → List AdjListMember → List AdjListMember
mark_first fxid cid target ms = elim (mark_member fxid cid target ms) [ none ↦ ms | some ms' ↦ ms' ]

module _ (fxid cid target : ℕ) where
  pub mark_member-skip :
      (xs ys : List AdjListMember)
      → mark_member fxid cid target xs ≡ none
      → mark_first fxid cid target (xs ++ ys) ≡ xs ++ mark_first fxid cid target ys
  unfolding mark_member
  mark_member-skip [] ys h = refl
  mark_member-skip (x ∷ xs) ys h = ground (arith, mark_member-skip xs ys)

  pub mark_member-append :
      (xs ys xs' : List AdjListMember)
      → mark_member fxid cid target xs ≡ some xs'
      → mark_member fxid cid target (xs ++ ys) ≡ some (xs' ++ ys)
  unfolding mark_member
  mark_member-append [] ys xs' h = cc
  mark_member-append (x ∷ xs) ys xs' h = elim (Bool-cases (is_target target x)) [
    | inl e ↦ ground arith
    | inr e ↦ elim (Option-cases (mark_member fxid cid target xs)) [
      | inl f ↦ absurd (ground arith)
      | inr (zs, f) ↦ ground (arith, mark_member-append xs ys zs f)
    ]
  ]

module _ (pl : PageOps LinkedListRecord) (pa : PageOps ArrayListRecord)
    (pm : PageOps NeoPhysMapRecord) where
  -- The node at an address, by the number of columns of its table.
  unfoldable pub node_at : Tables pl pa pm → ℕ → Tid → Option Node
  node_at ts tbl t =
      if ts.natts tbl == 10
      then elim (fetch pl (ts.linked tbl) t) [
        | none ↦ none
        | some r ↦
            some
              (record { entries = member_of r ∷ []; next_tbl = r.next_tbl; next = r.next_itemptr })
      ]
      else if ts.natts tbl == 5
      then elim (fetch pa (ts.arrays tbl) t) [
        | none ↦ none
        | some r ↦
            some (record { entries = r.adj_list_data; next_tbl = tbl; next = r.next_itemptr })
      ]
      else none

  module _ (fxid cid target : ℕ) where
    -- One turn of the walk, on a node: it is marked, or the walk goes on behind it.
    pub record Turn (turns : ℕ) (ts : Tables pl pa pm) (tbl : ℕ) (t : Tid) (n : Node) : Type 0 where
      pub hit :
          (es : List AdjListMember)
          → mark_member fxid cid target n.entries ≡ some es
          → (ts' : Tables pl pa pm) × (unlink_walk pl pa pm fxid cid target (suc turns) ts tbl t
              ≡ ok ts')
            × IsChanged (node_at ts) (node_at ts') tbl t (record n { entries = es })
      pub miss :
          mark_member fxid cid target n.entries ≡ none
          → unlink_walk pl pa pm fxid cid target (suc turns) ts tbl t
            ≡ unlink_walk pl pa pm fxid cid target turns ts n.next_tbl n.next

    module _ (turns : ℕ) (ts : Tables pl pa pm) (tbl : ℕ) (t : Tid)
        (place : is_place tbl t ≡ true) where
      linked-IsChanged :
          (r r' : LinkedListRecord)
          → ts.natts tbl == 10 ≡ true
          → fetch pl (ts.linked tbl) t ≡ some r
          → IsChanged
              (node_at ts)
              (node_at (put_linked pl pa pm tbl (store pl (ts.linked tbl) t r') ts))
              tbl
              t
              (record {
                entries = member_of r' ∷ [];
                next_tbl = r'.next_tbl;
                next = r'.next_itemptr;
              })
      unfolding node_at
      linked-IsChanged r r' ten e u_tbl u = elim (Bool-cases (u_tbl == tbl)) [
        | inl same ↦
            let is : u_tbl ≡ tbl = ground arith in
            rw is (ground (arith, fetch-store pl (ts.linked tbl) t r' r u e))
        | inr differs ↦ ground arith
      ]

      linked-Turn :
          (r : LinkedListRecord)
          → ts.natts tbl == 10 ≡ true
          → fetch pl (ts.linked tbl) t ≡ some r
          → Turn turns ts tbl t
              (record { entries = member_of r ∷ []; next_tbl = r.next_tbl; next = r.next_itemptr })
      unfolding unlink_walk
      linked-Turn r ten e =
          let (p, b) = fetch-block pl (ts.linked tbl) t r e in
          let r' : LinkedListRecord = record r { header = deleted_header fxid cid r.header } in
          record {
            hit = λ es h.
                let is : member_of r' ∷ [] ≡ es = ground arith in
                (
                  put_linked pl pa pm tbl (store pl (ts.linked tbl) t r') ts,
                  ground arith,
                  subst
                      (λ ms.
                        IsChanged (node_at ts)
                          (node_at (put_linked pl pa pm tbl (store pl (ts.linked tbl) t r') ts)) tbl
                          t (record { entries = ms; next_tbl = r.next_tbl; next = r.next_itemptr }))
                      is (linked-IsChanged r r' ten e),
                );
            miss = λ h. ground arith;
          }

      array-IsChanged :
          (r r' : ArrayListRecord)
          → ts.natts tbl == 10 ≡ false
          → ts.natts tbl == 5 ≡ true
          → fetch pa (ts.arrays tbl) t ≡ some r
          → IsChanged
              (node_at ts)
              (node_at (put_arrays pl pa pm tbl (store pa (ts.arrays tbl) t r') ts))
              tbl
              t
              (record { entries = r'.adj_list_data; next_tbl = tbl; next = r'.next_itemptr })
      unfolding node_at
      array-IsChanged r r' not_ten five e u_tbl u = elim (Bool-cases (u_tbl == tbl)) [
        | inl same ↦
            let is : u_tbl ≡ tbl = ground arith in
            rw is (ground (arith, fetch-store pa (ts.arrays tbl) t r' r u e))
        | inr differs ↦ ground arith
      ]

      array-Turn :
          (r : ArrayListRecord)
          → ts.natts tbl == 10 ≡ false
          → ts.natts tbl == 5 ≡ true
          → fetch pa (ts.arrays tbl) t ≡ some r
          → Turn turns ts tbl t
              (record { entries = r.adj_list_data; next_tbl = tbl; next = r.next_itemptr })
      unfolding unlink_walk
      array-Turn r not_ten five e =
          let (p, b) = fetch-block pa (ts.arrays tbl) t r e in
          record {
            hit = λ es h. (
              put_arrays pl pa pm tbl (store pa (ts.arrays tbl) t (record r { adj_list_data = es }))
                  ts,
              ground arith,
              array-IsChanged r (record r { adj_list_data = es }) not_ten five e,
            );
            miss = λ h. ground arith;
          }

      pub node_at-Turn : (n : Node) → node_at ts tbl t ≡ some n → Turn turns ts tbl t n
      unfolding node_at
      node_at-Turn n e = elim (Bool-cases (ts.natts tbl == 10)) [
        | inl ten ↦ elim (Option-cases (fetch pl (ts.linked tbl) t)) [
          | inl f ↦ absurd (ground arith)
          | inr (r, f) ↦
              let is : record {
                entries = member_of r ∷ [];
                next_tbl = r.next_tbl;
                next = r.next_itemptr;
              }
                  ≡ n =
                ground arith in
              subst (Turn turns ts tbl t) is (linked-Turn r ten f)
        ]
        | inr not_ten ↦ elim (Bool-cases (ts.natts tbl == 5)) [
          | inl five ↦ elim (Option-cases (fetch pa (ts.arrays tbl) t)) [
            | inl f ↦ absurd (ground arith)
            | inr (r, f) ↦
                let is : record { entries = r.adj_list_data; next_tbl = tbl; next = r.next_itemptr }
                    ≡ n =
                  ground arith in
                subst (Turn turns ts tbl t) is (array-Turn r not_ten five f)
          ]
          | inr not_five ↦ absurd (ground arith)
        ]
      ]
