-- ===== src/Delete/Collect.antt =====
-- The walk of `delete_vertex`, which collects the edges to delete or refuses to delete the vertex.
use neo_post_graph.Common.{
  ℕ, zero, suc, ◌<◌, ◌≡◌, ◌≢◌, ◌⊎◌, refl, sym, ap, ◌∙◌, ◌==◌, Bool, true, false, Option, none, some,
  List, [], ◌∷◌, ◌++◌, if◌then◌else◌, arith, Bool-cases, Option-cases, inl, inr,
}
use mathlib.Core.List.{append_assoc, append-nil}
use mathlib.Core.Path.{subst}
use neo_post_graph.Storage.{
  Tid, invalid_tid, PageOps, Outcome, ok, err, hang, ◌>>=◌, active_edges, fetch,
}
use neo_post_graph.Storage.Fetch.{fetch-block}
use neo_post_graph.PhysMap.{NeoPhysMapRecord}
use neo_post_graph.AdjList.{AdjListMember, ArrayListRecord}
use neo_post_graph.LinkedList.{LinkedListRecord, Tables}
use neo_post_graph.Delete.{
  undeleted, Collected, collect_linked, collect_member, collect_members, collect_walk,
}
use neo_post_graph.Delete.Chain.{Node, is_place}
use neo_post_graph.Delete.Turn.{member_of}

-- The edges that the entries name and no transaction has deleted.
abbrev pub live_edges : List AdjListMember → List (ℕ × ℕ)
live_edges [] = []
live_edges (m ∷ ms) =
    if undeleted m.header then (m.edge_id, m.edge_lid) ∷ live_edges ms else live_edges ms

pub List-cases {ℓ} :
    {A : Type ℓ} (xs : List A) → (xs ≡ []) ⊎ ((x : A) × (ys : List A) × (xs ≡ x ∷ ys))
List-cases [] = inl refl
List-cases (x ∷ ys) = inr (x, ys, refl)

bind_congr :
    (m : Outcome Collected) (f g : Collected → Outcome Collected)
    → ((c : Collected) → f c ≡ g c)
    → (m >>= f) ≡ (m >>= g)
bind_congr (ok c) f g h = h c
bind_congr (err e) f g h = refl
bind_congr hang f g h = refl

pub live_edges-append :
    (xs ys : List AdjListMember) → live_edges (xs ++ ys) ≡ live_edges xs ++ live_edges ys
live_edges-append [] ys = refl
live_edges-append (x ∷ xs) ys = ground (arith, live_edges-append xs ys)

collect_members_none :
    (detach : Bool) (c : Collected) (ms : List AdjListMember)
    → live_edges ms ≡ []
    → collect_members detach c ms ≡ ok c
unfolding collect_members
collect_members_none detach c [] h = refl
collect_members_none detach c (m ∷ ms) h = elim (Bool-cases (undeleted m.header)) [
  | inl live ↦ absurd (ground arith)
  | inr dead ↦ ground (arith, collect_members_none detach c ms)
]

collect_members_refused :
    (c : Collected) (ms : List AdjListMember) (e : ℕ × ℕ) (es : List (ℕ × ℕ))
    → live_edges ms ≡ e ∷ es
    → collect_members false c ms ≡ err active_edges
unfolding collect_members
collect_members_refused c [] e es h = cc
collect_members_refused c (m ∷ ms) e es h = elim (Bool-cases (undeleted m.header)) [
  | inl live ↦ ground arith
  | inr dead ↦ ground (arith, collect_members_refused c ms e es)
]

-- With an allocation, everything is collected.
collect_linked_lem :
    (c : Collected) (e : ℕ × ℕ)
    → ((collect_linked c e).edges ≡ c.edges ++ (e ∷ [])) × ((collect_linked c e).max_edges ≢ 0)
unfolding collect_linked
collect_linked_lem c e = (refl, λ h. ground arith)

collect_members_all :
    (c : Collected) (ms : List AdjListMember)
    → c.max_edges ≢ 0
    → (c' : Collected) × (collect_members true c ms ≡ ok c')
      × (c'.edges ≡ c.edges ++ live_edges ms)
      × (c'.max_edges ≢ 0)
unfolding collect_members collect_member
collect_members_all c [] h = (c, refl, sym (append-nil c.edges), h)
collect_members_all c (m ∷ ms) h = elim (Bool-cases (undeleted m.header)) [
  | inl live ↦
      let (edges, alloc) = collect_linked_lem c (m.edge_id, m.edge_lid) in
      let (c', e, all, pos) =
        collect_members_all (collect_linked c (m.edge_id, m.edge_lid)) ms alloc in
      (
        c',
        ground arith,
        rw (live, all, edges) (append_assoc c.edges ((m.edge_id, m.edge_lid) ∷ []) (live_edges ms)),
        pos,
      )
  | inr dead ↦
      let (c', e, all, pos) = collect_members_all c ms h in (c', ground arith, rw dead all, pos)
]

module _ (pl : PageOps LinkedListRecord) (pa : PageOps ArrayListRecord)
    (pm : PageOps NeoPhysMapRecord)
    (deform : ArrayListRecord → Option (List AdjListMember) × Option Tid) (arraylist : ℕ) where
  -- The node at an address as `delete_vertex` reads it.
  unfoldable pub vertex_node : Tables pl pa pm → ℕ → Tid → Option Node
  vertex_node ts tbl t =
      if tbl == arraylist
      then elim (fetch pa (ts.arrays tbl) t) [
        | none ↦ none
        | some r ↦ some (record {
          entries = elim (deform r).0 [ none ↦ [] | some ms ↦ ms ];
          next_tbl = tbl;
          next = elim (deform r).1 [ none ↦ invalid_tid | some next ↦ next ];
        })
      ]
      else elim (fetch pl (ts.linked tbl) t) [
        | none ↦ none
        | some r ↦
            some
              (record { entries = member_of r ∷ []; next_tbl = r.next_tbl; next = r.next_itemptr })
      ]

  pub walk_end :
      (detach : Bool) (turns : ℕ) (ts : Tables pl pa pm) (tbl : ℕ) (t : Tid) (c : Collected)
      → 0 < turns
      → is_place tbl t ≡ false
      → collect_walk pl pa pm deform detach arraylist turns ts tbl t c ≡ ok c
  unfolding collect_walk
  walk_end detach zero ts tbl t c lt e = absurd (omega arith)
  walk_end detach (suc turns) ts tbl t c lt e = rw e refl

  module _ (turns : ℕ) (pos : 0 < turns) (ts : Tables pl pa pm) (tbl : ℕ) (t : Tid)
      (place : is_place tbl t ≡ true) where
    abbrev walk : Bool → ℕ → Tid → Collected → Outcome Collected
    walk detach = collect_walk pl pa pm deform detach arraylist turns ts

    -- One turn at an array list, as one at the node that it is.
    array_turn :
        (detach : Bool) (c : Collected) (r : ArrayListRecord)
        → tbl == arraylist ≡ true
        → fetch pa (ts.arrays tbl) t ≡ some r
        → collect_walk pl pa pm deform detach arraylist (suc turns) ts tbl t c ≡ (
            collect_members detach c (elim (deform r).0 [ none ↦ [] | some ms ↦ ms ])
            >>= walk detach tbl (elim (deform r).1 [ none ↦ invalid_tid | some next ↦ next ]))
    unfolding collect_walk
    array_turn detach c r array f =
        let (p, b) = fetch-block pa (ts.arrays tbl) t r f in
        elim (Option-cases (deform r).0) [
          | inl none_0 ↦ elim (Option-cases (deform r).1) [
            | inl none_1 ↦ ground (arith, walk_end detach turns ts tbl invalid_tid c)
            | inr (next, some_1) ↦ ground arith
          ]
          | inr (ms, some_0) ↦ elim (Option-cases (deform r).1) [
            | inl none_1 ↦
                rw (some_0, none_1)
                  (rw (place, array, b, f, some_0, none_1, collect_walk)
                    (bind_congr (collect_members detach c ms) (λ c'. ok c')
                      (walk detach tbl invalid_tid)
                      (λ c'. sym (walk_end detach turns ts tbl invalid_tid c' pos refl))))
            | inr (next, some_1) ↦ ground arith
          ]
        ]

    module _ (n : Node) (here : vertex_node ts tbl t ≡ some n) where
      array_node :
          (detach : Bool) (c : Collected)
          → tbl == arraylist ≡ true
          → collect_walk pl pa pm deform detach arraylist (suc turns) ts tbl t c
            ≡ (collect_members detach c n.entries >>= walk detach n.next_tbl n.next)
      unfolding vertex_node
      array_node detach c array = elim (Option-cases (fetch pa (ts.arrays tbl) t)) [
        | inl f ↦ absurd (ground arith)
        | inr (r, f) ↦
            let is : record {
              entries = elim (deform r).0 [ none ↦ [] | some ms ↦ ms ];
              next_tbl = tbl;
              next = elim (deform r).1 [ none ↦ invalid_tid | some next ↦ next ];
            }
                ≡ n =
              ground arith in
            subst
              (λ (k : Node).
                collect_walk pl pa pm deform detach arraylist (suc turns) ts tbl t c
                ≡ (collect_members detach c k.entries >>= walk detach k.next_tbl k.next))
              is (array_turn detach c r array f)
      ]

      pub node_quiet :
          (detach : Bool) (c : Collected)
          → live_edges n.entries ≡ []
          → collect_walk pl pa pm deform detach arraylist (suc turns) ts tbl t c
            ≡ walk detach n.next_tbl n.next c
      unfolding collect_walk vertex_node
      node_quiet detach c quiet = elim (Bool-cases (tbl == arraylist)) [
        | inl array ↦
            array_node detach c array
            ∙ ap (λ m. m >>= walk detach n.next_tbl n.next)
                (collect_members_none detach c n.entries quiet)
        | inr linked ↦ elim (Option-cases (fetch pl (ts.linked tbl) t)) [
          | inl f ↦ absurd (ground arith)
          | inr (r, f) ↦ let (p, b) = fetch-block pl (ts.linked tbl) t r f in ground arith
        ]
      ]

      pub node_refused :
          (c : Collected) (e : ℕ × ℕ) (es : List (ℕ × ℕ))
          → live_edges n.entries ≡ e ∷ es
          → collect_walk pl pa pm deform false arraylist (suc turns) ts tbl t c ≡ err active_edges
      unfolding collect_walk vertex_node
      node_refused c e es live = elim (Bool-cases (tbl == arraylist)) [
        | inl array ↦
            array_node false c array
            ∙ ap (λ m. m >>= walk false n.next_tbl n.next)
                (collect_members_refused c n.entries e es live)
        | inr linked ↦ elim (Option-cases (fetch pl (ts.linked tbl) t)) [
          | inl f ↦ absurd (ground arith)
          | inr (r, f) ↦ let (p, b) = fetch-block pl (ts.linked tbl) t r f in ground arith
        ]
      ]

      -- A linked list's entry can also be the first to be collected.
      pub linked_all :
          (c : Collected)
          → tbl == arraylist ≡ false
          → live_edges n.entries ≢ []
          → (c' : Collected) × (collect_walk pl pa pm deform true arraylist (suc turns) ts tbl t c
              ≡ walk true n.next_tbl n.next c')
            × (c'.edges ≡ c.edges ++ live_edges n.entries)
            × (c'.max_edges ≢ 0)
      unfolding collect_walk vertex_node
      linked_all c linked live = elim (Option-cases (fetch pl (ts.linked tbl) t)) [
        | inl f ↦ absurd (ground arith)
        | inr (r, f) ↦
            let (p, b) = fetch-block pl (ts.linked tbl) t r f in
            let (edges, alloc) = collect_linked_lem c (r.id, r.edge_lid) in
            (collect_linked c (r.id, r.edge_lid), ground arith, ground arith, alloc)
      ]

      pub node_all :
          (c : Collected)
          → c.max_edges ≢ 0
          → (c' : Collected) × (collect_walk pl pa pm deform true arraylist (suc turns) ts tbl t c
              ≡ walk true n.next_tbl n.next c')
            × (c'.edges ≡ c.edges ++ live_edges n.entries)
            × (c'.max_edges ≢ 0)
      node_all c alloc = elim (Bool-cases (tbl == arraylist)) [
        | inl array ↦
            let (c', e, edges, alloc') = collect_members_all c n.entries alloc in
            (
              c',
              array_node true c array ∙ ap (λ m. m >>= walk true n.next_tbl n.next) e,
              edges,
              alloc',
            )
        | inr linked ↦ elim (List-cases (live_edges n.entries)) [
          | inl quiet ↦ (c, node_quiet true c quiet, sym (rw quiet (append-nil c.edges)), alloc)
          | inr (e, es, live) ↦ linked_all c linked (λ none_live. cc)
        ]
      ]
