-- ===== src/AdjList/Tests.antt =====
-- Runs of the adjacency lists, and their theorems at concrete lists.
use neo_post_graph.Common.{
  ℕ, ◌+◌, ◌-◌, ◌/◌, ◌≡◌, refl, none, some, List, [], ◌∷◌, ◌++◌, arith, length, replicate,
}
use neo_post_graph.Storage.{Tid, tid, invalid_tid, ok, Rel, fetch}
use neo_post_graph.AdjList.{
  AdjListMember, AdjList, ArrayListRecord, max_edges_per_block, append_adj_list, append_all,
  members, insert_chunked_arraylist,
}
use neo_post_graph.AdjList.Grow.{IsAdjList, append_all-IsAdjList}
use neo_post_graph.AdjList.Chain.{stored, Segment}
use neo_post_graph.AdjList.Chain.Cut.{concat, insert_chunked_arraylist-Segment}
use neo_post_graph.Sample.{sample_pages, RelNormal-none}

abbrev member : ℕ → AdjListMember
member e = record {
  edge_id = e;
  edge_lid = 1;
  other_id = 2;
  other_lid = 3;
  dir = 0;
  header = record { xmin = 3; xmax = 0; cmin = 0; cmax = 0 };
  flags = 0;
}

-- A list that is full.
abbrev full_list : AdjList
full_list = record { nitems = 1; maxitems = 1; slots = member 4 ∷ [] }

full_list-IsAdjList : IsAdjList full_list
full_list-IsAdjList = record { some_room = omega arith; within = omega arith; allocated = refl }

block_of_155 : max_edges_per_block ≡ 155
block_of_155 = refl

append_run :
    append_all (member 0) full_list (member 5 ∷ member 6 ∷ [])
    ≡ ok (record {
      nitems = 3;
      maxitems = 4;
      slots = member 4 ∷ member 5 ∷ member 6 ∷ member 0 ∷ [];
    })
unfolding append_all append_adj_list
append_run = refl

append_all-IsAdjList_example :
    (l : AdjList) × (append_all (member 0) full_list (member 5 ∷ member 6 ∷ []) ≡ ok l)
    × IsAdjList l
    × (l.nitems ≡ 1 + 2)
    × (members l ≡ members full_list ++ (member 5 ∷ member 6 ∷ []))
append_all-IsAdjList_example =
    append_all-IsAdjList (member 0) full_list (member 5 ∷ member 6 ∷ []) full_list-IsAdjList
      (omega arith)

-- A list of 156 members, one more than a block takes.
abbrev long_list : AdjList
long_list = record { nitems = 156; maxitems = 156; slots = replicate 156 (member 4) }

long_list-IsAdjList : IsAdjList long_list
long_list-IsAdjList = record { some_room = omega arith; within = omega arith; allocated = refl }

insert_chunked_arraylist-Segment_example :
    (rel' : Rel (sample_pages ArrayListRecord)) × (t : Tid) × (cs : List (List AdjListMember))
    × (insert_chunked_arraylist
          (sample_pages ArrayListRecord)
          7
          2
          99
          (member 0)
          []
          11
          long_list
          0
          invalid_tid
          (tid 3 1)
        ≡ ok (rel', t))
    × (concat cs ≡ members long_list)
    × (length cs ≡ (156 + max_edges_per_block - 1) / max_edges_per_block)
    × Segment
        (sample_pages ArrayListRecord)
        7
        2
        99
        []
        rel'
        11
        0
        (stored invalid_tid)
        cs
        t
        (stored (tid 3 1))
    × ((u : Tid)
        → elim (fetch (sample_pages ArrayListRecord) [] u) [
          | none ↦ fetch (sample_pages ArrayListRecord) rel' u
          | some r ↦ some r
        ]
          ≡ fetch (sample_pages ArrayListRecord) rel' u)
insert_chunked_arraylist-Segment_example =
    insert_chunked_arraylist-Segment (sample_pages ArrayListRecord) 7 2 99 (member 0) [] 11
      long_list 0 invalid_tid (tid 3 1) (omega arith)
      (RelNormal-none (sample_pages ArrayListRecord)) long_list-IsAdjList (omega arith)
