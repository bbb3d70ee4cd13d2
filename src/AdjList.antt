-- ===== src/AdjList.antt =====
-- Adjacency lists of src/backend/access/np_adj_list.c, and their blocks in the array list table of
-- src/backend/access/np_arraylist.c: lists that grow in memory, and chains of blocks on disk.
pub mod Grow
pub mod Chain
mod Tests
use neo_post_graph.Common.{
  ℕ, zero, suc, ◌+◌, ◌-◌, ◌*◌, ◌/◌, not, Option, none, some, List, [], ◌∷◌, ltb, leb, ◌==◌,
  if◌then◌else◌, length, get_elem?, set, replicate, take, drop, ◌++◌,
}
use neo_post_graph.Mvcc.{Header}
use neo_post_graph.Storage.{
  Tid, invalid_tid, tid_is_valid, PageOps, not_normal, no_block, invalid_alloc_size, wild_write,
  Outcome, ok, err, ◌>>=◌, Rel, fetch, store, write_record,
}

-- AdjListMember, packed into 52 bytes.
pub record AdjListMember : Type 0 where
  pub edge_id : ℕ
  pub edge_lid : ℕ
  pub other_id : ℕ
  pub other_lid : ℕ
  pub dir : ℕ
  pub header : Header
  pub flags : ℕ

abbrev pub size_of_member : ℕ
size_of_member = 52

-- The bytes of an AdjList before its members.
abbrev pub size_of_adj_list : ℕ
size_of_adj_list = 12

abbrev pub size_of_arraylist_record : ℕ
size_of_arraylist_record = 56

-- MaxHeapTupleSize.
abbrev pub max_heap_tuple_size : ℕ
max_heap_tuple_size = 8160

abbrev pub max_edges_per_block : ℕ
max_edges_per_block = (max_heap_tuple_size - size_of_arraylist_record) / size_of_member

-- An AdjList in memory: `slots` are the members that the allocation has room for.
pub record AdjList : Type 0 where
  pub nitems : ℕ
  pub maxitems : ℕ
  pub slots : List AdjListMember

-- palloc and repalloc of so many bytes, up to MaxAllocSize.
abbrev pub alloc : {A : Type 0} → ℕ → A → Outcome A
alloc bytes a = if leb bytes 1073741823 then ok a else err invalid_alloc_size

-- palloc0 leaves `zeroed` members; what repalloc adds is not initialised and is written before it
-- is read.
unfoldable pub init_adj_list : AdjListMember → ℕ → Outcome AdjList
init_adj_list zeroed capacity =
    alloc (size_of_adj_list + capacity * size_of_member)
      (record { nitems = 0; maxitems = capacity; slots = replicate capacity zeroed })

unfoldable pub append_adj_list : AdjListMember → AdjList → AdjListMember → Outcome AdjList
append_adj_list fresh list member = do
  grown ←
      (if leb list.maxitems list.nitems
        then alloc (size_of_adj_list + list.maxitems * 2 * size_of_member) (record {
          nitems = list.nitems;
          maxitems = list.maxitems * 2;
          slots = list.slots ++ replicate list.maxitems fresh;
        })
        else ok list)
  (if ltb grown.nitems (length grown.slots)
      then ok
          (record grown { nitems = suc grown.nitems; slots = set grown.slots grown.nitems member })
      else err wild_write)

unfoldable pub trim_adj_list : AdjList → AdjList
trim_adj_list list = record list { maxitems = list.nitems }

-- A loop that appends members one after the other.
unfoldable pub append_all : AdjListMember → AdjList → List AdjListMember → Outcome AdjList
append_all fresh list [] = ok list
append_all fresh list (m ∷ ms) = do list' ← append_adj_list fresh list m; append_all fresh list' ms

-- The members in use, as far as VARSIZE reaches.
abbrev pub members : AdjList → List AdjListMember
members list = take list.nitems list.slots

-- NeoArrayListRecord; the payload is the list without its varlena header.
pub record ArrayListRecord : Type 0 where
  pub header : Header
  pub flags : ℕ
  pub owner_id : ℕ
  pub prev_tbl : ℕ
  pub prev_itemptr : Tid
  pub next_itemptr : Tid
  pub adj_list_data : List AdjListMember

-- The size of the record with `n` members.
abbrev pub arraylist_record_size : ℕ → ℕ
arraylist_record_size n = size_of_arraylist_record + (size_of_adj_list - 4 + n * size_of_member)

module _ (pg : PageOps ArrayListRecord) (fxid cid array_oid : ℕ) where
  -- `nparraylist_tableam_tuple_insert`; a pointer that the slot gives as null is stored as invalid.
  unfoldable pub arraylist_insert :
      Rel pg → ℕ → ℕ → Option Tid → AdjList → Option Tid → Outcome (Rel pg × Tid)
  arraylist_insert rel owner prev_tbl prev_tid adj next_tid =
      let rec : ArrayListRecord = record {
        header = record { xmin = fxid; xmax = 0; cmin = cid; cmax = 4294967295 };
        flags = 0;
        owner_id = owner;
        prev_tbl = prev_tbl;
        prev_itemptr = elim prev_tid [ none ↦ invalid_tid | some t ↦ t ];
        next_itemptr = elim next_tid [ none ↦ invalid_tid | some t ↦ t ];
        adj_list_data = members adj;
      } in
      write_record pg none rel rec (arraylist_record_size adj.nitems)

  -- `np_insert_arraylist_block`: an invalid pointer is given as null.
  unfoldable pub insert_arraylist_block :
      Rel pg → ℕ → AdjList → ℕ → Tid → Tid → Outcome (Rel pg × Tid)
  insert_arraylist_block rel vertex_id adj prev_tbl prev_tid next_tid =
      arraylist_insert rel vertex_id prev_tbl
        (if tid_is_valid prev_tid then some prev_tid else none) adj
        (if tid_is_valid next_tid then some next_tid else none)

  -- `np_update_arraylist_next_pointer_inplace`.
  unfoldable pub update_arraylist_next_pointer : Rel pg → Tid → Tid → Outcome (Rel pg)
  update_arraylist_next_pointer rel t new_next = elim (get_elem? rel t.block) [
    | none ↦ err no_block
    | some _ ↦ elim (fetch pg rel t) [
      | none ↦ err not_normal
      | some r ↦ ok (store pg rel t (record r { next_itemptr = new_next }))
    ]
  ]

  -- `delete_arraylist_record`.
  unfoldable pub delete_arraylist_record : Rel pg → Tid → Outcome (Rel pg)
  delete_arraylist_record rel t = elim (get_elem? rel t.block) [
    | none ↦ err no_block
    | some _ ↦ elim (fetch pg rel t) [
      | none ↦ ok rel
      | some r ↦
          ok (store pg rel t (record r { header = record r.header { xmax = fxid; cmax = cid } }))
    ]
  ]

  -- `np_merge_existing_arraylist`: the grown list and the address of the next block.
  unfoldable pub merge_existing_arraylist :
      AdjListMember → Rel pg → Tid → AdjList → Outcome (Rel pg × Tid × AdjList)
  merge_existing_arraylist fresh rel target adj =
      if not (tid_is_valid target)
      then ok (rel, invalid_tid, adj)
      else elim (get_elem? rel target.block) [
        | none ↦ err no_block
        | some _ ↦ do
          (next, adj') ← elim (fetch pg rel target) [
            | none ↦ ok (invalid_tid, adj)
            | some r ↦ append_all fresh adj r.adj_list_data >>= λ a. ok (r.next_itemptr, a)
          ]
          rel' ← delete_arraylist_record rel target
          ok (rel', next, adj')
      ]

  -- The loop of `np_insert_chunked_arraylist` from chunk `i` on, of which `n` are left. `last` is the
  -- chunk that was inserted before, if there was one.
  unfoldable pub insert_chunks :
      AdjListMember
      → Rel pg
      → ℕ
      → List AdjListMember
      → ℕ
      → Tid
      → Tid
      → ℕ
      → ℕ
      → Option Tid
      → Outcome (Rel pg × Option Tid)
  insert_chunks zeroed rel vertex_id all prev_tbl prev_tid downstream zero i last = ok (rel, none)
  insert_chunks zeroed rel vertex_id all prev_tbl prev_tid downstream (suc n) i last =
      let todo = length all - i * max_edges_per_block in
      let edges = if leb todo max_edges_per_block then todo else max_edges_per_block in
      do
        empty ← init_adj_list zeroed edges
        chunk ← append_all zeroed empty (take edges (drop (i * max_edges_per_block) all))
        let next = if n == 0 then downstream else invalid_tid in
            do
              (rel', new) ←
                  insert_arraylist_block rel vertex_id (trim_adj_list chunk) prev_tbl prev_tid next
              rel'' ← elim last [
                | none ↦ ok rel'
                | some l ↦ update_arraylist_next_pointer rel' l new
              ]
              (rel3, later) ←
                  insert_chunks zeroed rel'' vertex_id all array_oid new downstream n (suc i)
                    (some new)
              ok (rel3, some new)

  -- `np_insert_chunked_arraylist`: the address of the first chunk.
  unfoldable pub insert_chunked_arraylist :
      AdjListMember → Rel pg → ℕ → AdjList → ℕ → Tid → Tid → Outcome (Rel pg × Tid)
  insert_chunked_arraylist zeroed rel vertex_id adj prev_tbl prev_tid downstream =
      if adj.nitems == 0
      then ok (rel, invalid_tid)
      else (let chunks = (adj.nitems + max_edges_per_block - 1) / max_edges_per_block in
          do
            (rel', first) ←
                insert_chunks zeroed rel vertex_id (members adj) prev_tbl prev_tid downstream chunks
                  0 none
            ok (rel', elim first [ none ↦ invalid_tid | some t ↦ t ]))
