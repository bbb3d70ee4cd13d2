-- ===== src/AdjList/Chain.antt =====
-- Chains of blocks on disk.
pub mod Chunks
pub mod Cut
use neo_post_graph.Common.{
  ℕ, zero, suc, ◌+◌, ◌-◌, ◌*◌, ◌≤◌, ◌<◌, ◌≡◌, refl, sym, ap, ◌∙◌, true, false, ◌&&◌, Option, none,
  some, List, [], ◌∷◌, ◌++◌, arith, leb, ◌==◌, if◌then◌else◌, length, get_elem?, take, drop,
  length-take, length-drop, Option-cases, inl, inr,
}
use neo_post_graph.Storage.{
  Tid, invalid_tid, tid_is_valid, PageOps, Outcome, ok, is_held, Rel, fetch, store, write_record,
}
use neo_post_graph.Storage.Fetch.{fetch-block, fetch-store}
use neo_post_graph.Storage.Append.{
  RelNormal, IsAppended, RelNormal-store, write_record-IsAppended, write_record_total,
}
use neo_post_graph.AdjList.{
  AdjListMember, AdjList, ArrayListRecord, max_edges_per_block, arraylist_record_size,
  init_adj_list, append_all, trim_adj_list, members, insert_arraylist_block,
  update_arraylist_next_pointer,
}
use neo_post_graph.AdjList.Grow.{
  most_members, IsAdjList, init_adj_list-IsAdjList, append_all-IsAdjList,
}

-- An item pointer as a block stores it.
abbrev pub stored : Tid → Tid
stored t = if tid_is_valid t then t else invalid_tid

-- The members of chunk `i`.
abbrev pub piece_size : List AdjListMember → ℕ → ℕ
piece_size all i =
    let todo = length all - i * max_edges_per_block in
    if leb todo max_edges_per_block then todo else max_edges_per_block

abbrev pub piece : List AdjListMember → ℕ → List AdjListMember
piece all i = take (piece_size all i) (drop (i * max_edges_per_block) all)

-- A chunk is built in memory without a failure.
pub chunk_built :
    (zeroed : AdjListMember) (all : List AdjListMember) (i : ℕ)
    → i * max_edges_per_block < length all
    → (empty : AdjList) × (init_adj_list zeroed (piece_size all i) ≡ ok empty)
      × (chunk : AdjList) × (append_all zeroed empty (piece all i) ≡ ok chunk)
      × (chunk.nitems ≡ piece_size all i)
      × (members (trim_adj_list chunk) ≡ piece all i)
unfolding trim_adj_list
chunk_built zeroed all i lt =
    let left : length (drop (i * max_edges_per_block) all) ≡ length all - i * max_edges_per_block =
      length-drop (i * max_edges_per_block) all in
    let some_left : 0 < piece_size all i = ground arith in
    let bound : piece_size all i ≤ max_edges_per_block = ground arith in
    let size : length (piece all i) ≡ piece_size all i =
      length-take (piece_size all i) (drop (i * max_edges_per_block) all) (ground (arith, left)) in
    let (empty, e, w, z) =
      init_adj_list-IsAdjList zeroed (piece_size all i) some_left (omega arith) in
    let (chunk, e', w', n, c) = append_all-IsAdjList zeroed empty (piece all i) w (omega arith) in
    (
      empty,
      e,
      chunk,
      e',
      omega arith,
      c ∙ ap (λ xs. xs ++ piece all i) (ap (λ (k : ℕ). take k empty.slots) z),
    )

module _ (pg : PageOps ArrayListRecord) (fxid cid array_oid : ℕ) where
  -- A doubly linked chain of blocks from `t` on that hold these members, one block each, up to the
  -- next pointer `stop`; the first one's previous entry is `p` of table `tbl`. In `old` nothing stood
  -- at the addresses of the blocks.
  abbrev pub Segment :
      Rel pg → Rel pg → ℕ → ℕ → Tid → List (List AdjListMember) → Tid → Tid → Type 0
  Segment old rel owner tbl p [] t stop = t ≡ stop
  Segment old rel owner tbl p (c ∷ cs) t stop =
      (r : ArrayListRecord) × (fetch pg old t ≡ none)
      × (fetch pg rel t ≡ some r)
      × (r.adj_list_data ≡ c)
      × (r.owner_id ≡ owner)
      × (r.prev_tbl ≡ tbl)
      × (r.prev_itemptr ≡ p)
      × Segment old rel owner array_oid t cs r.next_itemptr stop

  -- A chain that is fresh in one table is so in an earlier one with fewer addresses.
  pub Segment-earlier :
      (older old rel : Rel pg) (owner tbl : ℕ) (p : Tid) (cs : List (List AdjListMember))
      (t stop : Tid)
      → ((u : Tid) → fetch pg old u ≡ none → fetch pg older u ≡ none)
      → Segment old rel owner tbl p cs t stop
      → Segment older rel owner tbl p cs t stop
  Segment-earlier older old rel owner tbl p [] t stop less s = s
  Segment-earlier older old rel owner tbl p (c ∷ cs) t stop less (r, fresh, at, a, b, d, e, rest) =
      (
        r,
        less t fresh,
        at,
        a,
        b,
        d,
        e,
        Segment-earlier older old rel owner array_oid t cs r.next_itemptr stop less rest,
      )

  -- The record at `u` with `t` as its next entry, if `u` is `last`.
  abbrev pub link : Option Tid → Tid → Tid → ArrayListRecord → ArrayListRecord
  link none u t r = r
  link (some l) u t r =
      if u.block == l.block && u.offset == l.offset then record r { next_itemptr = t } else r

  -- `last` is there, if it is given.
  abbrev pub IsThere : Rel pg → Option Tid → Type 0
  IsThere rel none = Unit {0}
  IsThere rel (some l) = (r : ArrayListRecord) × (fetch pg rel l ≡ some r)

  -- The last step of a turn of the loop.
  abbrev pub relink : Rel pg → Option Tid → Tid → Outcome (Rel pg)
  relink rel last new = elim last [
    | none ↦ ok rel
    | some l ↦ update_arraylist_next_pointer pg fxid cid array_oid rel l new
  ]

  fetch-eta :
      (rel : Rel pg) (u : Tid)
      → fetch pg rel u ≡ elim (fetch pg rel u) [ none ↦ none | some r ↦ some r ]
  fetch-eta rel u = elim (Option-cases (fetch pg rel u)) [
    | inl e ↦ ground arith
    | inr (r, e) ↦ ground arith
  ]

  pub relink-fetch :
      (rel : Rel pg) (last : Option Tid) (t : Tid)
      → RelNormal pg rel
      → IsThere rel last
      → (rel' : Rel pg) × (relink rel last t ≡ ok rel')
        × RelNormal pg rel'
        × ((u : Tid)
            → fetch pg rel' u
              ≡ elim (fetch pg rel u) [ none ↦ none | some r ↦ some (link last u t r) ])
  unfolding update_arraylist_next_pointer
  relink-fetch rel none t n at = (rel, refl, n, fetch-eta rel)
  relink-fetch rel (some l) t n (r, at) =
      let (p, e) = fetch-block pg rel l r at in
      let new = record r { next_itemptr = t } in
      (
        store pg rel l new,
        ground arith,
        RelNormal-store pg rel l new r at n,
        λ u. ground (arith, fetch-store pg rel l new r u at, fetch-eta rel u),
      )
