-- ===== src/AdjList/Chain/Chunks.antt =====
-- Cutting a list into blocks.
use neo_post_graph.Common.{
  ℕ, zero, suc, ◌+◌, ◌-◌, ◌*◌, ◌≤◌, ◌<◌, ◌≡◌, refl, ◌∙◌, true, false, Option, none, some, List, [],
  ◌∷◌, arith, length, Option-cases, Bool-cases, inl, inr,
}
use mathlib.Core.Path.{subst}
use neo_post_graph.Layout.{maxalign, size_of_item_id}
use neo_post_graph.Storage.{
  Tid, invalid_tid, tid_is_valid, PageOps, ok, is_held, write_record, Rel, fetch,
}
use neo_post_graph.Storage.Append.{
  RelNormal, IsAppended, write_record-IsAppended, write_record_total,
}
use neo_post_graph.AdjList.{
  AdjListMember, AdjList, ArrayListRecord, max_edges_per_block, arraylist_record_size,
  trim_adj_list, members, arraylist_insert, insert_arraylist_block, insert_chunks,
}
use neo_post_graph.AdjList.Chain.{
  Segment-earlier, stored, piece, chunk_built, Segment, link, IsThere, relink, relink-fetch,
}

-- The chunks from number `i` on, `n` of them.
abbrev pub pieces : List AdjListMember → ℕ → ℕ → List (List AdjListMember)
pieces all zero i = []
pieces all (suc n) i = piece all i ∷ pieces all n (suc i)

module _ (pg : PageOps ArrayListRecord) (fxid cid array_oid : ℕ)
    (fits : 8132 ≤ pg.free_space pg.empty) (zeroed : AdjListMember) (vertex_id : ℕ) where
  -- The outcome of inserting chunks: a chain of them begins at `t`, the entry before it is linked to
  -- it, and all else that was there is as it was.
  pub record Inserted (rel : Rel pg) (tbl : ℕ) (p : Tid) (last : Option Tid)
      (cs : List (List AdjListMember)) (stop : Tid) (rel' : Rel pg) (t : Tid) : Type 0 where
    pub normal : RelNormal pg rel'
    pub valid : tid_is_valid t ≡ true
    pub fresh : fetch pg rel t ≡ none
    pub chain : Segment pg fxid cid array_oid rel rel' vertex_id tbl p cs t stop
    pub kept :
        (u : Tid)
        → elim (fetch pg rel u) [
          | none ↦ fetch pg rel' u
          | some r ↦ some (link pg fxid cid array_oid last u t r)
        ]
          ≡ fetch pg rel' u

  -- The record of a chunk.
  abbrev block : ℕ → Tid → Tid → List AdjListMember → ArrayListRecord
  block tbl p next ms = record {
    header = record { xmin = fxid; xmax = 0; cmin = cid; cmax = 4294967295 };
    flags = 0;
    owner_id = vertex_id;
    prev_tbl = tbl;
    prev_itemptr = stored p;
    next_itemptr = stored next;
    adj_list_data = ms;
  }

  -- One turn of the loop: the chunk stands at a fresh address, and the entry before it is linked.
  record Turned (rel : Rel pg) (last : Option Tid) (rec : ArrayListRecord) (rel' : Rel pg) (t : Tid)
      : Type 0 where
    normal : RelNormal pg rel'
    valid : tid_is_valid t ≡ true
    fresh : fetch pg rel t ≡ none
    here : fetch pg rel' t ≡ some rec
    kept :
        (u : Tid)
        → elim (fetch pg rel u) [
          | none ↦ fetch pg rel' u
          | some r ↦ some (link pg fxid cid array_oid last u t r)
        ]
          ≡ fetch pg rel' u

  still-IsThere :
      (rel mid : Rel pg) (t : Tid) (rec : ArrayListRecord) (last : Option Tid)
      → IsAppended pg rel rec mid t
      → IsThere pg fxid cid array_oid rel last
      → IsThere pg fxid cid array_oid mid last
  still-IsThere rel mid t rec none a at = tt
  still-IsThere rel mid t rec (some l) a (r, e) = (r, ground (arith, a.fetched l, a.fresh))

  turn_ended :
      (rel mid rel' : Rel pg) (t : Tid) (rec : ArrayListRecord) (last : Option Tid)
      → IsAppended pg rel rec mid t
      → IsThere pg fxid cid array_oid rel last
      → RelNormal pg rel'
      → ((u : Tid)
          → fetch pg rel' u ≡ elim (fetch pg mid u) [
            | none ↦ none
            | some r ↦ some (link pg fxid cid array_oid last u t r)
          ])
      → Turned rel last rec rel' t
  turn_ended rel mid rel' t rec none a at n reads = record {
    normal = n;
    valid = a.valid;
    fresh = a.fresh;
    here = ground (arith, reads t, a.fetched t);
    kept = λ u. ground (arith, reads u, a.fetched u, a.fresh);
  }
  turn_ended rel mid rel' t rec (some l) a (old, e) n reads = record {
    normal = n;
    valid = a.valid;
    fresh = a.fresh;
    here = ground (arith, reads t, a.fetched t, a.fresh);
    kept = λ u. elim (Option-cases (fetch pg rel u)) [
      | inl nothing ↦ ground arith
      | inr (r, here) ↦ ground (arith, reads u, a.fetched u, a.fresh)
    ];
  }

  insert_arraylist_block-eq :
      (rel : Rel pg) (tbl : ℕ) (p next : Tid) (chunk : AdjList)
      → insert_arraylist_block pg fxid cid array_oid rel vertex_id chunk tbl p next
        ≡ write_record pg none rel
            (block tbl p next (members chunk))
            (arraylist_record_size chunk.nitems)
  unfolding insert_arraylist_block arraylist_insert
  insert_arraylist_block-eq rel tbl p next chunk = elim (Bool-cases (tid_is_valid p)) [
    | inl e ↦ elim (Bool-cases (tid_is_valid next)) [
      | inl e' ↦ ground arith
      | inr e' ↦ ground arith
    ]
    | inr e ↦ elim (Bool-cases (tid_is_valid next)) [
      | inl e' ↦ ground arith
      | inr e' ↦ ground arith
    ]
  ]

  block_inserted :
      (rel : Rel pg) (tbl : ℕ) (p next : Tid) (last : Option Tid) (chunk : AdjList)
      → RelNormal pg rel
      → IsThere pg fxid cid array_oid rel last
      → chunk.nitems ≤ max_edges_per_block
      → (mid : Rel pg) × (t : Tid) × (insert_arraylist_block pg fxid cid array_oid rel vertex_id
            chunk tbl p next
          ≡ ok (mid, t))
        × (rel' : Rel pg) × (relink pg fxid cid array_oid mid last t ≡ ok rel')
        × Turned rel last (block tbl p next (members chunk)) rel' t
  block_inserted rel tbl p next last chunk n at small =
      let rec = block tbl p next (members chunk) in
      let size = arraylist_record_size chunk.nitems in
      let free : is_held none (length rel - 1) ≡ false = λ i. false in
      let room : maxalign size + size_of_item_id ≤ pg.free_space pg.empty =
        omega (arith, fits, small) in
      let ((mid, t), w) = write_record_total pg none rel rec size free room in
      let a = write_record-IsAppended pg none rel rec size mid t n w in
      let there : IsThere pg fxid cid array_oid mid last = still-IsThere rel mid t rec last a at in
      let (rel', e, n', reads) = relink-fetch pg fxid cid array_oid mid last t a.normal there in
      (
        mid,
        t,
        insert_arraylist_block-eq rel tbl p next chunk ∙ w,
        rel',
        e,
        turn_ended rel mid rel' t rec last a at n' reads,
      )

  -- A turn and what the later turns insert behind it.
  prepend :
      (rel mid rel' : Rel pg) (tbl : ℕ) (p : Tid) (last : Option Tid) (c : List AdjListMember)
      (cs : List (List AdjListMember)) (stop t u : Tid)
      → Turned rel last (block tbl p invalid_tid c) mid t
      → Inserted mid array_oid (stored t) (some t) cs stop rel' u
      → Inserted rel tbl (stored p) last (c ∷ cs) stop rel' t
  prepend rel mid rel' tbl p last c cs stop t u turned later =
      let here_again : stored t ≡ t = ground (arith, turned.valid) in
      let earlier : (v : Tid) → fetch pg mid v ≡ none → fetch pg rel v ≡ none = λ v none_there.
        elim (Option-cases (fetch pg rel v)) [
          | inl nothing ↦ nothing
          | inr (r, here) ↦ absurd (ground (arith, turned.kept v))
        ] in
      record {
        normal = later.normal;
        valid = turned.valid;
        fresh = turned.fresh;
        chain = (
          record (block tbl p invalid_tid c) { next_itemptr = u },
          turned.fresh,
          ground (arith, later.kept t, turned.here),
          refl,
          refl,
          refl,
          refl,
          subst (λ q. Segment pg fxid cid array_oid rel rel' vertex_id array_oid q cs u stop)
              here_again
              (Segment-earlier pg fxid cid array_oid rel mid rel' vertex_id array_oid (stored t) cs
                u stop earlier later.chain),
        );
        kept = λ v. elim (Option-cases (fetch pg rel v)) [
          | inl nothing ↦ ground arith
          | inr (r, here) ↦ ground (arith, turned.kept v, later.kept v, turned.fresh)
        ];
      }

  -- The last turn.
  single :
      (rel rel' : Rel pg) (tbl : ℕ) (p downstream : Tid) (last : Option Tid)
      (c : List AdjListMember) (t : Tid)
      → Turned rel last (block tbl p downstream c) rel' t
      → Inserted rel tbl (stored p) last (c ∷ []) (stored downstream) rel' t
  single rel rel' tbl p downstream last c t turned = record {
    normal = turned.normal;
    valid = turned.valid;
    fresh = turned.fresh;
    chain = (block tbl p downstream c, turned.fresh, turned.here, refl, refl, refl, refl, refl);
    kept = turned.kept;
  }

  pub chunks-Inserted :
      (all : List AdjListMember) (downstream : Tid) (n i : ℕ) (rel : Rel pg) (tbl : ℕ) (p : Tid)
      (last : Option Tid)
      → RelNormal pg rel
      → IsThere pg fxid cid array_oid rel last
      → (i + n) * max_edges_per_block < length all
      → (rel' : Rel pg) × (t : Tid) × (insert_chunks pg fxid cid array_oid zeroed rel vertex_id all
            tbl p downstream
            (suc n)
            i
            last
          ≡ ok (rel', some t))
        × Inserted rel tbl (stored p) last (pieces all (suc n) i) (stored downstream) rel' t
  unfolding insert_chunks trim_adj_list
  chunks-Inserted all downstream zero i rel tbl p last normal at lt =
      let (empty, e, chunk, e', count, content) = chunk_built zeroed all i (omega arith) in
      let bound : chunk.nitems ≤ max_edges_per_block = ground (arith, count) in
      let (mid, t, w, rel', e'', turned) =
        block_inserted rel tbl p downstream last (trim_adj_list chunk) normal at bound in
      (
        rel',
        t,
        ground (arith, e, e', w, e''),
        single rel rel' tbl p downstream last (piece all i) t
            (subst (λ ms. Turned rel last (block tbl p downstream ms) rel' t) content turned),
      )
  chunks-Inserted all downstream (suc n) i rel tbl p last normal at lt =
      let (empty, e, chunk, e', count, content) = chunk_built zeroed all i (omega arith) in
      let bound : chunk.nitems ≤ max_edges_per_block = ground (arith, count) in
      let (mid, t, w, mid', e'', turned) =
        block_inserted rel tbl p invalid_tid last (trim_adj_list chunk) normal at bound in
      let turned' =
        subst (λ ms. Turned rel last (block tbl p invalid_tid ms) mid' t) content turned in
      let there : IsThere pg fxid cid array_oid mid' (some t) =
        (block tbl p invalid_tid (piece all i), turned'.here) in
      let (rel', u, e3, later) =
        chunks-Inserted all downstream n (suc i) mid' array_oid t (some t) turned'.normal there
          (omega arith) in
      (
        rel',
        t,
        ground (arith, e, e', w, e'', e3),
        prepend rel mid' rel' tbl p last (piece all i) (pieces all (suc n) (suc i))
            (stored downstream) t u turned' later,
      )
