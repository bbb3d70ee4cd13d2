-- ===== src/PhysMap/Upsert.antt =====
-- `np_place_physmap_record` and `np_set_edge_physmap_record` as updates of a function from addresses
-- to records.
use neo_post_graph.Common.{
  ℕ, zero, suc, ◌+◌, ◌-◌, ◌*◌, ◌<◌, ◌≡◌, refl, ◌∙◌, ◌&&◌, none, some, [], ◌∷◌, ◌++◌, arith, leb,
  ◌==◌, if◌then◌else◌, length, set, length-append, get_elem?_lt, get_elem?-set_self,
  get_elem?-set_ne, lt_of_get_elem?, Bool-cases, inl, inr,
}
use mathlib.Core.Path.{subst}
use neo_post_graph.Layout.{blcksz, size_of_page_header}
use neo_post_graph.Storage.{Tid, PageOps, ok, Rel, fetch}
use neo_post_graph.Storage.Fetch.{fetch-at, fetch-set, fetch-extend, get_elem?-past}
use neo_post_graph.PhysMap.{MapPages, extend_blocks, place_in_page, place_record}
use neo_post_graph.PhysMap.Place.{
  item_space, UniformPage, UniformMap, uniform_empty, entry, place_in_page-Placed,
}

module _ {I : Type 0} (pg : PageOps I) (mp : MapPages pg) (pad : I) (record_size : ℕ) where
  -- The outcome of an upsert of `new` at `t`.
  pub record Upserted (rel : Rel pg) (t : Tid) (new : I) (rel' : Rel pg) : Type 0 where
    pub uniform : UniformMap pg mp pad record_size rel'
    pub entries :
        (u : Tid)
        → entry pg mp pad record_size rel' u ≡ (
            if u.block == t.block
              && u.offset == t.offset
              && leb (item_space pg mp pad record_size * t.offset) (blcksz - size_of_page_header)
            then new
            else entry pg mp pad record_size rel u)
    pub present : fetch pg rel' t ≡ (
        if leb (item_space pg mp pad record_size * t.offset) (blcksz - size_of_page_header)
        then some new
        else none)

  length-extend_blocks :
      (n : ℕ) (rel : Rel pg) → length (extend_blocks pg mp pad record_size n rel) ≡ length rel + n
  unfolding extend_blocks
  length-extend_blocks zero rel = omega arith
  length-extend_blocks (suc n) rel =
      omega
        (arith, length-extend_blocks n (rel ++ (pg.empty ∷ [])), length-append rel (pg.empty ∷ []))

  fetch-extend_blocks :
      (n : ℕ) (rel : Rel pg) (u : Tid)
      → fetch pg (extend_blocks pg mp pad record_size n rel) u ≡ fetch pg rel u
  unfolding extend_blocks
  fetch-extend_blocks zero rel u = refl
  fetch-extend_blocks (suc n) rel u =
      fetch-extend_blocks n (rel ++ (pg.empty ∷ [])) u
      ∙ fetch-extend pg rel pg.empty u pg.slots_empty

  extend_blocks-UniformMap :
      (n : ℕ) (rel : Rel pg)
      → UniformMap pg mp pad record_size rel
      → UniformMap pg mp pad record_size (extend_blocks pg mp pad record_size n rel)
  unfolding extend_blocks
  extend_blocks-UniformMap zero rel u = u
  extend_blocks-UniformMap (suc n) rel u =
      extend_blocks-UniformMap n (rel ++ (pg.empty ∷ [])) (λ b p e.
        elim (Bool-cases (b == length rel)) [
          | inl same ↦
              subst (UniformPage pg mp pad record_size)
                (ground (arith, get_elem?-past rel pg.empty b))
                (uniform_empty pg mp pad record_size)
          | inr other ↦ u b p (ground (arith, get_elem?-past rel pg.empty b))
        ])

  -- In a map whose pages hold records of the one size alone, an upsert returns; it sets the entry at
  -- its address and no other, whether the file had to be extended, the page to be padded or a record
  -- to be overwritten. If the page has no room for so many records, the upsert returns as well, and
  -- no entry has changed.
  pub place_record-Upserted :
      (rel : Rel pg) (t : Tid) (new : I)
      → UniformMap pg mp pad record_size rel
      → 0 < t.offset
      → (rel' : Rel pg) × (place_record pg mp pad record_size rel t new ≡ ok rel')
        × Upserted rel t new rel'
  unfolding place_record
  place_record-Upserted rel t new u pos =
      let n = t.block + 1 - length rel in
      let extended = extend_blocks pg mp pad record_size n rel in
      let len = length-extend_blocks n rel in
      let (p, e) = get_elem?_lt extended t.block (omega arith) in
      let uniform = extend_blocks-UniformMap n rel u in
      let page =
        place_in_page-Placed pg mp pad record_size p t.offset new (uniform t.block p e) pos in
      let q = place_in_page pg mp pad record_size p t.offset new in
      let lt = lt_of_get_elem? extended t.block e in
      (
        set extended t.block q,
        ground arith,
        record {
          uniform = λ b r at. elim (Bool-cases (b == t.block)) [
            | inl same ↦
                subst (UniformPage pg mp pad record_size)
                  (ground (arith, get_elem?-set_self extended t.block q lt)) page.uniform
            | inr other ↦ uniform b r (ground (arith, get_elem?-set_ne extended t.block b q))
          ];
          entries = λ v. ground (
            arith,
            fetch-set pg extended t.block q v lt,
            page.entries v.offset,
            fetch-extend_blocks n rel v,
            fetch-at pg extended v p,
          );
          present = ground (arith, fetch-set pg extended t.block q t lt, page.present);
        },
      )
