-- ===== src/Storage/Append.antt =====
-- What `np_write_record_to_page` does to a relation.
use neo_post_graph.Common.{
  ℕ, ◌+◌, ◌-◌, ◌<◌, ◌≤◌, ◌≡◌, refl, sym, ap, ◌∙◌, true, false, not, ◌&&◌, Option, none, some, [],
  ◌∷◌, ◌++◌, arith, ltb, ◌==◌, if◌then◌else◌, length, get_elem?, set, length-append, length-set,
  get_elem?-set_self, get_elem?-set_ne, get_elem?-append_here, lt_of_get_elem?, get_elem?_lt,
  Bool-cases, Option-cases, inl, inr,
}
use mathlib.Core.Path.{subst, subst₂}
use neo_post_graph.Layout.{maxalign, size_of_item_id}
use neo_post_graph.Storage.{
  Tid, tid, tid_is_valid, AllNormal, PageOps, ok, hang, is_held, item_at, Rel, fetch, store, place,
  write_record,
}
use neo_post_graph.Storage.Fetch.{
  item_at-append, item_at-past, AllNormal-append, AllNormal-put, fetch-set, fetch-extend,
  slots_blank, get_elem?-past,
}

module _ {I : Type 0} (pg : PageOps I) where
  -- No line pointer of the relation is out of use.
  abbrev pub RelNormal : Rel pg → Type 0
  RelNormal rel = (b : ℕ) (p : pg.Page) → get_elem? rel b ≡ some p → AllNormal (pg.slots p)

  -- The outcome of an append: `i` stands at the valid address `t`, which held nothing before, and
  -- every other address reads as before.
  pub record IsAppended (rel : Rel pg) (i : I) (rel' : Rel pg) (t : Tid) : Type 0 where
    pub valid : tid_is_valid t ≡ true
    pub fresh : fetch pg rel t ≡ none
    pub fetched :
        (u : Tid)
        → fetch pg rel' u
          ≡ (if u.block == t.block && u.offset == t.offset then some i else fetch pg rel u)
    pub normal : RelNormal rel'
    pub grows : length rel ≤ length rel'

  length-eq-zero : (rel : Rel pg) → get_elem? rel (length rel - 1) ≡ none → length rel ≡ 0
  length-eq-zero [] h = refl
  length-eq-zero (p ∷ rel) h =
      let (q, e) = get_elem?_lt (p ∷ rel) (length (p ∷ rel) - 1) (omega arith) in
      absurd (ground arith)

  RelNormal-set :
      (rel : Rel pg) (b : ℕ) (p : pg.Page)
      → RelNormal rel
      → AllNormal (pg.slots p)
      → b < length rel
      → RelNormal (set rel b p)
  RelNormal-set rel b p n h lt c q e = elim (Bool-cases (b == c)) [
    | inl same ↦
        let page : p ≡ q = ground (arith, get_elem?-set_self rel b p lt) in
        subst (λ r. AllNormal (pg.slots r)) page h
    | inr other ↦ n c q (ground (arith, get_elem?-set_ne rel b c p))
  ]

  -- A store keeps the number of blocks and every line pointer in use.
  pub length-store : (rel : Rel pg) (t : Tid) (i : I) → length (store pg rel t i) ≡ length rel
  unfolding store
  length-store rel t i = elim (Option-cases (get_elem? rel t.block)) [
    | inl e ↦ ground arith
    | inr (p, e) ↦ ground (arith, length-set rel t.block (pg.put p t.offset i))
  ]

  pub RelNormal-store :
      (rel : Rel pg) (t : Tid) (i j : I)
      → fetch pg rel t ≡ some j
      → RelNormal rel
      → RelNormal (store pg rel t i)
  unfolding store fetch
  RelNormal-store rel t i j h n = elim (Option-cases (get_elem? rel t.block)) [
    | inl e ↦ absurd (ground arith)
    | inr (p, e) ↦
        let item : item_at (pg.slots p) t.offset ≡ some j = ground arith in
        rw (e, store)
          (RelNormal-set rel t.block (pg.put p t.offset i) n
            (AllNormal-put pg p t.offset i j item (n t.block p e)) (lt_of_get_elem? rel t.block e))
  ]

  RelNormal-extend : (rel : Rel pg) → RelNormal rel → RelNormal (rel ++ (pg.blank ∷ []))
  RelNormal-extend rel n c q e = elim (Bool-cases (c == length rel)) [
    | inl same ↦
        let page : pg.blank ≡ q = ground (arith, get_elem?-past rel pg.blank c) in
        subst (λ r. AllNormal (pg.slots r)) page (rw (slots_blank pg) tt)
    | inr other ↦ n c q (ground (arith, get_elem?-past rel pg.blank c))
  ]

  -- The page that `place` adds to, initialised if it is new.
  abbrev used : pg.Page → pg.Page
  used p = if pg.is_new p then pg.empty else p

  slots_used : (p : pg.Page) → pg.slots (used p) ≡ pg.slots p
  slots_used p = elim (Bool-cases (pg.is_new p)) [
    | inl e ↦ rw e (pg.slots_empty ∙ sym (pg.slots_new p e))
    | inr e ↦ rw e
  ]

  add-IsAppended :
      (rel : Rel pg) (b : ℕ) (p : pg.Page) (i : I) (n : ℕ) (p' : pg.Page) (o : ℕ)
      → RelNormal rel
      → get_elem? rel b ≡ some p
      → pg.add (used p) i n ≡ some (p', o)
      → IsAppended rel i (set rel b p') (tid b o)
  unfolding fetch
  add-IsAppended rel b p i n p' o normal at added =
      let before : AllNormal (pg.slots (used p)) = rw (slots_used p) (normal b p at) in
      let (grown, offset) = pg.slots_add (used p) i n p' o before added in
      let slots' : pg.slots p' ≡ pg.slots p ++ (some i ∷ []) = rw (slots_used p) at grown in
      let here : o ≡ length (pg.slots p) + 1 = rw (slots_used p) at offset in
      let lt = lt_of_get_elem? rel b at in
      record {
        valid = ground arith;
        fresh = ground (arith, item_at-past (pg.slots p) o (omega arith));
        fetched = λ u. ground (
          arith,
          fetch-set pg rel b p' u lt,
          item_at-append (pg.slots p) i u.offset,
          ap (λ s. item_at s u.offset) slots',
        );
        normal =
            RelNormal-set rel b p' normal
              (rw slots' (AllNormal-append (pg.slots p) i (normal b p at))) lt;
        grows = omega (arith, length-set rel b p');
      }

  -- The page that `place` adds to, new or not, reads like the block that it replaces.
  place-IsAppended :
      (rel : Rel pg) (b : ℕ) (p : pg.Page) (i : I) (n : ℕ) (rel' : Rel pg) (t : Tid)
      → RelNormal rel
      → get_elem? rel b ≡ some p
      → place pg rel b p i n ≡ ok (rel', t)
      → IsAppended rel i rel' t
  unfolding place
  place-IsAppended rel b p i n rel' t normal at h = elim (Option-cases (pg.add (used p) i n)) [
    | inl e ↦ absurd (ground arith)
    | inr ((p', o), e) ↦
        let eq_rel : set rel b p' ≡ rel' = ground arith in
        let eq_tid : tid b o ≡ t = ground arith in
        subst₂ (λ r u. IsAppended rel i r u) eq_rel eq_tid
          (add-IsAppended rel b p i n p' o normal at e)
  ]

  -- An append to the relation extended by a block is one to the relation.
  IsAppended-extend :
      (rel : Rel pg) (i : I) (rel' : Rel pg) (t : Tid)
      → IsAppended (rel ++ (pg.blank ∷ [])) i rel' t
      → IsAppended rel i rel' t
  IsAppended-extend rel i rel' t a = record {
    valid = a.valid;
    fresh = sym (fetch-extend pg rel pg.blank t (slots_blank pg)) ∙ a.fresh;
    fetched = λ u. rw (← fetch-extend pg rel pg.blank u (slots_blank pg)) (a.fetched u);
    normal = a.normal;
    grows = omega (arith, a.grows, length-append rel (pg.blank ∷ []));
  }

  -- `np_write_record_to_page`, when it returns, has put the record at a fresh valid address and
  -- left every other address as it was, if no line pointer of the relation was out of use.
  pub write_record-IsAppended :
      (held : Option ℕ) (rel : Rel pg) (i : I) (n : ℕ) (rel' : Rel pg) (t : Tid)
      → RelNormal rel
      → write_record pg held rel i n ≡ ok (rel', t)
      → IsAppended rel i rel' t
  unfolding write_record
  write_record-IsAppended held rel i n rel' t normal h =
      let last = length rel - 1 in
      let extended = rel ++ (pg.blank ∷ []) in
      elim (Option-cases (get_elem? rel last)) [
        | inl e ↦
            let placed : place pg extended 0 pg.blank i n ≡ ok (rel', t) =
              rw (e, write_record) at h in
            IsAppended-extend rel i rel' t (
              place-IsAppended extended 0 pg.blank i n rel' t (RelNormal-extend rel normal)
                (ground (arith, get_elem?-past rel pg.blank 0, length-eq-zero rel e)) placed)
        | inr (p, e) ↦ elim (Bool-cases (is_held held last)) [
          | inl mine ↦ absurd (ground arith)
          | inr free ↦
              elim (Bool-cases (not (pg.is_new p) && ltb (pg.free_space p) (maxalign n + 4))) [
                | inl full ↦ IsAppended-extend rel i rel' t (
                    place-IsAppended extended (length rel) pg.blank i n rel' t
                      (RelNormal-extend rel normal) (get_elem?-append_here rel pg.blank [])
                      (ground arith))
                | inr room ↦ place-IsAppended rel last p i n rel' t normal e (ground arith)
              ]
        ]
      ]

  place_total :
      (rel : Rel pg) (b : ℕ) (p : pg.Page) (i : I) (n : ℕ)
      → maxalign n + size_of_item_id ≤ pg.free_space (used p)
      → (r : Rel pg × Tid) × (place pg rel b p i n ≡ ok r)
  unfolding place
  place_total rel b p i n h =
      let ((p', o), e) = pg.add_fits (used p) i n h in ((set rel b p', tid b o), ground arith)

  -- `np_write_record_to_page` returns, if the caller does not hold the last block and an empty page
  -- has room for the record.
  pub write_record_total :
      (held : Option ℕ) (rel : Rel pg) (i : I) (n : ℕ)
      → is_held held (length rel - 1) ≡ false
      → maxalign n + size_of_item_id ≤ pg.free_space pg.empty
      → (r : Rel pg × Tid) × (write_record pg held rel i n ≡ ok r)
  unfolding write_record
  write_record_total held rel i n free fits =
      let last = length rel - 1 in
      let extended = rel ++ (pg.blank ∷ []) in
      let on_blank : maxalign n + size_of_item_id ≤ pg.free_space (used pg.blank) =
        rw pg.new_blank fits in
      elim (Option-cases (get_elem? rel last)) [
        | inl e ↦ rw (e, write_record) (place_total extended 0 pg.blank i n on_blank)
        | inr (p, e) ↦
            elim (Bool-cases (not (pg.is_new p) && ltb (pg.free_space p) (maxalign n + 4))) [
              | inl full ↦
                  rw (e, write_record, free, full)
                    (place_total extended (length rel) pg.blank i n on_blank)
              | inr room ↦
                  rw (e, write_record, free, room) (place_total rel last p i n (ground arith))
            ]
      ]

  -- `np_write_record_to_page` waits for itself, if the caller holds the last block locked.
  pub write_record_hang :
      (rel : Rel pg) (i : I) (n : ℕ)
      → 0 < length rel
      → write_record pg (some (length rel - 1)) rel i n ≡ hang
  unfolding write_record
  write_record_hang rel i n h =
      let (p, e) = get_elem?_lt rel (length rel - 1) (omega arith) in ground arith
