-- ===== src/PhysMap/Place.antt =====
-- What placing a record does to the map.
use neo_post_graph.Common.{
  ℕ, zero, suc, ◌+◌, ◌-◌, ◌*◌, ◌≤◌, ◌<◌, ◌≡◌, refl, sym, ap, ◌∙◌, ◌⊎◌, ◌&&◌, none, some, [], ◌∷◌,
  arith, ltb, leb, ◌==◌, if◌then◌else◌, length, get_elem?, length-append, length-set, Bool-cases,
  inl, inr,
}
use mathlib.Core.Path.{subst}
use native.Mathlib.Nat.{mul-le-mul_left}
use neo_post_graph.Layout.{maxalign, blcksz, size_of_page_header, size_of_item_id}
use neo_post_graph.Storage.{Tid, AllNormal, PageOps, item_at, Rel, fetch}
use neo_post_graph.Storage.Fetch.{
  item_at-append, item_at-set, item_at-past, AllNormal-item, AllNormal-append, AllNormal-put,
}
use neo_post_graph.PhysMap.{MapPages, add_ignored, pad_page, place_in_page}

module _ {I : Type 0} (pg : PageOps I) (mp : MapPages pg) (pad : I) (record_size : ℕ) where
  -- The bytes that a record takes from a page.
  abbrev pub item_space : ℕ
  item_space = maxalign record_size + size_of_item_id

  -- A page that holds records of the one size alone, all behind normal line pointers.
  pub record UniformPage (p : pg.Page) : Type 0 where
    pub normal : AllNormal (pg.slots p)
    pub space : mp.gap p + item_space * length (pg.slots p) ≡ blcksz - size_of_page_header

  abbrev pub UniformMap : Rel pg → Type 0
  UniformMap rel = (b : ℕ) (p : pg.Page) → get_elem? rel b ≡ some p → UniformPage p

  -- What a page holds at an offset; nothing counts as padding.
  abbrev pub page_entry : pg.Page → ℕ → I
  page_entry p o = elim (item_at (pg.slots p) o) [ none ↦ pad | some i ↦ i ]

  abbrev pub entry : Rel pg → Tid → I
  entry rel u = elim (fetch pg rel u) [ none ↦ pad | some i ↦ i ]

  pub uniform_empty : UniformPage pg.empty
  uniform_empty = record {
    normal = rw pg.slots_empty tt;
    space = rw pg.slots_empty (omega (arith, mp.gap_empty));
  }

  -- The outcome of an addition: it went behind the last record, or the page had no room.
  record Added (p : pg.Page) (i : I) (q : pg.Page) : Type 0 where
    pub uniform : UniformPage q
    added :
        ((item_space ≤ mp.gap p)
          × (length (pg.slots q) ≡ length (pg.slots p) + 1)
          × ((o : ℕ)
              → item_at (pg.slots q) o
                ≡ (if o == length (pg.slots p) + 1 then some i else item_at (pg.slots p) o)))
        ⊎ ((mp.gap p < item_space) × (q ≡ p))

  add_ignored-Added :
      (p : pg.Page) (i : I) → UniformPage p → Added p i (add_ignored pg mp pad record_size p i)
  unfolding add_ignored
  add_ignored-Added p i u = elim (Bool-cases (leb item_space (mp.gap p))) [
    | inl room ↦
        let (p', o, e, g) = mp.add_room p i record_size u.normal (ground arith) in
        let (grown, offset) = pg.slots_add p i record_size p' o u.normal e in
        let len : length (pg.slots p') ≡ length (pg.slots p) + 1 =
          omega (arith, ap length grown, length-append (pg.slots p) (some i ∷ [])) in
        rw (e, add_ignored)
          (record {
            uniform = record {
              normal = rw grown (AllNormal-append (pg.slots p) i u.normal);
              space = rw len (omega (arith, u.space, g));
            };
            added = inl (ground arith, len, λ v. rw grown (item_at-append (pg.slots p) i v));
          })
    | inr full ↦
        let e = mp.add_full p i record_size u.normal (ground arith) in
        rw (e, add_ignored) (record { uniform = u; added = inr (ground arith, refl) })
  ]

  -- The outcome of padding `p` to `q` in `n` turns: it went all the way, or the page is full.
  record Padded (p : pg.Page) (n : ℕ) (q : pg.Page) : Type 0 where
    pub uniform : UniformPage q
    same : (o : ℕ) → page_entry q o ≡ page_entry p o
    longer : length (pg.slots q) ≤ length (pg.slots p) + n
    enough : (length (pg.slots q) ≡ length (pg.slots p) + n) ⊎ (mp.gap q < item_space)

  len-le : {a b : ℕ} (n : ℕ) → b ≡ a + n → a ≤ b
  len-le n e = omega arith

  pad_page-Padded :
      (n : ℕ) (p : pg.Page) → UniformPage p → Padded p n (pad_page pg mp pad record_size n p)
  unfolding pad_page
  pad_page-Padded zero p u = record {
    uniform = u;
    same = λ o. refl;
    longer = omega arith;
    enough = inl (omega arith);
  }
  pad_page-Padded (suc n) p u =
      let a = add_ignored-Added p pad u in
      let r = pad_page-Padded n (add_ignored pg mp pad record_size p pad) a.uniform in
      elim a.added [
        | inl (room, len, items) ↦ record {
          uniform = r.uniform;
          same = λ o. r.same o ∙ ground (arith, items o, item_at-past (pg.slots p) o);
          longer = omega (arith, r.longer);
          enough = elim r.enough [ inl e ↦ inl (omega arith) | inr full ↦ inr full ];
        }
        | inr (full, unchanged) ↦
            let q = pad_page pg mp pad record_size n (add_ignored pg mp pad record_size p pad) in
            let r' = subst (λ w. Padded w n q) unchanged r in
            record {
              uniform = r'.uniform;
              same = r'.same;
              longer = omega (arith, r'.longer);
              enough = inr (elim r'.enough [
                | inl e ↦
                    omega
                      (arith, u.space, r'.uniform.space, mul-le-mul_left item_space (len-le n e))
                | inr still ↦ still
              ]);
            }
      ]

  -- The outcome of placing `new` at an offset: only that entry has changed, if the page has room for
  -- so many records, and no entry otherwise.
  pub record Placed (p : pg.Page) (offset : ℕ) (new : I) (q : pg.Page) : Type 0 where
    pub uniform : UniformPage q
    pub entries :
        (v : ℕ)
        → page_entry q v ≡ (
            if v == offset && leb (item_space * offset) (blcksz - size_of_page_header)
            then new
            else page_entry p v)
    pub present :
        item_at (pg.slots q) offset
        ≡ (if leb (item_space * offset) (blcksz - size_of_page_header) then some new else none)

  module _ (p : pg.Page) (offset : ℕ) (new : I) (u : UniformPage p) where
    abbrev padding : ℕ
    padding = offset - 1 - length (pg.slots p)

    module _ (q r : pg.Page) (padded : Padded p padding q)
        (beyond : length (pg.slots p) < offset) where
      Placed-last :
          UniformPage r
          → item_space ≤ mp.gap q
          → ((o : ℕ)
              → item_at (pg.slots r) o
                ≡ (if o == length (pg.slots q) + 1 then some new else item_at (pg.slots q) o))
          → Placed p offset new r
      Placed-last uniform room items =
          let last : length (pg.slots q) + 1 ≡ offset = elim padded.enough [
            | inl e ↦ omega arith
            | inr full ↦ absurd (omega arith)
          ] in
          let scaled = ap (λ (k : ℕ). item_space * k) last in
          let fits : item_space * offset ≤ blcksz - size_of_page_header =
            omega (arith, padded.uniform.space) in
          record {
            uniform = uniform;
            entries = λ v. ground (arith, items v, padded.same v);
            present = ground (arith, items offset);
          }

      Placed-nowhere : mp.gap q < item_space → Placed p offset new q
      Placed-nowhere full =
          let below : length (pg.slots q) + 1 ≤ offset = omega (arith, padded.longer) in
          let none_fits : blcksz - size_of_page_header < item_space * offset =
            omega (arith, padded.uniform.space, mul-le-mul_left item_space below) in
          record {
            uniform = padded.uniform;
            entries = λ v. ground (arith, padded.same v);
            present = ground (arith, item_at-past (pg.slots q) offset (omega arith));
          }

  Placed-within :
      (p : pg.Page) (k : ℕ) (new : I)
      → UniformPage p
      → k < length (pg.slots p)
      → (old : I) × (item_at (pg.slots p) (suc k) ≡ some old)
        × Placed p (suc k) new (pg.put p (suc k) new)
  Placed-within p k new u lt =
      let (old, e) = AllNormal-item (pg.slots p) k u.normal lt in
      let reads : (v : ℕ)
          → item_at (pg.slots (pg.put p (suc k) new)) v
            ≡ (if v == suc k then some new else item_at (pg.slots p) v) =
        λ v. rw (pg.slots_put p k new) (item_at-set (pg.slots p) k new old v e) in
      let bound : suc k ≤ length (pg.slots p) = lt in
      let fits : item_space * suc k ≤ blcksz - size_of_page_header =
        omega (arith, u.space, mul-le-mul_left item_space bound) in
      (
        old,
        e,
        record {
          uniform = record {
            normal = AllNormal-put pg p (suc k) new old e u.normal;
            space =
                rw
                  (
                    mp.gap_put p (suc k) new,
                    pg.slots_put p k new,
                    length-set (pg.slots p) k (some new),
                  )
                  u.space;
          };
          entries = λ v. ground (arith, reads v);
          present = ground (arith, reads (suc k));
        },
      )

  pub place_in_page-Placed :
      (p : pg.Page) (offset : ℕ) (new : I)
      → UniformPage p
      → 0 < offset
      → Placed p offset new (place_in_page pg mp pad record_size p offset new)
  unfolding place_in_page
  place_in_page-Placed p zero new u pos = absurd (omega arith)
  place_in_page-Placed p (suc k) new u pos =
      let offset = suc k in
      let n = offset - 1 - length (pg.slots p) in
      let q = pad_page pg mp pad record_size n p in
      let r = pad_page-Padded n p u in
      let a = add_ignored-Added q new r.uniform in
      elim (Bool-cases (ltb (length (pg.slots p)) offset)) [
        | inl beyond ↦
            rw (beyond, place_in_page)
              (elim a.added [
                | inl (room, len, items) ↦
                    Placed-last p offset new u q (add_ignored pg mp pad record_size q new) r
                      (ground arith) a.uniform room items
                | inr (full, unchanged) ↦
                    subst (Placed p offset new) (sym unchanged)
                      (Placed-nowhere p offset new u q q r (ground arith) full)
              ])
        | inr within ↦
            let (old, e, placed) = Placed-within p k new u (ground arith) in
            rw (within, e, place_in_page) placed
      ]
