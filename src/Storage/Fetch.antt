-- ===== src/Storage/Fetch.antt =====
-- Addresses before and after a store and an append.
use neo_post_graph.Common.{
  ℕ, zero, suc, ◌+◌, ◌<◌, ◌≡◌, refl, ◌&&◌, Option, none, some, List, [], ◌∷◌, ◌++◌, arith, ◌==◌,
  if◌then◌else◌, length, get_elem?, set, get_elem?-set_self, get_elem?-set_ne, get_elem?-none,
  lt_of_get_elem?, Option-cases, Bool-cases, inl, inr,
}
use neo_post_graph.Storage.{Tid, AllNormal, PageOps, item_at, Rel, fetch, store}

module _ {ℓ} {I : Type ℓ} where
  pub item_at-append :
      (ss : List (Option I)) (i : I) (o : ℕ)
      → item_at (ss ++ (some i ∷ [])) o ≡ (if o == length ss + 1 then some i else item_at ss o)
  item_at-append [] i zero = ground arith
  item_at-append [] i (suc zero) = refl
  item_at-append [] i (suc (suc k)) = ground arith
  item_at-append (s ∷ ss) i zero = ground arith
  item_at-append (s ∷ ss) i (suc zero) = ground arith
  item_at-append (s ∷ ss) i (suc (suc k)) = ground (arith, item_at-append ss i (suc k))

  pub item_at-set :
      (ss : List (Option I)) (k : ℕ) (i j : I) (o : ℕ)
      → item_at ss (suc k) ≡ some j
      → item_at (set ss k (some i)) o ≡ (if o == suc k then some i else item_at ss o)
  item_at-set [] k i j o h = cc
  item_at-set (s ∷ ss) zero i j zero h = ground arith
  item_at-set (s ∷ ss) zero i j (suc zero) h = refl
  item_at-set (s ∷ ss) zero i j (suc (suc m)) h = ground arith
  item_at-set (s ∷ ss) (suc k) i j zero h = ground arith
  item_at-set (s ∷ ss) (suc k) i j (suc zero) h = ground arith
  item_at-set (s ∷ ss) (suc k) i j (suc (suc m)) h = ground (arith, item_at-set ss k i j (suc m) h)

  pub AllNormal-append :
      (ss : List (Option I)) (i : I) → AllNormal ss → AllNormal (ss ++ (some i ∷ []))
  AllNormal-append [] i h = tt
  AllNormal-append (none ∷ ss) i h = h
  AllNormal-append (some j ∷ ss) i h = AllNormal-append ss i h

  pub AllNormal-item :
      (ss : List (Option I)) (k : ℕ)
      → AllNormal ss
      → k < length ss
      → (i : I) × (item_at ss (suc k) ≡ some i)
  AllNormal-item [] k n h = absurd (omega arith)
  AllNormal-item (none ∷ ss) k n h = absurd n
  AllNormal-item (some i ∷ ss) zero n h = (i, refl)
  AllNormal-item (some i ∷ ss) (suc k) n h = AllNormal-item ss k n (omega arith)

  pub AllNormal-set :
      (ss : List (Option I)) (k : ℕ) (i : I) → AllNormal ss → AllNormal (set ss k (some i))
  AllNormal-set [] k i h = tt
  AllNormal-set (none ∷ ss) k i h = absurd h
  AllNormal-set (some j ∷ ss) zero i h = h
  AllNormal-set (some j ∷ ss) (suc k) i h = AllNormal-set ss k i h

item_at-nil {ℓ} : {I : Type ℓ} (ss : List (Option I)) (o : ℕ) → ss ≡ [] → item_at ss o ≡ none
item_at-nil ss zero h = refl
item_at-nil ss (suc k) h = rw h

pub item_at-past {ℓ} :
    {I : Type ℓ} (ss : List (Option I)) (o : ℕ) → length ss < o → item_at ss o ≡ none
item_at-past ss zero h = refl
item_at-past ss (suc k) h = ground (arith, get_elem?-none ss k)

pub slots_blank : {I : Type 0} (pg : PageOps I) → pg.slots pg.blank ≡ []
slots_blank pg = pg.slots_new pg.blank pg.new_blank

pub get_elem?-past {ℓ} :
    {A : Type ℓ} (xs : List A) (v : A) (i : ℕ)
    → get_elem? (xs ++ (v ∷ [])) i ≡ (if i == length xs then some v else get_elem? xs i)
get_elem?-past [] v zero = refl
get_elem?-past [] v (suc i) = ground arith
get_elem?-past (x ∷ xs) v zero = ground arith
get_elem?-past (x ∷ xs) v (suc i) = ground (arith, get_elem?-past xs v i)

module _ {I : Type 0} (pg : PageOps I) where
  -- The block of an address is replaced.
  pub fetch-set :
      (rel : Rel pg) (b : ℕ) (p : pg.Page) (t : Tid)
      → b < length rel
      → fetch pg (set rel b p) t
        ≡ (if t.block == b then item_at (pg.slots p) t.offset else fetch pg rel t)
  unfolding fetch
  fetch-set rel b p t h = elim (Bool-cases (t.block == b)) [
    | inl e ↦ ground (arith, get_elem?-set_self rel b p h)
    | inr e ↦ ground (arith, get_elem?-set_ne rel b t.block p)
  ]

  pub fetch-at :
      (rel : Rel pg) (t : Tid) (p : pg.Page)
      → get_elem? rel t.block ≡ some p
      → fetch pg rel t ≡ item_at (pg.slots p) t.offset
  unfolding fetch
  fetch-at rel t p e = ground arith

  -- The block of an item exists.
  pub fetch-block :
      (rel : Rel pg) (t : Tid) (i : I)
      → fetch pg rel t ≡ some i
      → (p : pg.Page) × (get_elem? rel t.block ≡ some p)
  unfolding fetch
  fetch-block rel t i h = elim (Option-cases (get_elem? rel t.block)) [
    | inl e ↦ absurd (ground arith)
    | inr (p, e) ↦ (p, e)
  ]

  -- An empty block behind the last one holds nothing.
  pub fetch-extend :
      (rel : Rel pg) (q : pg.Page) (t : Tid)
      → pg.slots q ≡ []
      → fetch pg (rel ++ (q ∷ [])) t ≡ fetch pg rel t
  unfolding fetch
  fetch-extend rel q t e = ground (
    arith,
    get_elem?-past rel q t.block,
    get_elem?-none rel t.block,
    item_at-nil (pg.slots q) t.offset e,
  )

  item_at-put :
      (p : pg.Page) (o : ℕ) (i j : I) (v : ℕ)
      → item_at (pg.slots p) o ≡ some j
      → item_at (pg.slots (pg.put p o i)) v ≡ (if v == o then some i else item_at (pg.slots p) v)
  item_at-put p zero i j v h = cc
  item_at-put p (suc k) i j v h = rw (pg.slots_put p k i) (item_at-set (pg.slots p) k i j v h)

  -- A store into an item that exists changes that item alone.
  pub fetch-store :
      (rel : Rel pg) (t : Tid) (i j : I) (u : Tid)
      → fetch pg rel t ≡ some j
      → fetch pg (store pg rel t i) u
        ≡ (if u.block == t.block && u.offset == t.offset then some i else fetch pg rel u)
  unfolding store fetch
  fetch-store rel t i j u h = elim (Option-cases (get_elem? rel t.block)) [
    | inl e ↦ ground arith
    | inr (p, e) ↦ ground (
      arith,
      lt_of_get_elem? rel t.block e,
      get_elem?-set_self rel t.block (pg.put p t.offset i),
      get_elem?-set_ne rel t.block u.block (pg.put p t.offset i),
      item_at-put p t.offset i j u.offset,
    )
  ]

  pub AllNormal-put :
      (p : pg.Page) (o : ℕ) (i j : I)
      → item_at (pg.slots p) o ≡ some j
      → AllNormal (pg.slots p)
      → AllNormal (pg.slots (pg.put p o i))
  AllNormal-put p zero i j h n = absurd (ground arith)
  AllNormal-put p (suc k) i j h n = rw (pg.slots_put p k i) (AllNormal-set (pg.slots p) k i n)
