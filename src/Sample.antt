-- ===== src/Sample.antt =====
-- A page layer and a transaction manager that meet what the development asks of PostgreSQL's, for
-- the runs at concrete inputs: pages are lists of items with the bytes left, and a transaction's
-- state is read off its number.
use neo_post_graph.Common.{
  ℕ, zero, suc, ◌+◌, ◌-◌, ◌%◌, ◌^◌, ◌≤◌, ◌<◌, ◌≡◌, refl, Bool, true, false, not, Option, none, some,
  List, [], ◌∷◌, ◌++◌, arith, ltb, leb, ◌==◌, if◌then◌else◌, length, set,
}
use mathlib.Core.Path.{subst}
use neo_post_graph.Layout.{maxalign, size_of_item_id, blcksz, size_of_page_header}
use neo_post_graph.Mvcc.{Xact, Snapshot, mvcc}
use neo_post_graph.Storage.{AllNormal, PageOps}
use neo_post_graph.Storage.Append.{RelNormal}
use neo_post_graph.PhysMap.{MapPages}

-- A page of zeroes, or one with so many bytes left.
pub data SamplePage (I : Type 0) : Type 0 where
  zeroed : SamplePage I
  ready : ℕ → List (Option I) → SamplePage I

module _ {I : Type 0} where
  abbrev pub sample_slots : SamplePage I → List (Option I)
  sample_slots zeroed = []
  sample_slots (ready g items) = items

  abbrev pub sample_is_new : SamplePage I → Bool
  sample_is_new zeroed = true
  sample_is_new (ready g items) = false

  abbrev pub sample_gap : SamplePage I → ℕ
  sample_gap zeroed = 0
  sample_gap (ready g items) = g

  abbrev pub sample_add : SamplePage I → I → ℕ → Option (SamplePage I × ℕ)
  sample_add zeroed i n = none
  sample_add (ready g items) i n =
      let taken = maxalign n + size_of_item_id in
      if leb taken g
      then some (ready (g - taken) (items ++ (some i ∷ [])), length items + 1)
      else none

  abbrev pub sample_put : SamplePage I → ℕ → I → SamplePage I
  sample_put zeroed o i = zeroed
  sample_put (ready g items) zero i = ready g items
  sample_put (ready g items) (suc k) i = ready g (set items k (some i))

  pub slots_new_lem : (p : SamplePage I) → sample_is_new p ≡ true → sample_slots p ≡ []
  slots_new_lem zeroed h = refl
  slots_new_lem (ready g items) h = cc

  pub slots_add_lem :
      (p : SamplePage I) (i : I) (n : ℕ) (p' : SamplePage I) (o : ℕ)
      → sample_add p i n ≡ some (p', o)
      → (sample_slots p' ≡ sample_slots p ++ (some i ∷ [])) × (o ≡ length (sample_slots p) + 1)
  slots_add_lem zeroed i n p' o h = cc
  slots_add_lem (ready g items) i n p' o h = ground arith

  pub add_fits_lem :
      (p : SamplePage I) (i : I) (n : ℕ)
      → maxalign n + size_of_item_id ≤ sample_gap p - size_of_item_id
      → (r : SamplePage I × ℕ) × (sample_add p i n ≡ some r)
  add_fits_lem zeroed i n h = absurd (omega arith)
  add_fits_lem (ready g items) i n h = (
    (ready (g - (maxalign n + size_of_item_id)) (items ++ (some i ∷ [])), length items + 1),
    ground arith,
  )

  pub slots_put_lem :
      (p : SamplePage I) (k : ℕ) (i : I)
      → sample_slots (sample_put p (suc k) i) ≡ set (sample_slots p) k (some i)
  slots_put_lem zeroed k i = refl
  slots_put_lem (ready g items) k i = refl

  pub gap_put_lem :
      (p : SamplePage I) (o : ℕ) (i : I) → sample_gap (sample_put p o i) ≡ sample_gap p
  gap_put_lem zeroed o i = refl
  gap_put_lem (ready g items) zero i = refl
  gap_put_lem (ready g items) (suc k) i = refl

  pub add_room_lem :
      (p : SamplePage I) (i : I) (n : ℕ)
      → maxalign n + size_of_item_id ≤ sample_gap p
      → (p' : SamplePage I) × (o : ℕ) × (sample_add p i n ≡ some (p', o))
        × (sample_gap p' + (maxalign n + size_of_item_id) ≡ sample_gap p)
  add_room_lem zeroed i n h = absurd (omega arith)
  add_room_lem (ready g items) i n h = (
    ready (g - (maxalign n + size_of_item_id)) (items ++ (some i ∷ [])),
    length items + 1,
    ground arith,
    omega arith,
  )

  pub add_full_lem :
      (p : SamplePage I) (i : I) (n : ℕ)
      → sample_gap p < maxalign n + size_of_item_id
      → sample_add p i n ≡ none
  add_full_lem zeroed i n h = refl
  add_full_lem (ready g items) i n h = ground arith

abbrev pub sample_pages : (I : Type 0) → PageOps I
sample_pages I = record {
  Page = SamplePage I;
  slots = sample_slots;
  blank = zeroed;
  empty = ready (blcksz - size_of_page_header) [];
  is_new = sample_is_new;
  free_space = λ p. sample_gap p - size_of_item_id;
  add = sample_add;
  put = sample_put;
  new_blank = refl;
  slots_new = slots_new_lem;
  slots_empty = refl;
  slots_add = λ p i n p' o h e. slots_add_lem p i n p' o e;
  add_fits = add_fits_lem;
  slots_put = slots_put_lem;
}

abbrev pub sample_map_pages : (I : Type 0) → MapPages (sample_pages I)
sample_map_pages I = record {
  add_at = λ p i n o. some (sample_put p o i);
  gap = sample_gap;
  gap_empty = refl;
  add_room = λ p i n h. add_room_lem p i n;
  add_full = λ p i n h. add_full_lem p i n;
  gap_put = gap_put_lem;
}

-- Transaction 0 is invalid, 7 is the current one, 5 is in progress, 6 aborted, the others committed.
abbrev pub sample_xact : Xact
sample_xact = record {
  is_valid = λ f. not (f == 0);
  xid = λ f. f % 2 ^ 32;
  precedes = ltb;
  next_fxid = 8;
  is_current = λ i. i == 7;
  in_progress = λ i. i == 5;
  did_commit = λ i. ltb i 5;
}

-- A snapshot of command 3 of transaction 7.
abbrev pub sample_snapshot : Snapshot
sample_snapshot = record { snapshot_type = mvcc; xmin = 5; curcid = 3; in_snapshot = λ i. i == 5 }

-- Relations of no block, of one and of two.
pub RelNormal-none : {I : Type 0} (pg : PageOps I) → RelNormal pg []
RelNormal-none pg b p e = cc

pub RelNormal-one :
    {I : Type 0} (pg : PageOps I) (p : pg.Page) → AllNormal (pg.slots p) → RelNormal pg (p ∷ [])
RelNormal-one pg p n zero q e =
    let same : p ≡ q = ground arith in subst (λ r. AllNormal (pg.slots r)) same n
RelNormal-one pg p n (suc b) q e = cc

pub RelNormal-two :
    {I : Type 0} (pg : PageOps I) (p q : pg.Page)
    → AllNormal (pg.slots p)
    → AllNormal (pg.slots q)
    → RelNormal pg (p ∷ q ∷ [])
RelNormal-two pg p q n m zero r e =
    let same : p ≡ r = ground arith in subst (λ s. AllNormal (pg.slots s)) same n
RelNormal-two pg p q n m (suc b) r e = RelNormal-one pg q m b r e
