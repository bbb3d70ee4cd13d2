-- ===== src/Storage.antt =====
-- Relations as lists of blocks, and `np_write_record_to_page` of
-- src/backend/access/np_entity_store.c, through which every access method appends a record.
-- The page layer of PostgreSQL is the parameter `PageOps`.
pub mod Fetch
pub mod Append
pub mod Outcomes
mod Tests
use neo_post_graph.Common.{
  ℕ, zero, suc, ◌+◌, ◌-◌, ◌≤◌, ◌≡◌, Bool, true, false, not, ◌&&◌, Option, none, some, List, [], ◌∷◌,
  ◌++◌, ltb, ◌==◌, if◌then◌else◌, length, get_elem?, set,
}
use neo_post_graph.Layout.{maxalign, size_of_item_id}

-- A tuple's address. The offset counts from 1; 0 is the invalid pointer's.
pub record Tid : Type 0 where
  pub block : ℕ
  pub offset : ℕ

abbrev pub tid : ℕ → ℕ → Tid
tid b o = record { block = b; offset = o }

abbrev pub invalid_tid : Tid
invalid_tid = tid 4294967295 0

abbrev pub tid_is_valid : Tid → Bool
tid_is_valid t = not (t.offset == 0)

-- A line pointer that is not normal is `none`.
abbrev pub AllNormal {ℓ} : {I : Type ℓ} → List (Option I) → Type 0
AllNormal [] = Unit {0}
AllNormal (none ∷ ss) = ⊥
AllNormal (some i ∷ ss) = AllNormal ss

-- The page layer. `blank` is the zeroed block of P_NEW, `empty` what PageInit makes, `add` is
-- PageAddItem at InvalidOffsetNumber of an item of that size, and `put` a store into the item
-- behind the line pointer with that offset.
pub record PageOps (I : Type 0) : Type 1 where
  pub Page : Type 0
  pub slots : Page → List (Option I)
  pub blank : Page
  pub empty : Page
  pub is_new : Page → Bool
  pub free_space : Page → ℕ
  pub add : Page → I → ℕ → Option (Page × ℕ)
  pub put : Page → ℕ → I → Page
  pub new_blank : is_new blank ≡ true
  pub slots_new : (p : Page) → is_new p ≡ true → slots p ≡ []
  pub slots_empty : slots empty ≡ []
  -- With no line pointer to recycle the item goes behind the last one.
  pub slots_add :
      (p : Page) (i : I) (n : ℕ) (p' : Page) (o : ℕ)
      → AllNormal (slots p)
      → add p i n ≡ some (p', o)
      → (slots p' ≡ slots p ++ (some i ∷ [])) × (o ≡ length (slots p) + 1)
  pub add_fits :
      (p : Page) (i : I) (n : ℕ)
      → maxalign n + size_of_item_id ≤ free_space p
      → (r : Page × ℕ) × (add p i n ≡ some r)
  pub slots_put : (p : Page) (k : ℕ) (i : I) → slots (put p (suc k) i) ≡ set (slots p) k (some i)

pub data Error : Type 0 where
  -- "Failed to add tuple to new page despite free space check"
  add_failed : Error
  -- reading a block past the end of the relation
  no_block : Error
  -- a line pointer that is not normal where the code raises an error, or dereferences it
  not_normal : Error
  no_active_list : Error
  -- check_stack_depth
  statement_too_complex : Error
  -- "invalid gtype token type", "invalid gtype scalar type %d to convert"
  invalid_type : Error
  -- "Unknown old head format during insert_edge"
  unknown_table : Error
  -- an allocation above MaxAllocSize
  invalid_alloc_size : Error
  -- a store behind the end of an allocation, which C does not define
  wild_write : Error
  -- a label that the cache does not know, or that lacks the table
  no_label : Error
  -- "Vertex ID not found in phys_map"
  undefined_object : Error
  -- "was concurrently deleted or updated"
  concurrent_change : Error
  -- "Cannot delete vertex because it still has active edges"
  active_edges : Error
  -- repalloc of a null pointer
  null_repalloc : Error
  -- report_parse_error and report_invalid_token
  parse_error : Error
  -- "invalid value for annotation"
  invalid_annotation : Error
  -- more pairs or elements than a gtype can hold
  program_limit_exceeded : Error

-- `hang` is a call that does not return: a wait for a buffer lock that the waiting backend itself
-- holds, or a loop that was not given enough turns.
pub data Outcome (A : Type 0) : Type 0 where
  ok : A → Outcome A
  err : Error → Outcome A
  hang : Outcome A

infixl 5 ◌>>=◌ ◌>>◌
abbrev pub ◌>>=◌ : {A B : Type 0} → Outcome A → (A → Outcome B) → Outcome B
ok a >>= f = f a
err e >>= f = err e
hang >>= f = hang

abbrev pub ◌>>◌ : {B : Type 0} → Outcome (Unit {0}) → Outcome B → Outcome B
m >> k = m >>= λ _. k

abbrev pub guard : Bool → Error → Outcome (Unit {0})
guard true e = ok tt
guard false e = err e

abbrev pub item_at {ℓ} : {I : Type ℓ} → List (Option I) → ℕ → Option I
item_at ss zero = none
item_at ss (suc k) = elim (get_elem? ss k) [ none ↦ none | some s ↦ s ]

abbrev pub is_held : Option ℕ → ℕ → Bool
is_held none b = false
is_held (some h) b = h == b

module _ {I : Type 0} (pg : PageOps I) where
  open pg use {Page, slots, blank, empty, is_new, free_space, add, put}

  abbrev pub Rel : Type 0
  Rel = List Page

  -- The item at an address: `none` past the end of the relation or the page, and behind a line
  -- pointer that is not normal.
  unfoldable pub fetch : Rel → Tid → Option I
  fetch rel t = elim (get_elem? rel t.block) [ none ↦ none | some p ↦ item_at (slots p) t.offset ]

  -- A store into an existing item, under an exclusive lock and a WAL record of the page.
  unfoldable pub store : Rel → Tid → I → Rel
  store rel t i = elim (get_elem? rel t.block) [
    | none ↦ rel
    | some p ↦ set rel t.block (put p t.offset i)
  ]

  unfoldable pub place : Rel → ℕ → Page → I → ℕ → Outcome (Rel × Tid)
  place rel b p i n = elim (add (if is_new p then empty else p) i n) [
    | none ↦ err add_failed
    | some (p', o) ↦ ok (set rel b p', tid b o)
  ]

  -- `np_write_record_to_page`. `held` is the block of `rel` that the caller keeps locked.
  unfoldable pub write_record : Option ℕ → Rel → I → ℕ → Outcome (Rel × Tid)
  write_record held rel i n =
      let last = length rel - 1 in
      elim (get_elem? rel last) [
        | none ↦ place (rel ++ (blank ∷ [])) 0 blank i n
        | some p ↦
            if is_held held last
            then hang
            else if not (is_new p) && ltb (free_space p) (maxalign n + size_of_item_id)
            then place (rel ++ (blank ∷ [])) (length rel) blank i n
            else place rel last p i n
      ]
