-- ===== src/Storage/Tests.antt =====
-- Runs of `np_write_record_to_page`, and its theorems at a concrete relation.
use neo_post_graph.Common.{ℕ, ◌≡◌, refl, none, some, [], ◌∷◌, arith}
use neo_post_graph.Storage.{Tid, tid, ok, Rel, place, write_record}
use neo_post_graph.Storage.Append.{
  RelNormal, IsAppended, write_record-IsAppended, write_record_total,
}
use neo_post_graph.Sample.{ready, sample_pages, RelNormal-one}

-- A block with one item and room for more.
abbrev one_block : Rel (sample_pages ℕ)
one_block = ready 100 (some 4 ∷ []) ∷ []

abbrev two_items : Rel (sample_pages ℕ)
two_items = ready 80 (some 4 ∷ some 9 ∷ []) ∷ []

one_block-RelNormal : RelNormal (sample_pages ℕ) one_block
one_block-RelNormal = RelNormal-one (sample_pages ℕ) (ready 100 (some 4 ∷ [])) tt

write_record_run : write_record (sample_pages ℕ) none one_block 9 16 ≡ ok (two_items, tid 0 2)
unfolding write_record place
write_record_run = refl

-- No room is left for an item of 128 bytes: the relation grows by a block.
write_record_grows :
    write_record (sample_pages ℕ) none one_block 9 128
    ≡ ok (ready 100 (some 4 ∷ []) ∷ ready 8036 (some 9 ∷ []) ∷ [], tid 1 1)
unfolding write_record place
write_record_grows = refl

write_record-IsAppended_example : IsAppended (sample_pages ℕ) one_block 9 two_items (tid 0 2)
write_record-IsAppended_example =
    write_record-IsAppended (sample_pages ℕ) none one_block 9 16 two_items (tid 0 2)
      one_block-RelNormal write_record_run

write_record_total_example :
    (r : Rel (sample_pages ℕ) × Tid) × (write_record (sample_pages ℕ) (some 3) one_block 9 128
      ≡ ok r)
write_record_total_example =
    write_record_total (sample_pages ℕ) (some 3) one_block 9 128 refl (omega arith)
