-- ===== src/Layout.antt =====
-- Sizes of PostgreSQL's page format, for a build with the default 8 KB block and 8-byte alignment,
-- and the sizes of the records of src/include/access that the access methods place on a page.
use neo_post_graph.Common.{ℕ, ◌+◌, ◌*◌, ◌/◌}

abbrev pub maxalign : ℕ → ℕ
maxalign n = (n + 7) / 8 * 8

abbrev pub intalign : ℕ → ℕ
intalign n = (n + 3) / 4 * 4

abbrev pub blcksz : ℕ
blcksz = 8192

abbrev pub size_of_page_header : ℕ
size_of_page_header = 24

abbrev pub size_of_item_id : ℕ
size_of_item_id = 4

abbrev pub size_of_heap_tuple_header : ℕ
size_of_heap_tuple_header = 23

abbrev pub size_of_item_pointer : ℕ
size_of_item_pointer = 6
