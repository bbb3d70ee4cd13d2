-- ===== src/Lib.antt =====
-- NeoPostGraph: a property graph store inside PostgreSQL, by table access methods of its own.
--
-- A label of a graph has an entity table (src/backend/access/np_entity_store.c) whose rows are
-- versions of vertices or edges, and a physical map (src/backend/access/np_phys_map.c) that leads
-- from an id to the address of the current version, and for a vertex to the head of its adjacency.
-- The adjacency of a vertex begins in linked lists (src/backend/access/np_linked_list.c) and is
-- compacted into chains of blocks (src/backend/access/np_adj_list.c, np_arraylist.c). Catalog tables
-- use an access method that puts a header before a heap tuple
-- (src/backend/access/np_catalog_heap.c). The statements are in src/backend/dml.
--
-- The files:
-- - Common: Boolean tests, splits, and lists over the native numbers; Layout: sizes on a page.
-- - Mvcc: the visibility tests (np_entity_tuple_is_live, np_entity_tuple_xmax_other,
--   np_catalog_tuple_visible, np_record_satisfies_snapshot and its copy for array lists,
--   FullXidRelativeTo). What they ask of the transaction manager is the record Xact.
-- - Storage: relations as lists of pages, and np_write_record_to_page. PageOps is what the code
--   uses of bufpage.c, with laws that bufpage.c documents.
-- - Entity: packing (np_entity_pack and the functions that take it apart) and
--   np_entity_store_tuple_update.
-- - Catalog: np_catalog_tuple_insert, multi_insert, tuple_update and tuple_delete. An update is
--   written as the test of the old tuple, and what follows after the lock is given back.
-- - Scan: getnextslot of the access methods, in the form that keeps an offset and in the form that
--   keeps its block pinned.
-- - PhysMap: np_id_to_tid and np_tid_to_id, np_place_physmap_record with its copy for edges, the
--   in-place updates, and get_current_head_tid. MapPages adds to PageOps the bytes left on a page.
-- - AdjList: np_append_adj_list and the lists in memory, np_merge_existing_arraylist and
--   np_insert_chunked_arraylist.
-- - LinkedList: np_linked_list_tableam_tuple_insert and tuple_update, and
--   insert_edge_one_direction with the links that it makes. Tables are functions of their Oids.
-- - Graph: the entity and map part of np_internal_insert_vertex and np_internal_insert_edge,
--   np_fetch_vertex_properties and np_fetch_edge_properties.
-- - GtypeExt: np_serialize_extended_type and np_deserialize_extended_type of
--   src/backend/utils/adt/gtype_ext.c, on buffers of bytes.
-- - Delete: np_internal_delete_edge, np_delete_edge_from_adj_list and delete_vertex of
--   src/backend/dml/dml_delete.c. The adjacency of a vertex is a chain of nodes, read off the tables.
--   A walk along it is given a number of turns; one more than it has nodes is enough.
-- - Parser: the recursive descent of src/backend/utils/adt/gtype_parser.c, over a Lexer that stands for
--   gtype_lex and for check_stack_depth, which may refuse a depth of nesting. A call of parse_object, parse_array or parse_object_field, an element and a turn of
--   their loops take one of a number of turns; as many as a document has parts are enough.
-- - Gtype: the stack of containers behind push_gtype_value and uniqueify_gtype_object, of
--   src/backend/utils/adt/gtype_util.c, and in Gtype/In the semantic actions of gtype.c. PgInput is
--   the input functions of PostgreSQL's types, and Qsort its qsort_arg. Gtype/Convert has
--   convert_to_gtype on a buffer of bytes, with check_stack_depth as a parameter, and Gtype/Entries the entries of a container with
--   get_gtype_offset and get_gtype_length.
-- - Sample: a page layer and a transaction manager for the runs in the Tests modules.
--
-- A result is an Outcome: a value, an error, or a call that does not return. An append that needs
-- the lock that its caller holds does not return, and neither does a drained scan that is not given
-- enough calls; one call more than there are rows is enough. Loops over pages and offsets count down
-- what is left of them. Block numbers, offsets and ids keep their 32, 16 and 64 bits where the code
-- computes them; lists in memory, and the elements
-- and pairs of a gtype container, are doubled up to the allocator's limit. Line pointers are read
-- within those of the page, where np_fetch_vertex_properties asks for one without that test, and
-- items are whole records, so that the scan's error for a shorter item is left out. A write and its WAL record are one
-- step. A relation is changed by one backend at a time, except where a theorem orders the steps of
-- two.
--
-- Not modelled: compaction of linked lists as a whole, updates and label changes of src/backend/dml,
-- annotations, the lexer of gtype and the iterator over its bytes under src/backend/utils/adt, the
-- caches, the label and graph catalogs and their DDL, logical decoding, and the callbacks that only
-- raise an error.
pub mod Common
pub mod Layout
pub mod Mvcc
pub mod Storage
pub mod Entity
pub mod Catalog
pub mod Scan
pub mod PhysMap
pub mod AdjList
pub mod LinkedList
pub mod Graph
pub mod GtypeExt
pub mod Delete
pub mod Parser
pub mod Gtype
pub mod Sample
