-- ===== src/LinkedList/Push.antt =====
-- An edge at the head of a vertex's list.
use neo_post_graph.Common.{
  ℕ, ◌+◌, ◌-◌, ◌≤◌, ◌<◌, ◌≡◌, ap, ◌∙◌, Bool, true, false, ◌&&◌, Option, none, some, List, arith,
  ◌==◌, if◌then◌else◌, length, Bool-cases, inl, inr,
}
use mathlib.Core.Path.{subst}
use neo_post_graph.Layout.{maxalign, size_of_item_id}
use neo_post_graph.Storage.{Tid, tid_is_valid, PageOps, ok, is_held, Rel, fetch, store}
use neo_post_graph.Storage.Fetch.{fetch-block, fetch-store}
use neo_post_graph.Storage.Append.{
  RelNormal, IsAppended, write_record-IsAppended, write_record_total,
}
use neo_post_graph.PhysMap.{
  NeoPhysMapRecord, id_to_tid, calculate_tuples_per_page, size_of_phys_map_record,
  get_current_head_tid, update_vertex_phys_map,
}
use neo_post_graph.PhysMap.Address.{Addressable}
use neo_post_graph.PhysMap.ById.{update_vertex_phys_map-head}
use neo_post_graph.AdjList.{ArrayListRecord}
use neo_post_graph.LinkedList.{
  LinkedListRecord, size_of_linked_list_record, MetaRow, get_active_linked_list_oid, Tables,
  put_linked, linked_list_insert, update_edge_prev_pointer, link_old_head, head_record,
  insert_edge_one_direction,
}

abbrev pub same : Tid → Tid → Bool
same u t = u.block == t.block && u.offset == t.offset

module _ (pl : PageOps LinkedListRecord) (pa : PageOps ArrayListRecord)
    (pm : PageOps NeoPhysMapRecord) where
  -- The record at an address of a linked list.
  abbrev pub at : Tables pl pa pm → ℕ → Tid → Option LinkedListRecord
  at ts o u = fetch pl (ts.linked o) u

  linked_list_insert-IsAppended :
      (fxid cid e e_lid direction owner other other_lid : ℕ) (old : ℕ × Tid) (rel : Rel pl)
      → RelNormal pl rel
      → 84 ≤ pl.free_space pl.empty
      → (rel' : Rel pl) × (t : Tid) × (linked_list_insert pl pa pm fxid cid rel
            (head_record fxid cid e e_lid direction owner other other_lid old)
          ≡ ok (rel', t))
        × IsAppended pl rel
            (head_record fxid cid e e_lid direction owner other other_lid old)
            rel'
            t
  unfolding linked_list_insert head_record
  linked_list_insert-IsAppended fxid cid e e_lid direction owner other other_lid (tbl, head) rel
        normal room =
      let new = head_record fxid cid e e_lid direction owner other other_lid (tbl, head) in
      let free : is_held none (length rel - 1) ≡ false = λ i. false in
      let fits : maxalign size_of_linked_list_record + size_of_item_id ≤ pl.free_space pl.empty =
        omega arith in
      let ((rel', t), w) =
        write_record_total pl none rel new size_of_linked_list_record free fits in
      (
        rel',
        t,
        w,
        write_record-IsAppended pl none rel new size_of_linked_list_record rel' t normal w,
      )

  update_edge_prev_pointer-eq :
      (rel : Rel pl) (t : Tid) (r : LinkedListRecord) (tbl : ℕ) (new : Tid)
      → fetch pl rel t ≡ some r
      → update_edge_prev_pointer pl pa pm rel t tbl new
        ≡ ok (store pl rel t (record r { prev_tbl = tbl; prev_itemptr = new }))
  unfolding update_edge_prev_pointer
  update_edge_prev_pointer-eq rel t r tbl new h =
      let (p, e) = fetch-block pl rel t r h in ground arith

  update_vertex_phys_map_total :
      (pmap : Rel pm) (id oid : ℕ) (t : Tid) (r : NeoPhysMapRecord)
      → fetch pm pmap (id_to_tid id (calculate_tuples_per_page size_of_phys_map_record)) ≡ some r
      → (pmap' : Rel pm) × (update_vertex_phys_map pm pmap id oid t ≡ ok pmap')
  unfolding update_vertex_phys_map
  update_vertex_phys_map_total pmap id oid t r h =
      let at = id_to_tid id (calculate_tuples_per_page size_of_phys_map_record) in
      let (p, e) = fetch-block pm pmap at r h in
      (store pm pmap at (record r { e_tbl_id = oid; e_itemptr = t }), ground arith)

  -- What the tables hold after an insert into the active one.
  pushed_reads :
      (ts : Tables pl pa pm) (active : ℕ) (t : Tid) (rel' : Rel pl) (new : LinkedListRecord)
      → IsAppended pl (ts.linked active) new rel' t
      → (o : ℕ) (u : Tid)
      → at (put_linked pl pa pm active rel' ts) o u
        ≡ (if o == active && same u t then some new else at ts o u)
  pushed_reads ts active t rel' new app o u = elim (Bool-cases (o == active)) [
    | inl this ↦
        let here : at ts active u ≡ at ts o u = ap (λ (k : ℕ). at ts k u) (ground arith) in
        ground (arith, app.fetched u)
    | inr other_list ↦ ground arith
  ]

  -- What they hold after the old head is linked to the new one.
  linked_reads :
      (ts : Tables pl pa pm) (active old_tbl : ℕ) (old_head t : Tid) (rel' : Rel pl)
      (new old : LinkedListRecord)
      → IsAppended pl (ts.linked active) new rel' t
      → at (put_linked pl pa pm active rel' ts) old_tbl old_head ≡ some old
      → let mid = put_linked pl pa pm active rel' ts in
        let linked = record old { prev_tbl = active; prev_itemptr = t } in
        (o : ℕ) (u : Tid)
        → at (put_linked pl pa pm old_tbl (store pl (mid.linked old_tbl) old_head linked) mid) o u
          ≡ (if o == old_tbl && same u old_head
              then some linked
              else if o == active && same u t
              then some new
              else at ts o u)
  linked_reads ts active old_tbl old_head t rel' new old app there o u =
      let mid = put_linked pl pa pm active rel' ts in
      let linked = record old { prev_tbl = active; prev_itemptr = t } in
      let pushed = pushed_reads ts active t rel' new app o u in
      elim (Bool-cases (o == old_tbl)) [
        | inl this ↦
            let here : at mid old_tbl u ≡ at mid o u = ap (λ (k : ℕ). at mid k u) (ground arith) in
            ground (arith, fetch-store pl (mid.linked old_tbl) old_head linked old u there)
        | inr other_list ↦ ground arith
      ]

  -- The insert of an edge in one direction, at an owner whose list begins with a linked list entry,
  -- makes a new entry at a fresh address of the active linked list the head. Its next entry is the old
  -- head, whose previous entry it becomes, and no other entry of any linked list changes. This holds
  -- if the owner has its record in the map, by the address of this insert, the line pointers of the
  -- active list are in use, and an empty page has room for an entry.
  pub insert_edge_one_direction-head :
      (fxid cid e e_lid direction owner other other_lid active old_tbl : ℕ) (old_head : Tid)
      (meta : List MetaRow) (ts : Tables pl pa pm) (pmap : Rel pm) (slot : NeoPhysMapRecord)
      (old : LinkedListRecord)
      → 84 ≤ pl.free_space pl.empty
      → get_active_linked_list_oid meta ≡ active
      → 0 < active
      → RelNormal pl (ts.linked active)
      → Addressable 157 owner
      → fetch pm pmap (id_to_tid owner (calculate_tuples_per_page size_of_phys_map_record))
        ≡ some slot
      → get_current_head_tid pm pmap owner ≡ (old_tbl, old_head)
      → tid_is_valid old_head ≡ true
      → 0 < old_tbl
      → ts.natts old_tbl ≡ 10
      → at ts old_tbl old_head ≡ some old
      → let new =
          head_record fxid cid e e_lid direction owner other other_lid (old_tbl, old_head) in
        (ts' : Tables pl pa pm) × (pmap' : Rel pm) × (t : Tid) × (insert_edge_one_direction pl pa pm
            fxid cid meta ts pmap e e_lid direction owner other other_lid
          ≡ ok (ts', pmap'))
        × (get_current_head_tid pm pmap' owner ≡ (active, t))
        × (at ts active t ≡ none)
        × ((o : ℕ) (u : Tid)
            → at ts' o u ≡ (
                if o == old_tbl && same u old_head
                then some (record old { prev_tbl = active; prev_itemptr = t })
                else if o == active && same u t
                then some new
                else at ts o u))
        × (new.next_tbl ≡ old_tbl)
        × (new.next_itemptr ≡ old_head)
  unfolding insert_edge_one_direction link_old_head head_record
  insert_edge_one_direction-head fxid cid e e_lid direction owner other other_lid active old_tbl
        old_head meta ts pmap slot old room is_active pos normal a here head valid tpos natts
        there =
      let new = head_record fxid cid e e_lid direction owner other other_lid (old_tbl, old_head) in
      let (rel', t, w, app) =
        linked_list_insert-IsAppended fxid cid e e_lid direction owner other other_lid
          (old_tbl, old_head) (ts.linked active) normal room in
      let mid = put_linked pl pa pm active rel' ts in
      let there' : at mid old_tbl old_head ≡ some old = elim (Bool-cases (old_tbl == active)) [
        | inl this ↦
            let in_active : at ts active old_head ≡ some old =
              subst (λ (k : ℕ). at ts k old_head ≡ some old) (ground arith) there in
            ground (arith, app.fetched old_head, app.fresh)
        | inr other_list ↦ ground arith
      ] in
      let linked = update_edge_prev_pointer-eq (mid.linked old_tbl) old_head old active t there' in
      let stored =
        store pl (mid.linked old_tbl) old_head
          (record old { prev_tbl = active; prev_itemptr = t }) in
      let (pmap', up) = update_vertex_phys_map_total pmap owner active t slot here in
      let linking : link_old_head pl pa pm mid old_tbl old_head active t
          ≡ ok (put_linked pl pa pm old_tbl stored mid) =
        ground (arith, linked) in
      let run : insert_edge_one_direction pl pa pm fxid cid meta ts pmap e e_lid direction owner
            other other_lid
          ≡ ok (put_linked pl pa pm old_tbl stored mid, pmap') =
        ground (arith, is_active, head, w, linking, up) in
      let reads = linked_reads ts active old_tbl old_head t rel' new old app there' in
      (
        put_linked pl pa pm old_tbl stored mid,
        pmap',
        t,
        run,
        update_vertex_phys_map-head pm pmap pmap' owner owner active t a a up ∙ ground arith,
        app.fresh,
        reads,
        ground arith,
        ground arith,
      )
