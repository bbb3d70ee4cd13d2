-- ===== src/Gtype/Build.antt =====
-- The value of a document by recursion over it, and the stack of containers that builds it.
use neo_post_graph.Common.{
  ℕ, ◌≤◌, ◌≡◌, refl, ◌∙◌, leb, true, false, Option, none, some, List, [], ◌∷◌, ◌++◌, length,
  Bool-cases, inl, inr, arith,
}
use neo_post_graph.Storage.{Outcome, ok, err, invalid_alloc_size, ◌>>=◌}
use neo_post_graph.Storage.Outcomes.{Outcome-cases, bind_ok}
use neo_post_graph.Parser.{token_end, Lexer}
use neo_post_graph.Parser.Doc.{
  Doc, scalar, array, object, Docs, no_docs, doc, Fields, no_fields, field, mark, tokens, turns_of,
  IsDoc, act, act_docs, act_fields, Yields,
}
use neo_post_graph.Parser.Accept.{parse_gtype-act}
use neo_post_graph.Gtype.{
  GtypeValue, gtv_scalar, gtv_array, gtv_object, elem, no_elems, no_pairs, GtypePair, to_elems,
  to_pairs, Container, in_array, in_object, Qsort, repalloc_full, uniqueify_gtype_object,
  append_value, append_element, append_to, push_begin, push_on_top, push_end, end_container,
}
use neo_post_graph.Gtype.Capacity.{
  HasRoom, max_elems, max_pairs, append_element_free, append_element_full, append_key_free,
  append_key_full,
}
use neo_post_graph.Gtype.In.{
  PgInput, check_string_length, cast_token, scalar_value, push_scalar, gtype_in_scalar,
  gtype_in_object_field_start, gtype_in, gtype_value_from_cstring,
}

module _ (pg : PgInput) (qsort_arg : Qsort) where
  -- An array or object is an error when it would need memory for more values or pairs than the
  -- allocator gives.
  unfoldable mutual
    pub value_of : Doc → Outcome GtypeValue
    value_of (scalar type text a) =
        cast_token pg type a >>= λ cast. scalar_value pg text cast >>= λ v. ok (gtv_scalar v)
    value_of (array ds) = elements ds [] >>= λ vs. ok (gtv_array false (to_elems vs))
    value_of (object fs) =
        pairs fs [] >>= λ ps. ok (gtv_object (to_pairs (uniqueify_gtype_object qsort_arg ps)))

    pub elements : Docs → List GtypeValue → Outcome (List GtypeValue)
    elements no_docs vs = ok vs
    elements (doc d ds) vs = value_of d >>= λ v. elim (leb max_elems (length vs)) [
      | true ↦ err invalid_alloc_size
      | false ↦ elements ds (vs ++ (v ∷ []))
    ]

    pub pairs : Fields → List GtypePair → Outcome (List GtypePair)
    pairs no_fields ps = ok ps
    pairs (field name d fs) ps = check_string_length name >>= λ key.
        elim (leb max_pairs (length ps)) [
          | true ↦ err invalid_alloc_size
          | false ↦ value_of d >>= λ v.
              pairs fs (ps ++ (record { key = key; value = v; order = length ps } ∷ []))
        ]

  -- The result that is left after a document inside another one.
  abbrev result : Doc → GtypeValue → Option GtypeValue
  result (scalar type text a) v = none
  result (array ds) v = some v
  result (object fs) v = some v

  push_end-array :
      (vs : List GtypeValue) (size : ℕ) (cs : List Container) (r : Option GtypeValue)
      → push_end qsort_arg (record { parse_state = in_array false size vs ∷ cs; res = r })
        ≡ push_end qsort_arg (record { parse_state = in_array false 4 vs ∷ cs; res = none })
  unfolding push_end end_container
  push_end-array vs size [] r = refl
  push_end-array vs size (p ∷ cs) r = refl

  push_end-object :
      (ps : List GtypePair) (size : ℕ) (cs : List Container) (r : Option GtypeValue)
      → push_end qsort_arg (record { parse_state = in_object size ps none ∷ cs; res = r })
        ≡ push_end qsort_arg (record { parse_state = in_object 4 ps none ∷ cs; res = none })
  unfolding push_end end_container
  push_end-object ps size [] r = refl
  push_end-object ps size (p ∷ cs) r = refl

  mutual
    unfolding act gtype_in gtype_in_scalar gtype_in_object_field_start push_scalar push_begin
        push_on_top push_end end_container value_of append_to append_value

    build :
        (d : Doc) (c : Container) (cs : List Container) (r : Option GtypeValue)
        → act (gtype_in pg qsort_arg) d (record { parse_state = c ∷ cs; res = r })
          ≡ value_of d >>= λ v.
              append_to v c >>= λ c'. ok (record { parse_state = c' ∷ cs; res = result d v })
    build (scalar type text a) c cs r = elim (Outcome-cases (cast_token pg type a)) [
      | inr (inl (e, h)) ↦ rw h refl
      | inr (inr h) ↦ rw h refl
      | inl (t, h) ↦ rw h (elim (Outcome-cases (scalar_value pg text t)) [
        | inr (inl (e, k)) ↦ rw k refl
        | inr (inr k) ↦ rw k refl
        | inl (v, k) ↦ rw k refl
      ])
    ]
    build (array ds) c cs r =
        build_docs ds [] 4 (22, refl, omega arith, omega arith) (c ∷ cs)
          (some (gtv_array false no_elems))
        ∙ elim (Outcome-cases (elements ds [])) [
          | inr (inl (e, k)) ↦ rw k refl
          | inr (inr k) ↦ rw k refl
          | inl (vs, k) ↦ rw k refl
        ]
    build (object fs) c cs r =
        build_fields fs [] 4 (21, refl, omega arith, omega arith) (c ∷ cs)
          (some (gtv_object no_pairs))
        ∙ elim (Outcome-cases (pairs fs [])) [
          | inr (inl (e, k)) ↦ rw k refl
          | inr (inr k) ↦ rw k refl
          | inl (ps, k) ↦ rw k refl
        ]

    build_docs :
        (ds : Docs) (vs : List GtypeValue) (size : ℕ)
        → HasRoom max_elems size (length vs)
        → (cs : List Container) (r : Option GtypeValue)
        → (act_docs
              (gtype_in pg qsort_arg)
              ds
              (record { parse_state = in_array false size vs ∷ cs; res = r })
            >>= push_end qsort_arg)
          ≡ elements ds vs >>= λ vs'.
              push_end qsort_arg (record { parse_state = in_array false 4 vs' ∷ cs; res = none })
    build_docs no_docs vs size room cs r = push_end-array vs size cs r
    build_docs (doc d ds) vs size room cs r =
        rw (build d (in_array false size vs) cs r) (elim (Outcome-cases (value_of d)) [
          | inr (inl (e, k)) ↦ rw k refl
          | inr (inr k) ↦ rw k refl
          | inl (v, k) ↦ rw k (elim (Bool-cases (leb max_elems (length vs))) [
            | inl full ↦ rw (full, append_element_full v vs size room full) refl
            | inr free ↦
                let (size', e, room') = append_element_free v vs size room free in
                rw (free, e) (build_docs ds (vs ++ (v ∷ [])) size' room' cs (result d v))
          ])
        ])

    build_fields :
        (fs : Fields) (ps : List GtypePair) (size : ℕ)
        → HasRoom max_pairs size (length ps)
        → (cs : List Container) (r : Option GtypeValue)
        → (act_fields
              (gtype_in pg qsort_arg)
              fs
              (record { parse_state = in_object size ps none ∷ cs; res = r })
            >>= push_end qsort_arg)
          ≡ pairs fs ps >>= λ ps'.
              push_end qsort_arg (record { parse_state = in_object 4 ps' none ∷ cs; res = none })
    build_fields no_fields ps size room cs r = push_end-object ps size cs r
    build_fields (field name d fs) ps size room cs r =
        elim (Outcome-cases (check_string_length name)) [
          | inr (inl (e, k)) ↦ rw k refl
          | inr (inr k) ↦ rw k refl
          | inl (key, k) ↦ rw k (elim (Bool-cases (leb max_pairs (length ps))) [
            | inl full ↦ rw (full, append_key_full key ps size room full) refl
            | inr free ↦
                let (size', e, room') = append_key_free key ps size room free in
                rw (free, e)
                  (rw (build d (in_object size' ps (some key)) cs none)
                    (elim (Outcome-cases (value_of d)) [
                      | inr (inl (e, h)) ↦ rw h refl
                      | inr (inr h) ↦ rw h refl
                      | inl (v, h) ↦ rw h (
                          let p : GtypePair = record { key = key; value = v; order = length ps } in
                          build_fields fs (ps ++ (p ∷ [])) size' (room' p) cs (result d v))
                    ]))
          ])
        ]

  -- A scalar with nothing around it becomes an array of it.
  abbrev pub rooted : Doc → GtypeValue → GtypeValue
  rooted (scalar type text a) v = gtv_array true (elem v no_elems)
  rooted (array ds) v = v
  rooted (object fs) v = v

  build_root :
      (d : Doc) (v : GtypeValue)
      → value_of d ≡ ok v
      → act (gtype_in pg qsort_arg) d (record { parse_state = []; res = none })
        ≡ ok (record { parse_state = []; res = some (rooted d v) })
  unfolding act gtype_in gtype_in_scalar push_scalar push_begin push_on_top push_end end_container
      value_of append_element repalloc_full
  build_root (scalar type text a) v h =
      let (cast, k, rest) =
        bind_ok (cast_token pg type a)
          (λ cast. scalar_value pg text cast >>= λ w. ok (gtv_scalar w)) v h in
      let (w, m, e) = bind_ok (scalar_value pg text cast) (λ w. ok (gtv_scalar w)) v rest in
      let same : gtv_scalar w ≡ v = cc in rw (← same, k, m) refl
  build_root (array ds) v h =
      let (vs, k, e) = bind_ok (elements ds []) (λ vs. ok (gtv_array false (to_elems vs))) v h in
      build_docs ds [] 4 (22, refl, omega arith, omega arith) [] (some (gtv_array false no_elems))
      ∙ rw k (let same : gtv_array false (to_elems vs) ≡ v = cc in rw same refl)
  build_root (object fs) v h =
      let (ps, k, e) =
        bind_ok (pairs fs [])
          (λ ps. ok (gtv_object (to_pairs (uniqueify_gtype_object qsort_arg ps)))) v h in
      build_fields fs [] 4 (21, refl, omega arith, omega arith) [] (some (gtv_object no_pairs))
      ∙ rw k (
          let same : gtv_object (to_pairs (uniqueify_gtype_object qsort_arg ps)) ≡ v = cc in
          rw same refl)

  -- The value of a document, if it has one, is what gtype_value_from_cstring makes of its tokens and
  -- the end of the input, whatever stack of containers it goes through. The scalars are ones that
  -- the parser knows, the nesting is not too deep for the stack, and the parser is given the turns
  -- that the document takes.
  pub gtype_value_from_cstring-value_of :
      (x : Lexer) (d : Doc) (turns : ℕ) (l0 l l' : x.Lex) (v : GtypeValue)
      → turns_of d ≤ turns
      → IsDoc x 0 d
      → x.lex l0 ≡ ok l
      → Yields x l (tokens d ++ (mark token_end ∷ [])) l'
      → value_of d ≡ ok v
      → gtype_value_from_cstring pg qsort_arg x turns l0 ≡ ok (some (rooted d v))
  unfolding gtype_value_from_cstring
  gtype_value_from_cstring-value_of x d turns l0 l l' v le is first y h =
      rw
        (parse_gtype-act x (gtype_in pg qsort_arg) d turns l0 l l'
          (record { parse_state = []; res = none })
          (record { parse_state = []; res = some (rooted d v) }) le is first y (build_root d v h))
        refl
