-- ===== src/Parser/Accept.antt =====
-- The parser accepts the tokens of a document and runs its actions.
use neo_post_graph.Common.{ℕ, zero, suc, ◌≤◌, ◌≡◌, refl, ◌∙◌, [], ◌∷◌, ◌++◌, arith}
use neo_post_graph.Storage.{ok, ◌>>=◌}
use neo_post_graph.Storage.Outcomes.{bind_ok}
use neo_post_graph.Parser.{
  token_object_end, token_array_end, token_end, is_token, Lexer, SemAction, lex_expect, parse_value,
  object_fields, array_elements, parse_gtype,
}
use neo_post_graph.Parser.Doc.{
  Doc, scalar, array, object, Docs, no_docs, doc, Fields, no_fields, field, mark, tokens,
  more_tokens, more_field_tokens, turns_of, turns_of_docs, turns_of_fields, is_null, IsDoc, AreDocs,
  AreFields, act, act_docs, act_fields, Yields,
}
use neo_post_graph.Parser.Steps.{
  Yields-append, Ends, Ends-array, Ends-docs, Ends-fields, Ends-object, array_empty, array_some,
  elements_end, field_lem, fields_end, first_not_end, first_null, more_element, more_field,
  object_empty, object_some, scalar_lem, value_scalar,
}

module _ (x : Lexer) {S : Type 0} (sem : SemAction S) where
  open x use {Lex, token_type, lexeme, lex}

  mutual
    unfolding tokens more_tokens more_field_tokens turns_of turns_of_docs turns_of_fields IsDoc
        AreDocs AreFields act act_docs act_fields

    parse_doc :
        (d : Doc) (depth turns : ℕ) (l l' : Lex) (s s' : S)
        → turns_of d ≤ turns
        → IsDoc x depth d
        → Yields x l (tokens d) l'
        → Ends x sem l'
        → act sem d s ≡ ok s'
        → parse_value x sem depth turns l s ≡ ok (l', s')
    parse_doc (scalar type text a) depth zero l l' s s' le is y ends done = absurd (omega arith)
    parse_doc (scalar type text a) depth (suc turns) l l' s s' le is y ends done =
        value_scalar x sem type depth turns l s y.1 is
        ∙ scalar_lem x sem type text a l l' s s' is y ends done
    parse_doc (array ds) depth zero l l' s s' le is y ends done = absurd (omega arith)
    parse_doc (array ds) depth (suc zero) l l' s s' le is y ends done = absurd (omega arith)
    parse_doc (array no_docs) depth (suc (suc turns)) l l' s s' le is
          (l1, e, _, f, (l2, g, _, h, same)) ends done =
        let (s1, start, stop) = bind_ok (sem.array_start s) (λ v. ok v >>= sem.array_end) s' done in
        rw (← same)
          (array_empty x sem l l1 l2 l2 l2 s s1 s' s' s' depth turns is.0 e f g h start stop)
    parse_doc (array (doc d ds)) depth (suc (suc turns)) l l' s s' le is (l1, e, _, f, y) ends
          done =
        let (m, first, rest) =
          Yields-append x l1 l' (tokens d) (more_tokens ds ++ (mark token_array_end ∷ [])) y in
        let (k, second, (l4, g, _, h, same)) =
          Yields-append x m l' (more_tokens ds) (mark token_array_end ∷ []) rest in
        let (s1, start, run) =
          bind_ok (sem.array_start s) (λ v. act sem d v >>= act_docs sem ds >>= sem.array_end) s'
            done in
        let (s3, body, stop) = bind_ok (act sem d s1 >>= act_docs sem ds) sem.array_end s' run in
        let (s2, now, later) = bind_ok (act sem d s1) (act_docs sem ds) s3 body in
        rw (← same) (
          array_some x sem l l1 m k l4 s s1 s2 s3 s' depth turns is.0 e f
            (first_not_end x sem d (suc depth) l1 m is.1.0 first)
            (parse_doc d (suc depth) turns l1 m s1 s2 (omega arith) is.1.0 first
              (Ends-docs x sem ds m k second (Ends-array x sem k g)) now)
            (parse_more ds (suc depth) turns m k s2 s3 (omega arith) is.1.1 second g later) g h
            start stop)
    parse_doc (object fs) depth zero l l' s s' le is y ends done = absurd (omega arith)
    parse_doc (object fs) depth (suc zero) l l' s s' le is y ends done = absurd (omega arith)
    parse_doc (object no_fields) depth (suc (suc turns)) l l' s s' le is
          (l1, e, _, f, (l2, g, _, h, same)) ends done =
        let (s1, start, stop) =
          bind_ok (sem.object_start s) (λ v. ok v >>= sem.object_end) s' done in
        rw (← same)
          (object_empty x sem l l1 l2 l2 l2 s s1 s' s' s' depth turns is.0 e f g h start stop)
    parse_doc (object (field name d fs)) depth (suc (suc zero)) l l' s s' le is y ends done =
        absurd (omega arith)
    parse_doc (object (field name d fs)) depth (suc (suc (suc turns))) l l' s s' le is
          (l1, e, _, f, (ln, en, tn, fn, (lc, ec, _, fc, y))) ends done =
        let (m, first, rest) =
          Yields-append x lc l' (tokens d) (more_field_tokens fs ++ (mark token_object_end ∷ []))
            y in
        let (k, second, (l4, g, _, h, same)) =
          Yields-append x m l' (more_field_tokens fs) (mark token_object_end ∷ []) rest in
        let (s1, start, run) =
          bind_ok (sem.object_start s)
            (λ v.
              (sem.object_field_start name (is_null d) v >>= λ w. act sem d w >>= act_fields sem fs)
              >>= sem.object_end)
            s' done in
        let (s3, body, stop) =
          bind_ok
            (sem.object_field_start name (is_null d) s1 >>= λ w. act sem d w >>= act_fields sem fs)
            sem.object_end s' run in
        let (sn, key, body') =
          bind_ok (sem.object_field_start name (is_null d) s1)
            (λ w. act sem d w >>= act_fields sem fs) s3 body in
        let (s2, now, later) = bind_ok (act sem d sn) (act_fields sem fs) s3 body' in
        rw (← same) (
          object_some x sem l l1 m k l4 s s1 s2 s3 s' depth (suc turns) is.0 e f en
            (field_lem x sem l1 ln lc m m s1 sn sn s2 s2 (suc depth) turns name (is_null d) en tn fn
              ec fc (first_null x sem d lc m first) key
              (parse_doc d (suc depth) turns lc m sn s2 (omega arith) is.1.0 first
                (Ends-fields x sem fs m k second (Ends-object x sem k g)) now))
            (parse_more_fields fs (suc depth) (suc turns) m k s2 s3 (omega arith) is.1.1 second g
              later)
            g h start stop)

    parse_more :
        (ds : Docs) (depth turns : ℕ) (l l' : Lex) (s s' : S)
        → suc (turns_of_docs ds) ≤ turns
        → AreDocs x depth ds
        → Yields x l (more_tokens ds) l'
        → token_type l' ≡ token_array_end
        → act_docs sem ds s ≡ ok s'
        → array_elements x sem depth turns l s ≡ ok (l', s')
    parse_more ds depth zero l l' s s' le is y stop done = absurd (omega arith)
    parse_more no_docs depth (suc turns) l l' s s' le is same stop done =
        let here : token_type l ≡ token_array_end = rw same stop in
        let unchanged : s ≡ s' = cc in
        rw (← same, ← unchanged) (elements_end x sem depth turns l s here)
    parse_more (doc d ds) depth (suc turns) l l' s s' le (is, more) (l1, e, _, f, y) stop done =
        let (m, first, second) = Yields-append x l1 l' (tokens d) (more_tokens ds) y in
        let (s1, now, later) = bind_ok (act sem d s) (act_docs sem ds) s' done in
        more_element x sem l l1 m l' l' s s s1 s' s' depth turns e f
          (parse_doc d depth turns l1 m s s1 (omega arith) is first
            (Ends-docs x sem ds m l' second (Ends-array x sem l' stop)) now)
          (parse_more ds depth turns m l' s1 s' (omega arith) more second stop later)

    parse_more_fields :
        (fs : Fields) (depth turns : ℕ) (l l' : Lex) (s s' : S)
        → suc (turns_of_fields fs) ≤ turns
        → AreFields x depth fs
        → Yields x l (more_field_tokens fs) l'
        → token_type l' ≡ token_object_end
        → act_fields sem fs s ≡ ok s'
        → object_fields x sem depth turns l s ≡ ok (l', s')
    parse_more_fields fs depth zero l l' s s' le is y stop done = absurd (omega arith)
    parse_more_fields no_fields depth (suc turns) l l' s s' le is same stop done =
        let here : token_type l ≡ token_object_end = rw same stop in
        let unchanged : s ≡ s' = cc in
        rw (← same, ← unchanged) (fields_end x sem depth turns l s here)
    parse_more_fields (field name d fs) depth (suc zero) l l' s s' le is y stop done =
        absurd (omega arith)
    parse_more_fields (field name d fs) depth (suc (suc turns)) l l' s s' le (is, more)
          (l1, e, _, f, (ln, en, tn, fn, (lc, ec, _, fc, y))) stop done =
        let (m, first, second) = Yields-append x lc l' (tokens d) (more_field_tokens fs) y in
        let (sn, key, body) =
          bind_ok (sem.object_field_start name (is_null d) s)
            (λ w. act sem d w >>= act_fields sem fs) s' done in
        let (s2, now, later) = bind_ok (act sem d sn) (act_fields sem fs) s' body in
        more_field x sem l l1 m l' l' s s s2 s' s' depth (suc turns) e f
          (field_lem x sem l1 ln lc m m s sn sn s2 s2 depth turns name (is_null d) en tn fn ec fc
            (first_null x sem d lc m first) key
            (parse_doc d depth turns lc m sn s2 (omega arith) is first
              (Ends-fields x sem fs m l' second (Ends-object x sem l' stop)) now))
          (parse_more_fields fs depth (suc turns) m l' s2 s' (omega arith) more second stop later)

  -- The tokens of a document whose scalars are ones that the parser knows, and that is not nested too
  -- deep for the stack, and then the end of the input: given so many turns, parse_gtype runs the semantic actions of the document, in its order,
  -- and returns what they return.
  pub parse_gtype-act :
      (d : Doc) (turns : ℕ) (l0 l l' : Lex) (s s' : S)
      → turns_of d ≤ turns
      → IsDoc x 0 d
      → lex l0 ≡ ok l
      → Yields x l (tokens d ++ (mark token_end ∷ [])) l'
      → act sem d s ≡ ok s'
      → parse_gtype x sem turns l0 s ≡ ok s'
  unfolding parse_gtype lex_expect is_token
  parse_gtype-act d turns l0 l l' s s' le is first y done =
      let (m, doc_yields, (l2, e, _, f, same)) =
        Yields-append x l l' (tokens d) (mark token_end ∷ []) y in
      let ends : Ends x sem m = rw e refl in
      let parsed : parse_value x sem 0 turns l s ≡ ok (m, s') =
        parse_doc d 0 turns l m s s' le is doc_yields ends done in
      rw (first, parsed, e, f) refl
