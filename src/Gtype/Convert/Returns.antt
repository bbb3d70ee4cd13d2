-- ===== src/Gtype/Convert/Returns.antt =====
-- A conversion returns when the value is not too large and not too deep.
use neo_post_graph.Common.{ℕ, suc, ◌+◌, ◌*◌, ◌≤◌, ◌≡◌, refl, length, arith}
use neo_post_graph.Storage.{Outcome, ok, ◌>>=◌}
use neo_post_graph.Entity.{Bytes}
use neo_post_graph.GtypeExt.{gtv_string}
use neo_post_graph.Gtype.{
  GtypeValue, gtv_scalar, gtv_array, gtv_object, GtypeElems, elem, no_elems, GtypePairs, pair,
  no_pairs,
}
use neo_post_graph.Gtype.Entries.{gtentry_offlenmask}
use neo_post_graph.Gtype.Convert.{
  number_of_elems, number_of_pairs, array_flags, open_container, convert_keys, convert_gtype_scalar,
  put_entry, container_entry, convert_gtype_value, convert_elems, convert_values,
}
use neo_post_graph.Gtype.Convert.Bound.{
  bound, bound_elems, bound_keys, bound_values, IsShallow, AreShallow, HasShallow,
}
use neo_post_graph.Gtype.Convert.Fits.{
  HasSize, open_container-length, scalar_fits, put_entry_fits, container_entry_fits,
}
use neo_post_graph.Gtype.Convert.Entry.{IsCounted, HasEntry, HasEntry-of}

bind_to :
    {A B : Type 0}
    → (m : Outcome A) (f : A → Outcome B) (a : A) (r : Outcome B) → m ≡ ok a
    → f a ≡ r
    → (m >>= f) ≡ r
bind_to m f a r e g = rw e g

keys_fits :
    (ps : GtypePairs) (entry_offset i total : ℕ) (buffer : Bytes)
    → total + bound_keys ps ≤ gtentry_offlenmask
    → entry_offset + 4 * (i + number_of_pairs ps) ≤ length buffer
    → (b : Bytes) × (t : ℕ) × (convert_keys ps entry_offset i total buffer ≡ ok (b, t))
      × (length buffer ≤ length b)
      × (length b ≤ length buffer + bound_keys ps)
      × (t ≤ total + bound_keys ps)
unfolding convert_keys
keys_fits no_pairs entry_offset i total buffer small room =
    (buffer, total, refl, omega arith, omega arith, omega arith)
keys_fits (pair key value order ps) entry_offset i total buffer small room =
    let (b1, meta, e, (ge, le, off)) = scalar_fits (gtv_string key) buffer (omega arith) in
    let (b2, t, f, same, within) =
      put_entry_fits i entry_offset total meta (length key) b1 (omega arith) off (omega arith) in
    let (b3, t', g, ge', le', within') =
      keys_fits ps entry_offset (suc i) t b2 (omega arith) (omega arith) in
    (
      b3,
      t',
      bind_to (convert_gtype_scalar buffer (gtv_string key))
          (λ (w, m). put_entry i entry_offset total m w >>= λ (w', n).
            convert_keys ps entry_offset (suc i) n w')
          (b1, meta) (ok (b3, t')) e
          (bind_to (put_entry i entry_offset total meta b1)
            (λ (w', n). convert_keys ps entry_offset (suc i) n w') (b2, t) (ok (b3, t')) f g),
      omega arith,
      omega arith,
      omega arith,
    )

module _ (check : ℕ → Outcome Unit) where
  mutual
    unfolding convert_gtype_value bound IsShallow

    value_fits :
        (level : ℕ) (v : GtypeValue) (buffer : Bytes)
        → IsShallow check level v
        → bound v ≤ gtentry_offlenmask
        → (b : Bytes) × (e : ℕ) × (convert_gtype_value check level v buffer ≡ ok (b, e))
          × HasSize (bound v) buffer b e
    value_fits level (gtv_scalar v) buffer is small =
        let (b, e, h, size) = scalar_fits v buffer small in
        (b, e, bind_to (check level) (λ _. convert_gtype_scalar buffer v) tt (ok (b, e)) is h, size)
    value_fits level (gtv_array raw vs) buffer (is, are) small =
        let num = number_of_elems vs in
        let (b0, o) = open_container buffer (num + array_flags raw) num in
        let (at, ge, le) = open_container-length buffer (num + array_flags raw) num in
        let (b, h, ge', le') = elems_fits (suc level) vs o 0 0 b0 are (omega arith) (omega arith) in
        let (e, k, size) =
          container_entry_fits buffer b (7 + 4 * num + bound_elems vs) small (omega arith)
            (omega arith) in
        (
          b,
          e,
          bind_to (check level)
              (λ _. convert_elems check (suc level) vs o 0 0 b0 >>= λ w.
                container_entry (length buffer) w)
              tt (ok (b, e)) is
              (bind_to (convert_elems check (suc level) vs o 0 0 b0)
                (λ w. container_entry (length buffer) w) b (ok (b, e)) h k),
          size,
        )
    value_fits level (gtv_object ps) buffer (is, are) small =
        let num = number_of_pairs ps in
        let (b0, o) = open_container buffer (num + 536870912) (num * 2) in
        let (at, ge, le) = open_container-length buffer (num + 536870912) (num * 2) in
        let (b1, t, g, ge1, le1, within) = keys_fits ps o 0 0 b0 (omega arith) (omega arith) in
        let (b, h, ge', le') =
          values_fits (suc level) ps o num t b1 are (omega arith) (omega arith) in
        let (e, k, size) =
          container_entry_fits buffer b (7 + 4 * (num * 2) + (bound_keys ps + bound_values ps))
            small (omega arith) (omega arith) in
        (
          b,
          e,
          bind_to (check level)
              (λ _. convert_keys ps o 0 0 b0 >>= λ (w, n).
                convert_values check (suc level) ps o num n w >>= λ w'.
                container_entry (length buffer) w')
              tt (ok (b, e)) is
              (bind_to (convert_keys ps o 0 0 b0)
                (λ (w, n). convert_values check (suc level) ps o num n w >>= λ w'.
                  container_entry (length buffer) w')
                (b1, t) (ok (b, e)) g
                (bind_to (convert_values check (suc level) ps o num t b1)
                  (λ w. container_entry (length buffer) w) b (ok (b, e)) h k)),
          size,
        )

    elems_fits :
        (level : ℕ) (vs : GtypeElems) (entry_offset i total : ℕ) (buffer : Bytes)
        → AreShallow check level vs
        → total + bound_elems vs ≤ gtentry_offlenmask
        → entry_offset + 4 * (i + number_of_elems vs) ≤ length buffer
        → (b : Bytes) × (convert_elems check level vs entry_offset i total buffer ≡ ok b)
          × (length buffer ≤ length b)
          × (length b ≤ length buffer + bound_elems vs)
    elems_fits level no_elems entry_offset i total buffer are small room =
        (buffer, refl, omega arith, omega arith)
    elems_fits level (elem v vs) entry_offset i total buffer (is, are) small room =
        let (b1, meta, e, (ge, le, off)) = value_fits level v buffer is (omega arith) in
        let (b2, t, f, same, within) =
          put_entry_fits i entry_offset total meta (bound v) b1 (omega arith) off (omega arith) in
        let (b3, g, ge', le') =
          elems_fits level vs entry_offset (suc i) t b2 are (omega arith) (omega arith) in
        (
          b3,
          bind_to (convert_gtype_value check level v buffer)
              (λ (w, m). put_entry i entry_offset total m w >>= λ (w', n).
                convert_elems check level vs entry_offset (suc i) n w')
              (b1, meta) (ok b3) e
              (bind_to (put_entry i entry_offset total meta b1)
                (λ (w', n). convert_elems check level vs entry_offset (suc i) n w') (b2, t) (ok b3)
                f g),
          omega arith,
          omega arith,
        )

    values_fits :
        (level : ℕ) (ps : GtypePairs) (entry_offset i total : ℕ) (buffer : Bytes)
        → HasShallow check level ps
        → total + bound_values ps ≤ gtentry_offlenmask
        → entry_offset + 4 * (i + number_of_pairs ps) ≤ length buffer
        → (b : Bytes) × (convert_values check level ps entry_offset i total buffer ≡ ok b)
          × (length buffer ≤ length b)
          × (length b ≤ length buffer + bound_values ps)
    values_fits level no_pairs entry_offset i total buffer are small room =
        (buffer, refl, omega arith, omega arith)
    values_fits level (pair key value order ps) entry_offset i total buffer (is, are) small room =
        let (b1, meta, e, (ge, le, off)) = value_fits level value buffer is (omega arith) in
        let (b2, t, f, same, within) =
          put_entry_fits i entry_offset total meta (bound value) b1 (omega arith) off
            (omega arith) in
        let (b3, g, ge', le') =
          values_fits level ps entry_offset (suc i) t b2 are (omega arith) (omega arith) in
        (
          b3,
          bind_to (convert_gtype_value check level value buffer)
              (λ (w, m). put_entry i entry_offset total m w >>= λ (w', n).
                convert_values check level ps entry_offset (suc i) n w')
              (b1, meta) (ok b3) e
              (bind_to (put_entry i entry_offset total meta b1)
                (λ (w', n). convert_values check level ps entry_offset (suc i) n w') (b2, t) (ok b3)
                f g),
          omega arith,
          omega arith,
        )

  -- If the bound for the bytes of a value is within the mask for lengths, and the check of the stack
  -- passes at the depth of each value in it, the conversion returns, with bytes appended to the
  -- buffer and an entry of type bits and the number of these bytes, padding included; those of a
  -- container are within the mask. The value is not a timestamp by itself.
  pub convert_gtype_value-HasEntry :
      (v : GtypeValue) (buffer : Bytes)
      → IsCounted v
      → IsShallow check 0 v
      → bound v ≤ gtentry_offlenmask
      → (b : Bytes) × (e : ℕ) × (convert_gtype_value check 0 v buffer ≡ ok (b, e))
        × HasEntry v buffer b e
  convert_gtype_value-HasEntry v buffer counted shallow small =
      let (b, e, h, _) = value_fits 0 v buffer shallow small in
      (b, e, h, HasEntry-of check 0 v buffer b e counted h)
