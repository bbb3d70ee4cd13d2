-- ===== src/Gtype/Convert/Grown.antt =====
-- A conversion leaves what the buffer held.
use neo_post_graph.Common.{
  ℕ, suc, ◌+◌, ◌-◌, ◌*◌, ◌≤◌, ◌≡◌, refl, sym, ap, ◌∙◌, ltb, true, false, [], ◌∷◌, ◌++◌, length,
  take, length-append, arith, Bool-cases, inl, inr,
}
use mathlib.Core.List.{append_assoc}
use mathlib.Core.Path.{subst}
use neo_post_graph.Storage.{Outcome, ok, ◌>>=◌}
use neo_post_graph.Storage.Outcomes.{bind_ok}
use neo_post_graph.Entity.{Bytes}
use neo_post_graph.GtypeExt.{
  GtypeScalar, gtv_null, gtv_string, gtv_numeric, gtv_integer, gtv_float, gtv_bool, gtv_timestamp,
  gtv_timestamptz, gtv_date, gtv_time, gtv_timetz, gtv_interval, gtv_inet, gtv_cidr, gtv_mac,
  gtv_mac8, timetz_padding, to_bytes, pad_buffer_to_int, serialize_header, serialize_with,
  serialize_extended_type,
}
use neo_post_graph.Gtype.{
  GtypeValue, gtv_scalar, gtv_array, gtv_object, GtypeElems, elem, no_elems, GtypePairs, pair,
  no_pairs,
}
use neo_post_graph.Gtype.Entries.{gtentry_offlenmask, gte_offlenfld, stride_entry}
use neo_post_graph.Gtype.Convert.{
  copy_to_buffer, is_container_entry, convert_gtype_scalar, number_of_elems, number_of_pairs,
  array_flags, put_entry, container_entry, open_container, convert_gtype_value, convert_elems,
  convert_keys, convert_values,
}

abbrev pub Extends : Bytes → Bytes → Type 0
Extends buffer b = (more : Bytes) × (b ≡ buffer ++ more)

pub Extends-self : (a : Bytes) → Extends a a
Extends-self [] = ([], refl)
Extends-self (x ∷ xs) = let (more, e) = Extends-self xs in (more, ap (λ l. x ∷ l) e)

Extends-trans : (a b c : Bytes) → Extends a b → Extends b c → Extends a c
Extends-trans a b c (m, e) (n, f) = (m ++ n, f ∙ rw e (append_assoc a m n))

pub Extends-length : (a b : Bytes) → Extends a b → length a ≤ length b
Extends-length a b (more, e) = rw e (omega (arith, length-append a more))

copy_behind :
    (base more : Bytes) (k : ℕ) (bytes : Bytes)
    → copy_to_buffer (base ++ more) (length base + k) bytes ≡ base ++ copy_to_buffer more k bytes
copy_behind [] more k bytes = let e : 0 + k ≡ k = omega arith in rw e refl
copy_behind (x ∷ base) more k bytes =
    let e : suc (length base) + k ≡ suc (length base + k) = omega arith in
    let f : suc (length base + k) + length bytes ≡ suc (length base + k + length bytes) =
      omega arith in
    rw (e, f) (ap (λ l. x ∷ l) (copy_behind base more k bytes))

copy-Extends :
    (base b : Bytes) (offset : ℕ) (bytes : Bytes)
    → Extends base b
    → length base ≤ offset
    → Extends base (copy_to_buffer b offset bytes)
copy-Extends base b offset bytes (more, e) le =
    let k = offset - length base in
    let at : offset ≡ length base + k = omega arith in
    (
      copy_to_buffer more k bytes,
      rw e (
          subst (λ o. copy_to_buffer (base ++ more) o bytes ≡ base ++ copy_to_buffer more k bytes)
            (sym at) (copy_behind base more k bytes)),
    )

pub serialize_with-Extends :
    (buffer : Bytes) (type : ℕ) (bytes : Bytes)
    → Extends buffer ((serialize_with buffer type bytes).0)
unfolding serialize_with serialize_header pad_buffer_to_int
serialize_with-Extends buffer type bytes =
    (_, append_assoc (buffer ++ _) _ _ ∙ append_assoc buffer _ _)

first_of :
    (buffer : Bytes) (r : Bytes × ℕ) (b : Bytes) (e : ℕ)
    → Extends buffer (r.0)
    → Outcome.ok r ≡ ok (b, e)
    → Extends buffer b
first_of buffer r b e extends h =
    let same : r ≡ (b, e) = cc in subst (λ w. Extends buffer (w.0)) same extends

pub convert_gtype_scalar-Extends :
    (buffer : Bytes) (v : GtypeScalar) (b : Bytes) (e : ℕ)
    → convert_gtype_scalar buffer v ≡ ok (b, e)
    → Extends buffer b
unfolding convert_gtype_scalar serialize_extended_type pad_buffer_to_int serialize_with
    serialize_header
convert_gtype_scalar-Extends buffer gtv_null b e h =
    let same : buffer ≡ b = cc in rw (← same) (Extends-self buffer)
convert_gtype_scalar-Extends buffer (gtv_string s) b e h = (s, cc)
convert_gtype_scalar-Extends buffer (gtv_numeric s) b e h =
    first_of buffer (_, _) b e (_, append_assoc buffer _ s) h
convert_gtype_scalar-Extends buffer (gtv_bool true) b e h =
    let same : buffer ≡ b = cc in rw (← same) (Extends-self buffer)
convert_gtype_scalar-Extends buffer (gtv_bool false) b e h =
    let same : buffer ≡ b = cc in rw (← same) (Extends-self buffer)
convert_gtype_scalar-Extends buffer (gtv_integer n) b e h =
    first_of buffer (_, _) b e (serialize_with-Extends buffer 0 (to_bytes 8 n)) h
convert_gtype_scalar-Extends buffer (gtv_float n) b e h =
    first_of buffer (_, _) b e (serialize_with-Extends buffer 1 (to_bytes 8 n)) h
convert_gtype_scalar-Extends buffer (gtv_timestamp n) b e h =
    first_of buffer (_, _) b e (serialize_with-Extends buffer 2 (to_bytes 8 n)) h
convert_gtype_scalar-Extends buffer (gtv_timestamptz n) b e h =
    first_of buffer (_, _) b e (serialize_with-Extends buffer 3 (to_bytes 8 n)) h
convert_gtype_scalar-Extends buffer (gtv_date n) b e h =
    first_of buffer (_, _) b e (serialize_with-Extends buffer 4 (to_bytes 4 n)) h
convert_gtype_scalar-Extends buffer (gtv_time n) b e h =
    first_of buffer (_, _) b e (serialize_with-Extends buffer 5 (to_bytes 8 n)) h
convert_gtype_scalar-Extends buffer (gtv_timetz t z) b e h =
    first_of buffer (_, _) b e
      (serialize_with-Extends buffer 6 (to_bytes 8 t ++ (to_bytes 4 z ++ timetz_padding))) h
convert_gtype_scalar-Extends buffer (gtv_interval t d m) b e h =
    first_of buffer (_, _) b e
      (serialize_with-Extends buffer 7 (to_bytes 8 t ++ (to_bytes 4 d ++ to_bytes 4 m))) h
convert_gtype_scalar-Extends buffer (gtv_inet i) b e h =
    first_of buffer (_, _) b e (serialize_with-Extends buffer 9 (take 22 i)) h
convert_gtype_scalar-Extends buffer (gtv_cidr i) b e h =
    first_of buffer (_, _) b e (serialize_with-Extends buffer 10 (take 22 i)) h
convert_gtype_scalar-Extends buffer (gtv_mac i) b e h =
    first_of buffer (_, _) b e (serialize_with-Extends buffer 11 (take 6 i)) h
convert_gtype_scalar-Extends buffer (gtv_mac8 i) b e h =
    first_of buffer (_, _) b e (serialize_with-Extends buffer 12 (take 8 i)) h

open_container-Extends :
    (buffer : Bytes) (header num : ℕ)
    → Extends buffer ((open_container buffer header num).0)
      × (length buffer ≤ (open_container buffer header num).1)
unfolding open_container pad_buffer_to_int
open_container-Extends buffer header num = (
  (_, append_assoc (buffer ++ _) _ _ ∙ append_assoc buffer _ _),
  Extends-length buffer _ (_, append_assoc buffer _ _),
)

put_entry-Extends :
    (base : Bytes) (i entry_offset total meta : ℕ) (buffer : Bytes) (r : Bytes × ℕ)
    → Extends base buffer
    → length base ≤ entry_offset
    → put_entry i entry_offset total meta buffer ≡ ok r
    → Extends base (r.0)
unfolding put_entry
put_entry-Extends base i entry_offset total meta buffer r extends le h =
    elim (Bool-cases (ltb gtentry_offlenmask (total + gte_offlenfld meta))) [
      | inl c ↦ absurd (ground arith)
      | inr c ↦
          let bytes = to_bytes 4 (stride_entry i (total + gte_offlenfld meta) meta) in
          let same : (
            copy_to_buffer buffer (entry_offset + 4 * i) bytes,
            total + gte_offlenfld meta,
          )
              ≡ r =
            ground arith in
          subst (λ w. Extends base (w.0)) same
            (copy-Extends base buffer (entry_offset + 4 * i) bytes extends (omega arith))
    ]

pub container_entry_lem :
    (base_offset : ℕ) (buffer : Bytes) (b : Bytes) (e : ℕ)
    → container_entry base_offset buffer ≡ ok (b, e)
    → (buffer ≡ b)
      × (length buffer - base_offset ≤ gtentry_offlenmask)
      × (e ≡ is_container_entry + (length buffer - base_offset))
unfolding container_entry
container_entry_lem base_offset buffer b e h =
    elim (Bool-cases (ltb gtentry_offlenmask (length buffer - base_offset))) [
      | inl c ↦ absurd (ground arith)
      | inr c ↦
          let r : Bytes × ℕ = (buffer, is_container_entry + (length buffer - base_offset)) in
          let same : r ≡ (b, e) = ground arith in
          (ap (λ r. r.0) same, ground arith, sym (ap (λ r. r.1) same))
    ]

pub bind_unit :
    {A : Type 0} → (m : Outcome Unit) (r : Outcome A) (a : A) → (m >>= λ _. r) ≡ ok a → r ≡ ok a
bind_unit m r a h = let (_, _, rest) = bind_ok m (λ _. r) a h in rest

keys-Extends :
    (ps : GtypePairs) (base : Bytes) (entry_offset i total : ℕ) (buffer b : Bytes) (t : ℕ)
    → Extends base buffer
    → length base ≤ entry_offset
    → convert_keys ps entry_offset i total buffer ≡ ok (b, t)
    → Extends base b
unfolding convert_keys
keys-Extends no_pairs base entry_offset i total buffer b t extends le h =
    let same : buffer ≡ b = cc in rw (← same) extends
keys-Extends (pair key value order ps) base entry_offset i total buffer b t extends le h =
    let ((b1, meta), one, rest) =
      bind_ok (convert_gtype_scalar buffer (gtv_string key))
        (λ (w, m). put_entry i entry_offset total m w >>= λ (w', n).
          convert_keys ps entry_offset (suc i) n w')
        (b, t) h in
    let ((b2, totallen), put, more) =
      bind_ok (put_entry i entry_offset total meta b1)
        (λ (w, n). convert_keys ps entry_offset (suc i) n w) (b, t) rest in
    let grown : Extends base b1 =
      Extends-trans base buffer b1 extends
        (convert_gtype_scalar-Extends buffer (gtv_string key) b1 meta one) in
    let placed : Extends base b2 =
      put_entry-Extends base i entry_offset total meta b1 (b2, totallen) grown le put in
    keys-Extends ps base entry_offset (suc i) totallen b2 b t placed le more

module _ (check : ℕ → Outcome Unit) where
  mutual
    unfolding convert_gtype_value

    pub value-Extends :
        (level : ℕ) (v : GtypeValue) (buffer b : Bytes) (e : ℕ)
        → convert_gtype_value check level v buffer ≡ ok (b, e)
        → Extends buffer b
    value-Extends level (gtv_scalar v) buffer b e h =
        convert_gtype_scalar-Extends buffer v b e (bind_unit (check level) _ (b, e) h)
    value-Extends level (gtv_array raw vs) buffer b e h =
        let num = number_of_elems vs in
        let (opened, entry_offset) = open_container buffer (num + array_flags raw) num in
        let (extends, le) = open_container-Extends buffer (num + array_flags raw) num in
        let (b', filled, rest) =
          bind_ok (convert_elems check (suc level) vs entry_offset 0 0 opened)
            (λ w. container_entry (length buffer) w) (b, e) (bind_unit (check level) _ (b, e) h) in
        let (same, _, _) = container_entry_lem (length buffer) b' b e rest in
        rw (← same)
          (elems-Extends (suc level) vs buffer entry_offset 0 0 opened b' extends le filled)
    value-Extends level (gtv_object ps) buffer b e h =
        let num = number_of_pairs ps in
        let (opened, entry_offset) = open_container buffer (num + 536870912) (num * 2) in
        let (extends, le) = open_container-Extends buffer (num + 536870912) (num * 2) in
        let ((b1, totallen), keys, values) =
          bind_ok (convert_keys ps entry_offset 0 0 opened)
            (λ (w, t). convert_values check (suc level) ps entry_offset num t w >>= λ w'.
              container_entry (length buffer) w')
            (b, e) (bind_unit (check level) _ (b, e) h) in
        let (b2, filled, rest) =
          bind_ok (convert_values check (suc level) ps entry_offset num totallen b1)
            (λ w. container_entry (length buffer) w) (b, e) values in
        let (same, _, _) = container_entry_lem (length buffer) b2 b e rest in
        let headed : Extends buffer b1 =
          keys-Extends ps buffer entry_offset 0 0 opened b1 totallen extends le keys in
        rw (← same)
          (values-Extends (suc level) ps buffer entry_offset num totallen b1 b2 headed le filled)

    elems-Extends :
        (level : ℕ) (vs : GtypeElems) (base : Bytes) (entry_offset i total : ℕ) (buffer b : Bytes)
        → Extends base buffer
        → length base ≤ entry_offset
        → convert_elems check level vs entry_offset i total buffer ≡ ok b
        → Extends base b
    elems-Extends level no_elems base entry_offset i total buffer b extends le h =
        let same : buffer ≡ b = cc in rw (← same) extends
    elems-Extends level (elem v vs) base entry_offset i total buffer b extends le h =
        let ((b1, meta), one, rest) =
          bind_ok (convert_gtype_value check level v buffer)
            (λ (w, m). put_entry i entry_offset total m w >>= λ (w', t).
              convert_elems check level vs entry_offset (suc i) t w')
            b h in
        let ((b2, totallen), put, more) =
          bind_ok (put_entry i entry_offset total meta b1)
            (λ (w, t). convert_elems check level vs entry_offset (suc i) t w) b rest in
        let grown : Extends base b1 =
          Extends-trans base buffer b1 extends (value-Extends level v buffer b1 meta one) in
        let placed : Extends base b2 =
          put_entry-Extends base i entry_offset total meta b1 (b2, totallen) grown le put in
        elems-Extends level vs base entry_offset (suc i) totallen b2 b placed le more

    values-Extends :
        (level : ℕ) (ps : GtypePairs) (base : Bytes) (entry_offset i total : ℕ) (buffer b : Bytes)
        → Extends base buffer
        → length base ≤ entry_offset
        → convert_values check level ps entry_offset i total buffer ≡ ok b
        → Extends base b
    values-Extends level no_pairs base entry_offset i total buffer b extends le h =
        let same : buffer ≡ b = cc in rw (← same) extends
    values-Extends level (pair key value order ps) base entry_offset i total buffer b extends le h =
        let ((b1, meta), one, rest) =
          bind_ok (convert_gtype_value check level value buffer)
            (λ (w, m). put_entry i entry_offset total m w >>= λ (w', t).
              convert_values check level ps entry_offset (suc i) t w')
            b h in
        let ((b2, totallen), put, more) =
          bind_ok (put_entry i entry_offset total meta b1)
            (λ (w, t). convert_values check level ps entry_offset (suc i) t w) b rest in
        let grown : Extends base b1 =
          Extends-trans base buffer b1 extends (value-Extends level value buffer b1 meta one) in
        let placed : Extends base b2 =
          put_entry-Extends base i entry_offset total meta b1 (b2, totallen) grown le put in
        values-Extends level ps base entry_offset (suc i) totallen b2 b placed le more
