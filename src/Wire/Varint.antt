-- ===== src/Wire/Varint.antt =====
-- A concrete runtime: base-128 varints, lowest group first, and length-delimited fields. It is an
-- instance of the laws asked of the protobuf runtime, and runs the tests.
use rpc_base_on_zookeeper.Base.{
  Bytes, ℕ, zero, suc, ◌+◌, ◌-◌, ◌*◌, ◌/◌, ◌%◌, ◌^◌, ◌<◌, ◌≤◌, ◌≡◌, refl, ap, ◌∙◌, true, false,
  Option, none, some, [], ◌∷◌, ◌++◌, append_assoc, length, length-append, take, drop,
  take-length-append, drop-length-append, ltb, leb, ◌==◌, le→leb, if◌then◌else◌, arith, Bool-cases,
  ◌⊎◌, inl, inr,
}
use rpc_base_on_zookeeper.Wire.{Runtime, RuntimeLaws, max_size}

unfoldable pub write : ℕ → ℕ → Bytes
write zero n = []
write (suc groups) n =
    let rest = write groups (n / 128) in if ltb n 128 then n ∷ [] else (n % 128 + 128) ∷ rest

unfoldable pub read : Bytes → Option (ℕ × Bytes)
read [] = none
read (b ∷ s) =
    let rest = read s in
    if ltb b 128
    then some (b, s)
    else elim rest [ none ↦ none | some (v, t) ↦ some (b - 128 + 128 * v, t) ]

abbrev FitsGroups : ℕ → ℕ → Type 0
FitsGroups zero n = ⊥
FitsGroups (suc groups) n = (n < 128) ⊎ FitsGroups groups (n / 128)

fits_five : (n : ℕ) → n < 2 ^ 32 → FitsGroups 5 n
fits_five n h = inr (inr (inr (inr (inl (omega arith)))))

read-write :
    (groups n : ℕ) (rest : Bytes)
    → FitsGroups groups n
    → read (write groups n ++ rest) ≡ some (n, rest)
unfolding read write
read-write zero n rest h = absurd h
read-write (suc groups) n rest h = elim (Bool-cases (ltb n 128)) [
  | inl small ↦ rw small (ground arith)
  | inr large ↦ rw large (ground (arith, read-write groups (n / 128) rest))
]

read_shrinks : (s : Bytes) (n : ℕ) (t : Bytes) → read s ≡ some (n, t) → length t < length s
unfolding read
read_shrinks [] n t e = cc
read_shrinks (b ∷ s) n t e = go (read s) refl (read_shrinks s)
  where
    go :
        (o : Option (ℕ × Bytes))
        → read s ≡ o
        → ((v : ℕ) (u : Bytes) → read s ≡ some (v, u) → length u < length s)
        → length t < length (b ∷ s)
    go none f ih = ground arith
    go (some (v, u)) f ih = ground (arith, ih v u)

unfoldable pub cut : ℕ → Bytes → Option (Bytes × Bytes)
cut n s = if leb n (length s) then some (take n s, drop n s) else none

length-drop-le : (n : ℕ) (s : Bytes) → length (drop n s) ≤ length s
length-drop-le zero s = omega arith
length-drop-le (suc n) [] = omega arith
length-drop-le (suc n) (x ∷ s) = omega (arith, length-drop-le n s)

cut-append : (s rest : Bytes) → cut (length s) (s ++ rest) ≡ some (s, rest)
unfolding cut
cut-append s rest = rw (
  le→leb (length s) (length (s ++ rest)) (omega (arith, length-append s rest)),
  take-length-append s rest,
  drop-length-append s rest,
)

cut_shrinks : (n : ℕ) (s a t : Bytes) → cut n s ≡ some (a, t) → length t ≤ length s
unfolding cut
cut_shrinks n s a t e = ground (arith, length-drop-le n s)

unfoldable pub delimited : Bytes → Option (Bytes × Bytes)
delimited s = elim (read s) [ none ↦ none | some (n, t) ↦ cut n t ]

delimited_shrinks : (s a t : Bytes) → delimited s ≡ some (a, t) → length t ≤ length s
unfolding delimited
delimited_shrinks s a t e = go (read s) refl
  where
    go : (o : Option (ℕ × Bytes)) → read s ≡ o → length t ≤ length s
    go none f = ground arith
    go (some (n, u)) f = ground (arith, read_shrinks s n u, cut_shrinks n u a t)

unfoldable pub skip : ℕ → Bytes → Option Bytes
skip tag s =
    if tag % 8 == 0
    then elim (read s) [ none ↦ none | some (n, t) ↦ some t ]
    else if tag % 8 == 2
    then elim (delimited s) [ none ↦ none | some (a, t) ↦ some t ]
    else none

skip_shrinks : (tag : ℕ) (s t : Bytes) → skip tag s ≡ some t → length t ≤ length s
unfolding skip
skip_shrinks tag s t e = go (read s) refl (delimited s) refl
  where
    go :
        (o : Option (ℕ × Bytes))
        → read s ≡ o
        → (d : Option (Bytes × Bytes)) → delimited s ≡ d
        → length t ≤ length s
    go none f none g = ground arith
    go (some (n, u)) f none g = ground (arith, read_shrinks s n u)
    go none f (some (a, u)) g = ground (arith, delimited_shrinks s a u)
    go (some (n, v)) f (some (a, u)) g = ground (arith, read_shrinks s n v, delimited_shrinks s a u)

unfoldable pub runtime : Runtime
runtime = record {
  write_varint32 = write 5;
  read_varint32 = λ s. elim (read s) [ none ↦ (0, []) | some (n, t) ↦ (n, t) ];
  read_string = λ n s. elim (cut n s) [ none ↦ (false, s, []) | some (a, t) ↦ (true, a, t) ];
  write_bytes = λ field s. write 5 (field * 8 + 2) ++ (write 5 (length s) ++ s);
  write_uint32 = λ field n. write 5 (field * 8) ++ write 5 n;
  read_tag = read;
  parse_string = delimited;
  parse_varint32 = read;
  skip_field = skip;
  bytes_size = λ s. length (write 5 (length s)) + length s;
  uint32_size = λ n. length (write 5 n);
}

cut_short : (n : ℕ) (s : Bytes) → length s < n → cut n s ≡ none
unfolding cut
cut_short n s h = ground arith

tag_fits : (field k : ℕ) → field < 16 → k < 8 → FitsGroups 5 (field * 8 + k)
tag_fits field k h l = inl (omega arith)

delimited-write :
    (s rest : Bytes)
    → length s < max_size
    → delimited ((write 5 (length s) ++ s) ++ rest) ≡ some (s, rest)
unfolding delimited
delimited-write s rest h =
    rw
      (
        append_assoc (write 5 (length s)) s rest,
        read-write 5 (length s) (s ++ rest) (fits_five _ (omega arith)),
        delimited,
      )
      (cut-append s rest)

varint32_shrinks : (s : Bytes) (n : ℕ) (t : Bytes) → read s ≡ some (n, t) → length t ≤ length s
varint32_shrinks s n t e = omega (arith, read_shrinks s n t e)

length-tag : (tag : ℕ) → tag < 128 → length (write 5 tag) ≡ 1
unfolding write
length-tag tag h = ground arith

pub runtime-laws : RuntimeLaws runtime
unfolding runtime
runtime-laws = record {
  read_varint32-write = λ n rest h. rw (runtime, read-write 5 n rest (fits_five n h));
  read_string-append = λ s rest h. rw (runtime, cut-append s rest);
  read_string_short = λ n s h. rw (runtime, cut_short n s h);
  parse-write_bytes = λ field s rest f h. (
    (write 5 (length s) ++ s) ++ rest,
    ap read (append_assoc (write 5 (field * 8 + 2)) (write 5 (length s) ++ s) rest)
        ∙ read-write 5 (field * 8 + 2) _ (tag_fits field 2 f (omega arith)),
    delimited-write s rest h,
  );
  parse-write_uint32 = λ field n rest f h. (
    write 5 n ++ rest,
    ap read (append_assoc (write 5 (field * 8)) (write 5 n) rest)
        ∙ read-write 5 (field * 8) _ (inl (omega arith)),
    read-write 5 n rest (fits_five n h),
  );
  read_tag_shrinks = read_shrinks;
  parse_string_shrinks = delimited_shrinks;
  parse_varint32_shrinks = varint32_shrinks;
  skip_field_shrinks = skip_shrinks;
  length-write_bytes = λ field s f h. omega (
    arith,
    length-append (write 5 (field * 8 + 2)) (write 5 (length s) ++ s),
    length-append (write 5 (length s)) s,
    length-tag (field * 8 + 2) (omega arith),
  );
  length-write_uint32 = λ field n f h. omega (
    arith,
    length-append (write 5 (field * 8)) (write 5 n),
    length-tag (field * 8) (omega arith),
  );
}
