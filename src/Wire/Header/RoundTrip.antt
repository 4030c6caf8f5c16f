-- ===== src/Wire/Header/RoundTrip.antt =====
-- The parser of src/Zrpcheader.pb.cc on what the serializer writes, and on any input.
use rpc_base_on_zookeeper.Base.{
  Bytes, ℕ, zero, suc, ◌^◌, ◌<◌, ◌≤◌, ◌≡◌, ◌≢◌, refl, sym, ◌∙◌, false, Option, none, some, [], ◌∷◌,
  ◌++◌, append-nil, length, ltb, lt→ltb, ◌==◌, if◌then◌else◌, arith, Option-cases, inl, inr,
}
use mathlib.Core.Path.{subst}
use rpc_base_on_zookeeper.Wire.{Runtime, RuntimeLaws, max_size}
use rpc_base_on_zookeeper.Wire.Header.{
  RpcHeader, cleared, Parsed, parsed, more, serialize_header, read_field, parse_fields,
  parse_header,
}

abbrev with_names : Bytes → Bytes → RpcHeader
with_names a b = record { service_name = a; method_name = b; args_size = 0 }

-- The names fit a message, and the size fits 32 bits.
pub record Fits (h : RpcHeader) : Type 0 where
  pub service : length h.service_name < max_size
  pub method : length h.method_name < max_size
  pub size : h.args_size < 2 ^ 32

module _ (r : Runtime) (laws : RuntimeLaws r) where
  parse_fields-step :
      (fuel : ℕ) (s : Bytes) (tag : ℕ) (t : Bytes) (h h' : RpcHeader) (u : Bytes)
      → r.read_tag s ≡ some (tag, t)
      → read_field r tag t h ≡ some (h', u)
      → parse_fields r (suc fuel) s h ≡ parse_fields r fuel u h'
  unfolding parse_fields
  parse_fields-step fuel [] tag t h h' u e f =
      absurd (omega (arith, laws.read_tag_shrinks [] tag t e))
  parse_fields-step fuel (c ∷ s) tag t h h' u e f = rw (e, parse_fields) (rw (f, parse_fields))

  -- With fuel for the length of `s` the loop gives `result`.
  abbrev pub Gives : Bytes → RpcHeader → Parsed → Type 0
  Gives s h result = (fuel : ℕ) → length s ≤ fuel → parse_fields r fuel s h ≡ result

  Gives-step :
      (s : Bytes) (tag : ℕ) (t : Bytes) (h h' : RpcHeader) (u : Bytes) (result : Parsed)
      → r.read_tag s ≡ some (tag, t)
      → read_field r tag t h ≡ some (h', u)
      → length u ≤ length t
      → Gives u h' result
      → Gives s h result
  Gives-step s tag t h h' u result e f l g zero k =
      absurd (omega (arith, laws.read_tag_shrinks s tag t e))
  Gives-step s tag t h h' u result e f l g (suc fuel) k =
      parse_fields-step fuel s tag t h h' u e f
      ∙ g fuel (omega (arith, laws.read_tag_shrinks s tag t e))

  pub Gives-service :
      (a rest : Bytes) (h : RpcHeader) (result : Parsed)
      → length a < max_size
      → Gives rest (record h { service_name = a }) result
      → Gives (r.write_bytes 1 a ++ rest) h result
  unfolding read_field
  Gives-service a rest h result fits g =
      let (t, e, f) = laws.parse-write_bytes 1 a rest (omega arith) fits in
      Gives-step (r.write_bytes 1 a ++ rest) 10 t h (record h { service_name = a }) rest result e
        (rw (f, read_field)) (laws.parse_string_shrinks t a rest f) g

  pub Gives-method :
      (a rest : Bytes) (h : RpcHeader) (result : Parsed)
      → length a < max_size
      → Gives rest (record h { method_name = a }) result
      → Gives (r.write_bytes 2 a ++ rest) h result
  unfolding read_field
  Gives-method a rest h result fits g =
      let (t, e, f) = laws.parse-write_bytes 2 a rest (omega arith) fits in
      Gives-step (r.write_bytes 2 a ++ rest) 18 t h (record h { method_name = a }) rest result e
        (rw (f, read_field)) (laws.parse_string_shrinks t a rest f) g

  pub Gives-size :
      (n : ℕ) (rest : Bytes) (h : RpcHeader) (result : Parsed)
      → n < 2 ^ 32
      → Gives rest (record h { args_size = n }) result
      → Gives (r.write_uint32 3 n ++ rest) h result
  unfolding read_field
  Gives-size n rest h result fits g =
      let (t, e, f) = laws.parse-write_uint32 3 n rest (omega arith) fits in
      Gives-step (r.write_uint32 3 n ++ rest) 24 t h (record h { args_size = n }) rest result e
        (rw (f, read_field)) (laws.parse_varint32_shrinks t n rest f) g

  pub Gives-done : (h : RpcHeader) → Gives [] h (parsed h)
  unfolding parse_fields
  Gives-done h zero k = refl
  Gives-done h (suc fuel) k = refl

  sized :
      (a b : Bytes) (n : ℕ)
      → n < 2 ^ 32
      → Gives
          (if n == 0 then [] else r.write_uint32 3 n)
          (with_names a b)
          (parsed (record { service_name = a; method_name = b; args_size = n }))
  sized a b zero fits = Gives-done _
  sized a b (suc n) fits =
      subst (λ t. Gives (if t then [] else r.write_uint32 3 (suc n)) (with_names a b) whole)
        (sym nonzero)
        (subst (λ t. Gives t (with_names a b) whole) (append-nil (r.write_uint32 3 (suc n)))
          (Gives-size (suc n) [] (with_names a b) whole fits (Gives-done _)))
    where
      whole : Parsed
      whole = parsed (record { service_name = a; method_name = b; args_size = suc n })

      nonzero : (suc n == 0) ≡ false
      nonzero = ground arith

  named :
      (a b rest : Bytes) (result : Parsed)
      → length b < max_size
      → Gives rest (with_names a b) result
      → Gives
          ((if ltb 0 (length b) then r.write_bytes 2 b else []) ++ rest)
          (with_names a [])
          result
  named a [] rest result fits g = g
  named a (c ∷ b) rest result fits g =
      subst
        (λ t. Gives ((if t then r.write_bytes 2 (c ∷ b) else []) ++ rest) (with_names a []) result)
        (sym (lt→ltb 0 (length (c ∷ b)) (omega arith)))
        (Gives-method (c ∷ b) rest (with_names a []) result fits g)

  served :
      (a rest : Bytes) (result : Parsed)
      → length a < max_size
      → Gives rest (with_names a []) result
      → Gives ((if ltb 0 (length a) then r.write_bytes 1 a else []) ++ rest) cleared result
  served [] rest result fits g = g
  served (c ∷ a) rest result fits g =
      subst (λ t. Gives ((if t then r.write_bytes 1 (c ∷ a) else []) ++ rest) cleared result)
        (sym (lt→ltb 0 (length (c ∷ a)) (omega arith)))
        (Gives-service (c ∷ a) rest cleared result fits g)

  serialized-Gives : (h : RpcHeader) → Fits h → Gives (serialize_header r h) cleared (parsed h)
  unfolding serialize_header
  serialized-Gives h fits = served h.service_name _ (parsed h) fits.service (
      named h.service_name h.method_name _ (parsed h) fits.method
        (sized h.service_name h.method_name h.args_size fits.size))

  -- For a header whose names are shorter than 2 GB and whose size fits 32 bits, parsing what was
  -- serialized gives the header back, whichever fields are left out as defaults.
  pub parse-serialize : (h : RpcHeader) → Fits h → parse_header r (serialize_header r h) ≡ parsed h
  unfolding parse_header
  parse-serialize h fits = serialized-Gives h fits (length (serialize_header r h)) (omega arith)

  abbrev Within : {A : Type 0} → Bytes → Option (A × Bytes) → Type 0
  Within s none = Unit
  Within s (some (a, t)) = length t ≤ length s

  string-Within : (s : Bytes) → Within s (r.parse_string s)
  string-Within s = go (r.parse_string s) refl
    where
      go : (o : Option (Bytes × Bytes)) → r.parse_string s ≡ o → Within s o
      go none e = tt
      go (some (a, t)) e = laws.parse_string_shrinks s a t e

  varint32-Within : (s : Bytes) → Within s (r.parse_varint32 s)
  varint32-Within s = go (r.parse_varint32 s) refl
    where
      go : (o : Option (ℕ × Bytes)) → r.parse_varint32 s ≡ o → Within s o
      go none e = tt
      go (some (n, t)) e = laws.parse_varint32_shrinks s n t e

  read_field_shrinks :
      (tag : ℕ) (s : Bytes) (h h' : RpcHeader) (t : Bytes)
      → read_field r tag s h ≡ some (h', t)
      → length t ≤ length s
  unfolding read_field
  read_field_shrinks tag s h h' t e =
      ground (arith, string-Within s, varint32-Within s, laws.skip_field_shrinks tag s t)

  parse_fields-ne-more :
      (fuel : ℕ) (s : Bytes) (h : RpcHeader) → length s ≤ fuel → parse_fields r fuel s h ≢ more
  unfolding parse_fields
  parse_fields-ne-more zero [] h k = λ e. cc
  parse_fields-ne-more (suc fuel) [] h k = λ e. cc
  parse_fields-ne-more zero (c ∷ s) h k = absurd (omega arith)
  parse_fields-ne-more (suc fuel) (c ∷ s) h k = elim (Option-cases (r.read_tag (c ∷ s))) [
    | inl bad ↦ rw (bad, parse_fields) (λ e. cc)
    | inr ((tag, t), good) ↦
        rw (good, parse_fields)
          (elim (Option-cases (read_field r tag t h)) [
            | inl bad ↦ rw (bad, parse_fields) (λ e. cc)
            | inr ((h', u), read) ↦
                rw (read, parse_fields)
                  (parse_fields-ne-more fuel u h' (
                    omega (
                      arith,
                      laws.read_tag_shrinks (c ∷ s) tag t good,
                      read_field_shrinks tag t h h' u read,
                    )))
          ])
  ]

  -- The parser ends by itself on every input: the fuel never runs out.
  pub parse_header-ne-more : (s : Bytes) → parse_header r s ≢ more
  unfolding parse_header
  parse_header-ne-more s = parse_fields-ne-more (length s) s cleared (omega arith)
