-- ===== src/Wire/Header/Merge.antt =====
-- MergeFrom and CopyFrom of src/Zrpcheader.pb.cc against the parser.
use rpc_base_on_zookeeper.Base.{
  Bytes, ℕ, zero, suc, ◌≡◌, refl, ap, sym, ◌∙◌, Bool, true, false, not, [], ◌∷◌, ◌++◌, append_assoc,
  append-nil, length, ltb, ◌==◌, if◌then◌else◌, arith,
}
use mathlib.Core.Path.{subst}
use rpc_base_on_zookeeper.Wire.{Runtime, RuntimeLaws}
use rpc_base_on_zookeeper.Wire.Header.{
  RpcHeader, cleared, clear, Parsed, parsed, serialize_header, parse_header, set_service,
  set_method, set_size, merge_from, copy_from,
}
use rpc_base_on_zookeeper.Wire.Header.RoundTrip.{
  Fits, Gives, Gives-service, Gives-method, Gives-size, Gives-done,
}

set_service-cleared : (s : Bytes) → set_service s cleared ≡ record cleared { service_name = s }
unfolding set_service
set_service-cleared [] = refl
set_service-cleared (c ∷ s) = ground arith

set_method-cleared :
    (a s : Bytes)
    → set_method s (record cleared { service_name = a })
      ≡ record cleared { service_name = a; method_name = s }
unfolding set_method
set_method-cleared a [] = refl
set_method-cleared a (c ∷ s) = ground arith

set_size-cleared :
    (a s : Bytes) (n : ℕ)
    → set_size n (record cleared { service_name = a; method_name = s })
      ≡ record { service_name = a; method_name = s; args_size = n }
unfolding set_size
set_size-cleared a s zero = refl
set_size-cleared a s (suc n) = ground arith

-- A copy is equal to its source, also if it is the source itself.
pub copy_from-eq :
    (same : Bool) (from to : RpcHeader) → (same ≡ true → to ≡ from) → copy_from same from to ≡ from
unfolding copy_from merge_from clear
copy_from-eq true from to e = e refl
copy_from-eq false from to e =
    ap (λ h. set_size from.args_size (set_method from.method_name h))
      (set_service-cleared from.service_name)
    ∙ ap (set_size from.args_size) (set_method-cleared from.service_name from.method_name)
    ∙ set_size-cleared from.service_name from.method_name from.args_size

module _ (r : Runtime) (laws : RuntimeLaws r) where
  -- A part that is written or left out, and the field that is set or left as it is.
  part-Gives :
      (b : Bool) (w rest : Bytes) (h h' : RpcHeader) (result : Parsed)
      → (Gives r laws rest h' result → Gives r laws (w ++ rest) h result)
      → Gives r laws rest (if b then h' else h) result
      → Gives r laws ((if b then w else []) ++ rest) h result
  part-Gives true w rest h h' result f g = f g
  part-Gives false w rest h h' result f g = g

  rest-Gives :
      (b : Bool) (w rest : Bytes) (h h' : RpcHeader) (result : Parsed)
      → (Gives r laws rest h' result → Gives r laws (w ++ rest) h result)
      → Gives r laws rest (if not b then h' else h) result
      → Gives r laws ((if b then [] else w) ++ rest) h result
  rest-Gives true w rest h h' result f g = g
  rest-Gives false w rest h h' result f g = f g

  serialized-merge :
      (a h : RpcHeader) (rest : Bytes) (result : Parsed)
      → Fits a
      → Gives r laws rest (merge_from a h) result
      → Gives r laws (serialize_header r a ++ rest) h result
  unfolding serialize_header merge_from set_service set_method set_size
  serialized-merge a h rest result fits g =
      let service = if ltb 0 (length a.service_name) then r.write_bytes 1 a.service_name else [] in
      let method = if ltb 0 (length a.method_name) then r.write_bytes 2 a.method_name else [] in
      let size = if a.args_size == 0 then [] else r.write_uint32 3 a.args_size in
      let regroup : (service ++ (method ++ size)) ++ rest ≡ service ++ (method ++ (size ++ rest)) =
        append_assoc service (method ++ size) rest
        ∙ ap (λ t. service ++ t) (append_assoc method size rest) in
      let h' = set_service a.service_name h in
      let h'' = set_method a.method_name h' in
      subst (λ t. Gives r laws t h result) (sym regroup)
        (part-Gives (ltb 0 (length a.service_name)) (r.write_bytes 1 a.service_name)
          (method ++ (size ++ rest)) h (record h { service_name = a.service_name }) result
          (Gives-service r laws a.service_name _ h result fits.service)
          (part-Gives (ltb 0 (length a.method_name)) (r.write_bytes 2 a.method_name) (size ++ rest)
            h' (record h' { method_name = a.method_name }) result
            (Gives-method r laws a.method_name _ h' result fits.method)
            (rest-Gives (a.args_size == 0) (r.write_uint32 3 a.args_size) rest h''
              (record h'' { args_size = a.args_size }) result
              (Gives-size r laws a.args_size _ h'' result fits.size) g)))

  -- Two headers in a row, with names shorter than 2 GB and sizes of 32 bits, parse as the second
  -- merged into the first, as protobuf documents it.
  pub parse-serialize_twice :
      (a b : RpcHeader)
      → Fits a
      → Fits b
      → parse_header r (serialize_header r a ++ serialize_header r b)
        ≡ parsed (merge_from b (merge_from a cleared))
  unfolding parse_header
  parse-serialize_twice a b fits fits' =
      let last : Gives r laws (serialize_header r b) (merge_from a cleared)
          (parsed (merge_from b (merge_from a cleared))) =
        subst
          (λ t.
            Gives r laws t (merge_from a cleared) (parsed (merge_from b (merge_from a cleared))))
          (append-nil (serialize_header r b))
          (serialized-merge b (merge_from a cleared) [] _ fits' (Gives-done r laws _)) in
      serialized-merge a cleared (serialize_header r b) _ fits last
        (length (serialize_header r a ++ serialize_header r b)) (omega arith)
