-- ===== src/Provider/Dispatch.antt =====
-- OnMessage of src/Zrpcprovider.cc on the bytes that CallMethod of src/Zrpcchannel.cc sends.
use rpc_base_on_zookeeper.Base.{
  Bytes, ◌<◌, ◌%◌, ◌^◌, ◌≡◌, ap, sym, ◌∙◌, Bool, true, Option, none, some, List, [], ◌∷◌, ◌++◌,
  append_assoc, append-nil, or_else, length, arith, if◌then◌else◌,
}
use rpc_base_on_zookeeper.Table.{Table, find, emplace, find-emplace}
use rpc_base_on_zookeeper.Wire.{Runtime, RuntimeLaws, max_size}
use rpc_base_on_zookeeper.Wire.Header.{RpcHeader, serialize_header, parsed}
use rpc_base_on_zookeeper.Wire.Header.RoundTrip.{parse-serialize, Fits}
use rpc_base_on_zookeeper.Wire.Frame.{header_for, request_frame}
use rpc_base_on_zookeeper.Provider.{
  Service, ServiceInfo, Reaction, args_error, request_error, no_service, no_method, calls,
  emplace_methods, service_info, notify_service, found_method, found_service, parsed_header,
  on_message,
}

-- A request within the limits of protobuf.
pub record FitsWire (r : Runtime) (service_name method_name args : Bytes) : Type 0 where
  pub service : length service_name < max_size
  pub method : length method_name < max_size
  pub args_fit : length args < max_size
  pub header : length (serialize_header r (header_for service_name method_name args)) < max_size

-- The reaction that the names and the arguments of a request call for.
pub called :
    {M : Type 0} → (M → Bytes → Bool) → Bytes → Bytes → Bytes → Table (ServiceInfo M) → Reaction M
called parses service_name method_name args t = elim (find service_name t) [
  | none ↦ no_service service_name
  | some info ↦ elim (find method_name info.method_map) [
    | none ↦ no_method service_name method_name
    | some method ↦ if parses method args then calls info.service method args else request_error
  ]
]

module _ {M : Type 0} (r : Runtime) (laws : RuntimeLaws r) (parses : M → Bytes → Bool)
    (t : Table (ServiceInfo M)) (service_name method_name args : Bytes)
    (fits : FitsWire r service_name method_name args) where
  size_lem : length args % 2 ^ 32 ≡ length args
  size_lem = omega (arith, fits.args_fit)

  abbrev header : RpcHeader
  header = header_for service_name method_name args

  header-Fits : Fits header
  unfolding header_for
  header-Fits = record { service = fits.service; method = fits.method; size = omega arith }

  -- Whatever stands where the arguments should, the header has been read.
  on_message-header :
      (rest : Bytes)
      → on_message r parses
          (r.write_varint32 (length (serialize_header r header) % 2 ^ 32)
            ++ (serialize_header r header ++ rest))
          t
        ≡ parsed_header r parses (parsed header) rest t
  unfolding on_message
  on_message-header rest =
      let hdr = serialize_header r header in
      let small : length hdr % 2 ^ 32 ≡ length hdr = omega (arith, fits.header) in
      rw (
        small,
        on_message,
        laws.read_varint32-write (length hdr) (hdr ++ rest) (omega (arith, fits.header)),
        laws.read_string-append hdr rest fits.header,
        parse-serialize r laws header header-Fits,
      )

  -- For names, arguments and a header shorter than 2 GB: if only a part of the arguments has
  -- arrived, the request is refused as one whose arguments cannot be read.
  pub on_message-cut :
      (part : Bytes)
      → length part < length args
      → on_message r parses
          (r.write_varint32 (length (serialize_header r header) % 2 ^ 32)
            ++ (serialize_header r header ++ part))
          t
        ≡ args_error
  unfolding parsed_header header_for
  on_message-cut part short =
      on_message-header part
      ∙ rw (parsed_header, header_for, size_lem, laws.read_string_short (length args) part short)

  found-called :
      found_service r parses service_name method_name (find service_name t) args
      ≡ called parses service_name method_name args t
  unfolding found_service found_method called
  found-called = ground arith

  -- For names, arguments and a header shorter than 2 GB, OnMessage on the bytes of a request does
  -- what the request's names and arguments call for, and takes no notice of any bytes that came with
  -- it.
  pub on_message-request_frame :
      (extra : Bytes)
      → on_message r parses (request_frame r service_name method_name args ++ extra) t
        ≡ called parses service_name method_name args t
  unfolding request_frame parsed_header header_for
  on_message-request_frame extra =
      ap (λ s. on_message r parses s t) regroup
      ∙ on_message-header (args ++ extra)
      ∙ rw (parsed_header, header_for, size_lem, laws.read_string-append args extra fits.args_fit)
          found-called
    where
      regroup :
          request_frame r service_name method_name args ++ extra
          ≡ r.write_varint32 (length (serialize_header r header) % 2 ^ 32)
            ++ (serialize_header r header ++ (args ++ extra))
      regroup = simp append_assoc

module _ {M : Type 0} where
  -- The services of example/callee/Zserver.cc are registered one after the other.
  unfoldable pub notify_all : List (Service M) → Table (ServiceInfo M) → Table (ServiceInfo M)
  notify_all [] t = t
  notify_all (s ∷ ss) t = notify_all ss (notify_service s t)

  abbrev pub named : List (Service M) → Table (Service M)
  named [] = []
  named (s ∷ ss) = (s.name, s) ∷ named ss

  abbrev info_of : Option (Service M) → Option (ServiceInfo M)
  info_of none = none
  info_of (some s) = some (service_info s)

  find-emplace_methods :
      (n : Bytes) (ms : List (Bytes × M)) (t : Table M)
      → find n (emplace_methods ms t) ≡ or_else (find n t) (find n ms)
  unfolding emplace_methods find
  find-emplace_methods n [] t = ground arith
  find-emplace_methods n ((k, m) ∷ ms) t =
      find-emplace_methods n ms (emplace k m t) ∙ ground (arith, find-emplace k n m t)

  find-notify_all :
      (n : Bytes) (ss : List (Service M)) (t : Table (ServiceInfo M))
      → find n (notify_all ss t) ≡ or_else (find n t) (info_of (find n (named ss)))
  unfolding notify_all notify_service find
  find-notify_all n [] t = ground arith
  find-notify_all n (s ∷ ss) t =
      find-notify_all n ss (notify_service s t)
      ∙ ground (arith, find-emplace s.name n (service_info s) t)

  called-registered :
      (parses : M → Bytes → Bool) (ss : List (Service M)) (s : Service M) (n args : Bytes) (m : M)
      → find s.name (named ss) ≡ some s
      → find n s.methods ≡ some m
      → parses m args ≡ true
      → called parses s.name n args (notify_all ss []) ≡ calls s m args
  unfolding called service_info find
  called-registered parses ss s n args m hs hm hp =
      ground (arith, find-notify_all s.name ss [], find-emplace_methods n s.methods [])

  -- The request, shorter than 2 GB in each part, for a method of a registered service, with
  -- arguments that parse, calls that method of that service with those arguments; of two services or
  -- methods with one name the first counts.
  pub on_message-registered :
      (r : Runtime) (laws : RuntimeLaws r) (parses : M → Bytes → Bool) (ss : List (Service M))
      (s : Service M) (n args : Bytes) (m : M)
      → FitsWire r s.name n args
      → find s.name (named ss) ≡ some s
      → find n s.methods ≡ some m
      → parses m args ≡ true
      → on_message r parses (request_frame r s.name n args) (notify_all ss []) ≡ calls s m args
  on_message-registered r laws parses ss s n args m fits hs hm hp =
      ap (λ b. on_message r parses b (notify_all ss []))
        (sym (append-nil (request_frame r s.name n args)))
      ∙ on_message-request_frame r laws parses (notify_all ss []) s.name n args fits []
      ∙ called-registered parses ss s n args m hs hm hp
