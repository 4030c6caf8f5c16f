-- ===== src/Wire/Header.antt =====
-- src/Zrpcheader.pb.cc: the header of a request, its serializer and its parser.
pub mod RoundTrip
pub mod Merge
pub mod Sizes
use rpc_base_on_zookeeper.Base.{
  Bytes, ℕ, zero, suc, ◌+◌, ◌/◌, ◌%◌, ◌^◌, Bool, true, false, not, ◌&&◌, ◌||◌, Option, none, some,
  [], ◌∷◌, ◌++◌, length, ltb, ◌==◌, if◌then◌else◌,
}
use rpc_base_on_zookeeper.Wire.{Runtime}

pub record RpcHeader : Type 0 where
  pub service_name : Bytes
  pub method_name : Bytes
  pub args_size : ℕ

abbrev pub cleared : RpcHeader
cleared = record { service_name = []; method_name = []; args_size = 0 }

-- Clear.
unfoldable pub clear : RpcHeader → RpcHeader
clear h = cleared

-- MergeFrom: the fields of `from` that are not the default are set.
unfoldable pub set_service : Bytes → RpcHeader → RpcHeader
set_service s to = if ltb 0 (length s) then record to { service_name = s } else to

unfoldable pub set_method : Bytes → RpcHeader → RpcHeader
set_method s to = if ltb 0 (length s) then record to { method_name = s } else to

unfoldable pub set_size : ℕ → RpcHeader → RpcHeader
set_size n to = if not (n == 0) then record to { args_size = n } else to

unfoldable pub merge_from : RpcHeader → RpcHeader → RpcHeader
merge_from from to =
    set_size from.args_size (set_method from.method_name (set_service from.service_name to))

-- CopyFrom; `same` is that the two are one object.
unfoldable pub copy_from : Bool → RpcHeader → RpcHeader → RpcHeader
copy_from same from to = if same then to else merge_from from (clear to)

-- `more` is that the loop ran out of fuel.
pub data Parsed : Type 0 where
  parsed : RpcHeader → Parsed
  malformed more : Parsed

module _ (r : Runtime) where
  -- _InternalSerialize: fields with their default value are left out.
  unfoldable pub serialize_header : RpcHeader → Bytes
  serialize_header h =
      (if ltb 0 (length h.service_name) then r.write_bytes 1 h.service_name else [])
      ++ ((if ltb 0 (length h.method_name) then r.write_bytes 2 h.method_name else [])
          ++ (if h.args_size == 0 then [] else r.write_uint32 3 h.args_size))

  -- ByteSizeLong: the size of each field that is not the default, with a byte for its tag.
  unfoldable pub byte_size_long : RpcHeader → ℕ
  byte_size_long h =
      let with_service =
        if ltb 0 (length h.service_name)
        then (0 + (1 + r.bytes_size h.service_name)) % 2 ^ 64
        else 0 in
      let with_method =
        if ltb 0 (length h.method_name)
        then (with_service + (1 + r.bytes_size h.method_name)) % 2 ^ 64
        else with_service in
      if not (h.args_size == 0)
      then (with_method + (1 + r.uint32_size h.args_size)) % 2 ^ 64
      else with_method

  -- What one round of the loop does with the field behind a tag: the header and the rest.
  unfoldable pub read_field : ℕ → Bytes → RpcHeader → Option (RpcHeader × Bytes)
  read_field tag s h =
      if tag / 8 == 1 && tag % 256 == 10
      then elim (r.parse_string s) [
        | none ↦ none
        | some (a, t) ↦ some (record h { service_name = a }, t)
      ]
      else if tag / 8 == 2 && tag % 256 == 18
      then elim (r.parse_string s) [
        | none ↦ none
        | some (a, t) ↦ some (record h { method_name = a }, t)
      ]
      else if tag / 8 == 3 && tag % 256 == 24
      then elim (r.parse_varint32 s) [
        | none ↦ none
        | some (n, t) ↦ some (record h { args_size = n }, t)
      ]
      else if tag % 8 == 4 || tag == 0
      then none
      else elim (r.skip_field tag s) [ none ↦ none | some t ↦ some (h, t) ]

  -- The loop of _InternalParse. ParseFromString refuses a message that an end tag cuts short, so an
  -- end tag is an error here.
  unfoldable pub parse_fields : ℕ → Bytes → RpcHeader → Parsed
  parse_fields fuel [] h = parsed h
  parse_fields zero (c ∷ s) h = more
  parse_fields (suc fuel) (c ∷ s) h = elim (r.read_tag (c ∷ s)) [
    | none ↦ malformed
    | some (tag, t) ↦ elim (read_field tag t h) [
      | none ↦ malformed
      | some (h', u) ↦ parse_fields fuel u h'
    ]
  ]

  -- Each round takes a byte at least, so the length of the text is fuel enough.
  unfoldable pub parse_header : Bytes → Parsed
  unfolding read_field parse_fields
  parse_header s = parse_fields (length s) s cleared
