-- ===== src/Wire/Header/Sizes.antt =====
-- ByteSizeLong of src/Zrpcheader.pb.cc against the serializer.
use rpc_base_on_zookeeper.Base.{
  ◌^◌, ◌<◌, ◌≡◌, [], ◌++◌, length, length-append, ltb, ◌==◌, if◌then◌else◌, arith,
}
use rpc_base_on_zookeeper.Wire.{Runtime, RuntimeLaws}
use rpc_base_on_zookeeper.Wire.Header.{RpcHeader, serialize_header, byte_size_long}
use rpc_base_on_zookeeper.Wire.Header.RoundTrip.{Fits}

module _ (r : Runtime) (laws : RuntimeLaws r) where
  -- For names shorter than 2 GB, a size of 32 bits and less than 2 ^ 64 bytes in all, the computed
  -- size of a header is the length of its serialization.
  pub byte_size_long-serialize :
      (h : RpcHeader)
      → Fits h
      → length (serialize_header r h) < 2 ^ 64
      → byte_size_long r h ≡ length (serialize_header r h)
  unfolding byte_size_long serialize_header
  byte_size_long-serialize h fits small =
      let service = if ltb 0 (length h.service_name) then r.write_bytes 1 h.service_name else [] in
      let method = if ltb 0 (length h.method_name) then r.write_bytes 2 h.method_name else [] in
      let size = if h.args_size == 0 then [] else r.write_uint32 3 h.args_size in
      ground (
        arith,
        small,
        length-append service (method ++ size),
        length-append method size,
        laws.length-write_bytes 1 h.service_name (omega arith) fits.service,
        laws.length-write_bytes 2 h.method_name (omega arith) fits.method,
        laws.length-write_uint32 3 h.args_size (omega arith) fits.size,
      )
