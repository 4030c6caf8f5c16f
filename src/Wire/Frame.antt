-- ===== src/Wire/Frame.antt =====
-- The bytes of a request, as CallMethod of src/Zrpcchannel.cc puts them together.
use rpc_base_on_zookeeper.Base.{Bytes, ◌%◌, ◌^◌, ◌++◌, length}
use rpc_base_on_zookeeper.Wire.{Runtime}
use rpc_base_on_zookeeper.Wire.Header.{RpcHeader, serialize_header}

-- The sizes are cast to `uint32_t`.
unfoldable pub header_for : Bytes → Bytes → Bytes → RpcHeader
header_for service_name method_name args_str = record {
  service_name = service_name;
  method_name = method_name;
  args_size = length args_str % 2 ^ 32;
}

module _ (r : Runtime) where
  unfoldable pub request_frame : Bytes → Bytes → Bytes → Bytes
  request_frame service_name method_name args_str =
      let rpc_header_str = serialize_header r (header_for service_name method_name args_str) in
      r.write_varint32 (length rpc_header_str % 2 ^ 32) ++ (rpc_header_str ++ args_str)
