-- ===== src/Provider.antt =====
-- src/Zrpcprovider.cc: the server side. `M` is the type of protobuf's method descriptors; what a
-- service's CallMethod answers, and whether a request parses, are parameters.
pub mod Registration
pub mod Dispatch
mod Runs
use rpc_base_on_zookeeper.Base.{
  Bytes, text, ℕ, ℤ, Bool, true, false, not, Option, none, some, List, [], ◌∷◌, ◌++◌, length, ltb,
  if◌then◌else◌,
}
use rpc_base_on_zookeeper.Decimal.{to_string, atoi}
use rpc_base_on_zookeeper.Table.{Table, find, emplace}
use rpc_base_on_zookeeper.Config.{load}
use rpc_base_on_zookeeper.Wire.{Runtime}
use rpc_base_on_zookeeper.Wire.Header.{Parsed, parsed, malformed, more, RpcHeader, parse_header}
use rpc_base_on_zookeeper.ZkClient.{ZooKeeper, Run, continues, overruns, create, ◌>>=◌}

-- A service object with what its descriptor lists: its name and its methods.
pub record Service (M : Type 0) : Type 0 where
  pub name : Bytes
  pub methods : List (Bytes × M)

pub record ServiceInfo (M : Type 0) : Type 0 where
  pub service : Service M
  pub method_map : Table M

-- `sprintf("%s:%d")`, of which the caller's buffer takes 127 bytes and the terminator.
unfoldable pub address_of : Bytes → ℤ → Bytes
address_of ip port = ip ++ (text ":" ++ to_string port)

-- What OnMessage comes to.
pub data Reaction (M : Type 0) : Type 0 where
  header_error args_error request_error : Reaction M
  no_service : Bytes → Reaction M
  no_method : Bytes → Bytes → Reaction M
  calls : Service M → M → Bytes → Reaction M

-- The connection callback: whether it shuts the connection down.
unfoldable pub on_connection : Bool → Bool
on_connection connected = if not connected then true else false

-- SendRpcResponse: what goes out for a response, or nothing if it does not serialize.
unfoldable pub send_rpc_response : Option Bytes → List Bytes
send_rpc_response none = []
send_rpc_response (some response_str) = response_str ∷ []

module _ {M : Type 0} where
  unfoldable pub emplace_methods : List (Bytes × M) → Table M → Table M
  emplace_methods [] t = t
  emplace_methods ((method_name, pmd) ∷ ms) t = emplace_methods ms (emplace method_name pmd t)

  unfoldable pub service_info : Service M → ServiceInfo M
  service_info service = record {
    service = service;
    method_map = emplace_methods service.methods [];
  }

  unfoldable pub notify_service : Service M → Table (ServiceInfo M) → Table (ServiceInfo M)
  notify_service service service_map = emplace service.name (service_info service) service_map

  module _ {Z : Type 0} (zk : ZooKeeper Z) where
    -- The inner loop of Run: a node for each method, which ends with the server's session.
    unfoldable pub create_methods : Bytes → Bytes → ℤ → Table M → Z → Run Z
    create_methods service_path ip port [] z = continues z
    create_methods service_path ip port ((method, pmd) ∷ t) z =
        let contents = address_of ip port in
        if ltb (length contents) 128
        then (do
          z' ← create zk (service_path ++ (text "/" ++ method)) contents true z
          create_methods service_path ip port t z')
        else overruns

    unfoldable pub create_services : Bytes → ℤ → Table (ServiceInfo M) → Z → Run Z
    create_services ip port [] z = continues z
    create_services ip port ((name, info) ∷ t) z = do
      let service_path = text "/" ++ name
      z' ← create zk service_path [] false z
      z'' ← create_methods service_path ip port info.method_map z'
      create_services ip port t z''

    -- Run up to the event loop, with the client connected: it reads the address and registers.
    unfoldable pub run : Table Bytes → Table (ServiceInfo M) → Z → Run Z
    run config service_map z =
        create_services (load (text "rpcserverip") config)
          (atoi (load (text "rpcserverport") config)) service_map z

  module _ (r : Runtime) (parses : M → Bytes → Bool) where
    unfoldable pub found_method : Service M → Bytes → Bytes → Option M → Bytes → Reaction M
    found_method service service_name method_name none args_str = no_method service_name method_name
    found_method service service_name method_name (some method) args_str =
        if parses method args_str then calls service method args_str else request_error

    unfoldable pub found_service : Bytes → Bytes → Option (ServiceInfo M) → Bytes → Reaction M
    found_service service_name method_name none args_str = no_service service_name
    found_service service_name method_name (some info) args_str =
        found_method info.service service_name method_name (find method_name info.method_map)
          args_str

    unfoldable pub parsed_header : Parsed → Bytes → Table (ServiceInfo M) → Reaction M
    parsed_header malformed rest service_map = header_error
    parsed_header more rest service_map = header_error
    parsed_header (parsed h) rest service_map =
        let (read_args_success, args_str, _) = r.read_string h.args_size rest in
        if not read_args_success
        then args_error
        else found_service h.service_name h.method_name (find h.service_name service_map) args_str

    -- OnMessage takes everything that has arrived as one request.
    unfoldable pub on_message : Bytes → Table (ServiceInfo M) → Reaction M
    on_message recv_buf service_map =
        let (header_size, behind_size) = r.read_varint32 recv_buf in
        let (_, rpc_header_str, rest) = r.read_string header_size behind_size in
        parsed_header (parse_header r rpc_header_str) rest service_map

  -- What a request brings back, `answer` being the response that the service gives.
  unfoldable pub replies : (Service M → M → Bytes → Option Bytes) → Reaction M → List Bytes
  unfolding send_rpc_response
  replies answer (calls service method args) = send_rpc_response (answer service method args)
  replies answer _ = []
