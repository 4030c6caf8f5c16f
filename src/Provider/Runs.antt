-- ===== src/Provider/Runs.antt =====
-- Runs of the server side.
use rpc_base_on_zookeeper.Base.{
  Bytes, text, bytes_eq, ℕ, ◌≡◌, refl, Bool, true, false, some, [], ◌∷◌, ◌++◌, length, arith, pos,
  ◌%◌, ◌^◌, or_else,
}
use rpc_base_on_zookeeper.Decimal.{to_string, to_string_ℕ}
use rpc_base_on_zookeeper.Table.{Table, find, assign}
use rpc_base_on_zookeeper.Wire.Varint.{runtime, runtime-laws, write}
use rpc_base_on_zookeeper.Wire.Header.{serialize_header}
use rpc_base_on_zookeeper.Wire.Frame.{header_for, request_frame}
use rpc_base_on_zookeeper.ZkClient.{continues, create}
use rpc_base_on_zookeeper.ZkClient.Model.{tree, tree-laws, Tree}
use rpc_base_on_zookeeper.Provider.{
  Service, ServiceInfo, on_message, args_error, create_services, create_methods, address_of,
}
use rpc_base_on_zookeeper.Provider.Dispatch.{
  FitsWire, called, notify_all, on_message-request_frame, on_message-cut, named,
}
use rpc_base_on_zookeeper.Provider.Registration.{
  methods_told, services_told, service_nodes, create_services-node,
}

abbrev user_service : Service ℕ
user_service = record { name = b'U' ∷ []; methods = (b'a' ∷ [], 0) ∷ (b'b' ∷ [], 1) ∷ [] }

abbrev parses : ℕ → Bytes → Bool
parses m args = true

abbrev args : Bytes
args = 1 ∷ 2 ∷ []

call-FitsWire : FitsWire runtime (b'U' ∷ []) (b'b' ∷ []) args
unfolding runtime serialize_header header_for write
call-FitsWire = record {
  service = omega arith;
  method = omega arith;
  args_fit = omega arith;
  header = omega arith;
}

on_message-request_frame_example :
    on_message runtime parses
      (request_frame runtime (b'U' ∷ []) (b'b' ∷ []) args ++ 9 ∷ [])
      (notify_all (user_service ∷ []) [])
    ≡ called parses (b'U' ∷ []) (b'b' ∷ []) args (notify_all (user_service ∷ []) [])
on_message-request_frame_example =
    on_message-request_frame runtime runtime-laws parses (notify_all (user_service ∷ []) [])
      (b'U' ∷ []) (b'b' ∷ []) args call-FitsWire (9 ∷ [])

on_message-cut_example :
    on_message runtime parses
      (runtime.write_varint32
          (length (serialize_header runtime (header_for (b'U' ∷ []) (b'b' ∷ []) args)) % 2 ^ 32)
        ++ (serialize_header runtime (header_for (b'U' ∷ []) (b'b' ∷ []) args) ++ 1 ∷ []))
      (notify_all (user_service ∷ []) [])
    ≡ args_error
on_message-cut_example =
    on_message-cut runtime runtime-laws parses (notify_all (user_service ∷ []) []) (b'U' ∷ [])
      (b'b' ∷ []) args call-FitsWire (1 ∷ []) (omega arith)

user_found : find (b'U' ∷ []) (named (user_service ∷ [])) ≡ some user_service
unfolding find bytes_eq
user_found = refl

method_found : find (b'b' ∷ []) user_service.methods ≡ some 1
unfolding find bytes_eq
method_found = refl

abbrev registry : Table (ServiceInfo ℕ)
registry =
    (
      b'U' ∷ [],
      record { service = user_service; method_map = (b'a' ∷ [], 0) ∷ (b'b' ∷ [], 1) ∷ [] },
    )
    ∷ []

abbrev registered : Tree
registered =
    (b'/' ∷ b'U' ∷ [], record { data_of = []; ephemeral = false })
    ∷ (
      b'/' ∷ b'U' ∷ b'/' ∷ b'a' ∷ [],
      record { data_of = b'h' ∷ b':' ∷ b'8' ∷ b'0' ∷ []; ephemeral = true },
    )
    ∷ (
      b'/' ∷ b'U' ∷ b'/' ∷ b'b' ∷ [],
      record { data_of = b'h' ∷ b':' ∷ b'8' ∷ b'0' ∷ []; ephemeral = true },
    )
    ∷ []

registration : create_services tree (b'h' ∷ []) (pos 80) registry [] ≡ continues registered
unfolding create_services create_methods create find assign bytes_eq text address_of to_string
    to_string_ℕ
registration = refl

told : services_told tree (b'h' ∷ []) (pos 80) registry [] ≡ true
unfolding services_told methods_told create_methods create find assign bytes_eq text address_of
    to_string to_string_ℕ
told = refl

create_services-node_example :
    tree.node (b'/' ∷ b'U' ∷ b'/' ∷ b'b' ∷ []) registered
    ≡ or_else (tree.node (b'/' ∷ b'U' ∷ b'/' ∷ b'b' ∷ []) []) (
        find
          (b'/' ∷ b'U' ∷ b'/' ∷ b'b' ∷ [])
          (service_nodes (address_of (b'h' ∷ []) (pos 80)) registry))
create_services-node_example =
    create_services-node tree tree-laws (b'/' ∷ b'U' ∷ b'/' ∷ b'b' ∷ []) (b'h' ∷ []) (pos 80)
      registry [] registered told registration
