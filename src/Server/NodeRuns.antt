-- ===== src/Server/NodeRuns.antt =====
-- A run of the registration of the server of example/callee/Zserver.cc.
use rpc_base_on_zookeeper.Base.{
  Bytes, text, pos, ◌≡◌, refl, Option, some, List, [], ◌∷◌, All, arith,
}
use rpc_base_on_zookeeper.Table.{Table}
use rpc_base_on_zookeeper.Config.{load}
use rpc_base_on_zookeeper.Config.Files.{Line, IsLine, print, pairs}
use rpc_base_on_zookeeper.Application.{Opt, config_option, init}
use rpc_base_on_zookeeper.Application.Start.{init-print}
use rpc_base_on_zookeeper.Provider.{address_of}
use rpc_base_on_zookeeper.Channel.{method_path_of}
use rpc_base_on_zookeeper.Server.{Asked}
use rpc_base_on_zookeeper.Server.Requests.{service_of, name_of}

abbrev getopt : List Bytes → List Opt
getopt argv = config_option (b'f' ∷ []) ∷ []

abbrev arguments : List Bytes
arguments = (b's' ∷ []) ∷ (b'-' ∷ b'i' ∷ []) ∷ (b'f' ∷ []) ∷ []

abbrev line_of : Bytes → Bytes → Line
line_of k v = record { key = k; value = v; indent = 0; before_sign = 0; after_sign = 0; behind = 0 }

abbrev lines : List Line
lines =
    line_of (text "rpcserverip") (b'h' ∷ [])
    ∷ line_of (text "rpcserverport") (b'8' ∷ b'0' ∷ [])
    ∷ []

lines-IsLine : All IsLine lines
unfolding text
lines-IsLine = ground arith

abbrev files : Bytes → Option Bytes
files path = some (print lines)

abbrev started :
    (config : Table Bytes) × (init getopt files arguments [] ≡ some config)
    × ((key : Bytes) → load key config ≡ load key (pairs lines))
started = init-print getopt files arguments (b'f' ∷ []) lines (omega arith) refl refl lines-IsLine

abbrev node_of : Asked → Bytes
node_of q = method_path_of (service_of q).name (name_of q)

abbrev host : Bytes
host = address_of (load (text "rpcserverip") started.0) (pos 80)
