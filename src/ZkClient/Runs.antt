-- ===== src/ZkClient/Runs.antt =====
-- Runs of the ZooKeeper client.
use rpc_base_on_zookeeper.Base.{
  Bytes, bytes_eq, ◌≡◌, ◌≢◌, refl, true, false, some, [], ◌∷◌, arith, pos, negsuc,
}
use rpc_base_on_zookeeper.Table.{find}
use rpc_base_on_zookeeper.ZkClient.{Node, WatchEvent, zoo_session_event, get_data, wait_connected}
use rpc_base_on_zookeeper.ZkClient.Model.{Tree, tree, tree-laws}
use rpc_base_on_zookeeper.ZkClient.Waiting.{watch, wait_connected-stale}
use rpc_base_on_zookeeper.ZkClient.Nodes.{get_data-residue}

abbrev connected : WatchEvent
connected = record { type_of = zoo_session_event; status = pos 3 }

abbrev expired : WatchEvent
expired = record { type_of = zoo_session_event; status = negsuc 111 }

wait_connected-stale_example : wait_connected [] (watch (expired ∷ []) true) ≡ some []
wait_connected-stale_example = wait_connected-stale (expired ∷ []) true [] refl

abbrev old_node : Node
old_node = record { data_of = b'o' ∷ []; ephemeral = false }

abbrev one_node : Tree
one_node = (b'/' ∷ [], old_node) ∷ []

abbrev new_node : Node
new_node = record { data_of = b'n' ∷ []; ephemeral = true }

abbrev path : Bytes
path = b'/' ∷ b's' ∷ []

old_there : tree.node (b'/' ∷ []) one_node ≡ some old_node
unfolding find bytes_eq
old_there = refl

get_data-residue_example : get_data tree (b'/' ∷ []) (7 ∷ 7 ∷ 0 ∷ []) one_node ≢ some (b'o' ∷ [])
get_data-residue_example =
    get_data-residue tree tree-laws (b'/' ∷ []) one_node old_node old_there (7 ∷ []) 7 (0 ∷ []) refl
      (λ e. omega (arith, e))
