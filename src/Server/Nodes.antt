-- ===== src/Server/Nodes.antt =====
-- The nodes that the server of example/callee/Zserver.cc leaves in ZooKeeper.
use rpc_base_on_zookeeper.Table.{Table}
