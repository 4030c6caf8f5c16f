-- ===== src/ZkClient/Model.antt =====
-- A small ZooKeeper server: a tree is a map from paths to nodes. It is an instance of the laws asked of
-- the C library, and runs the tests.
use rpc_base_on_zookeeper.Base.{
  Bytes, ℤ, is_some, Option, none, some, ◌++◌, length, drop, arith, if◌then◌else◌,
}
use rpc_base_on_zookeeper.Table.{Table, find, assign, find-assign}
use rpc_base_on_zookeeper.ZkClient.{Node, ZooKeeper, ZooKeeperLaws, zok, znonode}

abbrev pub Tree : Type 0
Tree = Table Node

abbrev pub read_node : Option Node → Bytes → ℤ × Bytes
read_node none buf = (znonode, buf)
read_node (some n) buf = (zok, n.data_of ++ drop (length n.data_of) buf)

abbrev pub tree : ZooKeeper Tree
tree = record {
  zoo_exists = λ p z. if is_some (find p z) then zok else znonode;
  zoo_create = λ p d e z.
      if is_some (find p z)
      then (znonode, z)
      else (zok, assign p (record { data_of = d; ephemeral = e }) z);
  zoo_get = λ p buf z. read_node (find p z) buf;
  node = λ p z. find p z;
}

pub tree-laws : ZooKeeperLaws tree
tree-laws = record {
  exists_missing = λ p z h. ground (arith, h);
  exists_present = λ p z h. ground (arith, h);
  create_done =
      λ p d e z q h. ground (arith, h, find-assign p q (record { data_of = d; ephemeral = e }) z);
  get_fills = λ p buf n z h k. ground (arith, h);
}
