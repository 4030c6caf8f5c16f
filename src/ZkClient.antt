-- ===== src/ZkClient.antt =====
-- src/zookeeperutil.cc: the ZooKeeper client. The C library and its server are a parameter: an
-- abstract server state with the calls that the client makes.
pub mod Waiting
pub mod Nodes
pub mod Model
mod Runs
use rpc_base_on_zookeeper.Base.{
  Bytes, text, ℕ, ◌≤◌, ◌+◌, ◌≡◌, ◌≢◌, ℤ, pos, negsuc, eqbℤ, Bool, true, false, not, ◌&&◌, Option,
  none, some, is_some, List, [], ◌∷◌, ◌++◌, length, drop, bytes_eq, ◌==◌, if◌then◌else◌,
}
use rpc_base_on_zookeeper.Table.{Table}
use rpc_base_on_zookeeper.Config.{load}

abbrev pub zok : ℤ
zok = pos 0

abbrev pub znonode : ℤ
znonode = negsuc 100

pub record Node : Type 0 where
  pub data_of : Bytes
  pub ephemeral : Bool

-- zoo_exists, zoo_create and zoo_get give their return codes; zoo_get also what the caller's buffer
-- then holds, from what it held before.
pub record ZooKeeper (Z : Type 0) : Type 0 where
  pub zoo_exists : Bytes → Z → ℤ
  pub zoo_create : Bytes → Bytes → Bool → Z → ℤ × Z
  pub zoo_get : Bytes → Bytes → Z → ℤ × Bytes
  -- The server's tree, which the laws speak of.
  pub node : Bytes → Z → Option Node

pub record ZooKeeperLaws {Z : Type 0} (zk : ZooKeeper Z) : Type 0 where
  -- Other codes than these two are errors, and say nothing of the node.
  pub exists_missing : (p : Bytes) (z : Z) → zk.zoo_exists p z ≡ znonode → zk.node p z ≡ none
  pub exists_present : (p : Bytes) (z : Z) → zk.zoo_exists p z ≡ zok → is_some (zk.node p z) ≡ true
  -- A creation that succeeds adds its node and touches no other; one that fails changes nothing.
  pub create_done :
      (p d : Bytes) (e : Bool) (z : Z) (q : Bytes)
      → (zk.zoo_create p d e z).0 ≡ zok
      → zk.node q (zk.zoo_create p d e z).1
        ≡ (if bytes_eq p q then some (record { data_of = d; ephemeral = e }) else zk.node q z)
  -- A read fills the buffer from the front with the data, and writes no terminator.
  pub get_fills :
      (p buf : Bytes) (n : Node) (z : Z)
      → zk.node p z ≡ some n
      → length n.data_of ≤ length buf
      → zk.zoo_get p buf z ≡ (zok, n.data_of ++ drop (length n.data_of) buf)

-- The process goes on, has called `exit(EXIT_FAILURE)`, or has written past a buffer.
pub data Run (A : Type 0) : Type 0 where
  continues : A → Run A
  exits : Run A
  overruns : Run A

infixl 5 ◌>>=◌
abbrev pub ◌>>=◌ : {A B : Type 0} → Run A → (A → Run B) → Run B
continues a >>= f = f a
exits >>= f = exits
overruns >>= f = overruns

abbrev pub zoo_session_event : ℤ
zoo_session_event = negsuc 0

abbrev pub zoo_connected_state : ℤ
zoo_connected_state = pos 3

-- An event for the watcher: its type and its status.
pub record WatchEvent : Type 0 where
  pub type_of : ℤ
  pub status : ℤ

-- `global_watcher` on the global flag `is_connected`; it notifies the waiters on every event.
unfoldable pub global_watcher : WatchEvent → Bool → Bool
global_watcher e is_connected =
    if eqbℤ e.type_of zoo_session_event && eqbℤ e.status zoo_connected_state
    then true
    else is_connected

-- `cv.wait` with its predicate: the events of the other thread are taken until the flag is set.
-- `none` is a wait that the given events do not end; else the events that are left.
unfoldable pub wait_connected : List WatchEvent → Bool → Option (List WatchEvent)
wait_connected es true = some es
wait_connected [] false = none
wait_connected (e ∷ es) false = wait_connected es (global_watcher e false)

unfoldable pub connection_string : Table Bytes → Bytes
connection_string config =
    load (text "zookeeperip") config ++ (text ":" ++ load (text "zookeeperport") config)

-- `Start`: the handle is what zookeeper_init gives for the connection string, null as `none`.
unfoldable pub start :
    (Bytes → Option ℕ) → Table Bytes → List WatchEvent → Bool → Run (ℕ × Option (List WatchEvent))
start zookeeper_init config events is_connected = elim (zookeeper_init (connection_string config)) [
  | none ↦ exits
  | some handle ↦ continues (handle, wait_connected events is_connected)
]

-- The C string in a buffer; `none` is a read past its end.
unfoldable pub c_string_in : Bytes → Option Bytes
c_string_in [] = none
c_string_in (c ∷ s) =
    let rest = c_string_in s in
    if c == 0 then some [] else elim rest [ none ↦ none | some t ↦ some (c ∷ t) ]

module _ {Z : Type 0} (zk : ZooKeeper Z) where
  -- `Create`; a node that is there is left as it is.
  unfoldable pub create : Bytes → Bytes → Bool → Z → Run Z
  create path contents ephemeral z =
      let (flag, z') = zk.zoo_create path contents ephemeral z in
      if eqbℤ (zk.zoo_exists path z) znonode
      then (if eqbℤ flag zok then continues z' else exits)
      else continues z

  -- `GetData`, with what its buffer of 64 bytes holds when it is called.
  unfoldable pub get_data : Bytes → Bytes → Z → Option Bytes
  get_data path buf z =
      let (flag, buf') = zk.zoo_get path buf z in
      if not (eqbℤ flag zok) then some [] else c_string_in buf'
