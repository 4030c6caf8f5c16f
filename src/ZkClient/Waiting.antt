-- ===== src/ZkClient/Waiting.antt =====
-- Start of src/zookeeperutil.cc, and the flag that the clients of a process share.
use rpc_base_on_zookeeper.Base.{
  ◌≡◌, Bool, true, false, ◌&&◌, some, List, [], ◌∷◌, ◌++◌, All, eqbℤ, arith,
}
use rpc_base_on_zookeeper.ZkClient.{
  WatchEvent, zoo_session_event, zoo_connected_state, global_watcher, wait_connected,
}

abbrev pub is_connect : WatchEvent → Bool
is_connect e = eqbℤ e.type_of zoo_session_event && eqbℤ e.status zoo_connected_state

-- The flag after a list of events.
pub watch : List WatchEvent → Bool → Bool
watch [] flag = flag
watch (e ∷ es) flag = watch es (global_watcher e flag)

-- A first client waits through every other event and goes on right after the first event that reports
-- a connection.
pub wait_connected-first :
    (before : List WatchEvent) (e : WatchEvent) (rest : List WatchEvent)
    → All (λ x. is_connect x ≡ false) before
    → is_connect e ≡ true
    → wait_connected (before ++ e ∷ rest) false ≡ some rest
unfolding wait_connected global_watcher
wait_connected-first [] e rest h c = ground arith
wait_connected-first (x ∷ before) e rest h c =
    ground (arith, h.0, wait_connected-first before e rest h.1 c)

-- Once a connection was reported no event, a lost connection or an expired session included, clears
-- the flag, and every later client goes on at once, with no event of its own.
pub wait_connected-stale :
    (past : List WatchEvent) (flag : Bool) (es : List WatchEvent)
    → flag ≡ true
    → wait_connected es (watch past flag) ≡ some es
unfolding watch global_watcher wait_connected
wait_connected-stale [] flag es h = ground arith
wait_connected-stale (e ∷ past) flag es h =
    wait_connected-stale past (global_watcher e flag) es (ground arith)
