-- ===== src/Heartbeat.antt =====
-- src/ZrpcHeartbeat.cc: the manager that probes the registered services and drops those that have
-- not answered for their timeout. RegisterService, UnregisterService,
-- IsServiceAvailable, TriggerHeartbeat and a pass of the worker hold the manager's mutex, so each is
-- one step. Start, Stop and SetHeartbeatCallback do not hold it: they change the flags, the thread
-- and the callback, and are taken as one step each, no other step coming between.
pub mod Pass
pub mod History
pub mod Liveness
mod Runs
use rpc_base_on_zookeeper.Base.{
  Bytes, ℕ, ℤ, sub_ℕ, ltbℤ, Bool, true, false, not, ◌&&◌, Option, none, some, List, [], ◌∷◌,
  is_some, if◌then◌else◌,
}
use rpc_base_on_zookeeper.Table.{Table, find, assign, erase}
use rpc_base_on_zookeeper.Controller.{to_millis}

pub record ServiceInfo : Type 0 where
  pub ip : Bytes
  pub port : ℕ
  pub timeout_ms : ℤ
  pub last_heartbeat : ℕ

pub record Heartbeat : Type 0 where
  pub services : Table ServiceInfo
  pub thread : Bool
  pub running : Bool
  pub stop_requested : Bool
  pub callback : Option (Bytes → Bytes → ℕ → Bool)

abbrev pub new_heartbeat : Heartbeat
new_heartbeat = record {
  services = [];
  thread = false;
  running = false;
  stop_requested = false;
  callback = none;
}

-- What the network does for a probe: whether there is a socket, and whether it connects.
pub record Net : Type 0 where
  pub has_socket : Bool
  pub connects : Bytes → ℕ → Bool

unfoldable pub start : Heartbeat → Heartbeat
start h =
    if h.running then h else record h { running = true; stop_requested = false; thread = true }

unfoldable pub stop : Heartbeat → Heartbeat
stop h =
    if not h.running then h else record h { running = false; stop_requested = true; thread = false }

unfoldable pub register_service : Bytes → Bytes → ℕ → ℤ → ℕ → Heartbeat → Heartbeat
register_service service_key ip port timeout_ms now h =
    let info : ServiceInfo = record {
      ip = ip;
      port = port;
      timeout_ms = timeout_ms;
      last_heartbeat = now;
    } in
    record h { services = assign service_key info h.services }

-- The lookup, and the erasure if the key is there.
unfoldable pub unregister_service : Bytes → Heartbeat → Heartbeat
unregister_service service_key h =
    if is_some (find service_key h.services)
    then record h { services = erase service_key h.services }
    else h

unfoldable pub is_service_available : Bytes → Heartbeat → Bool
is_service_available service_key h = is_some (find service_key h.services)

unfoldable pub create_heartbeat_connection : Net → Bytes → ℕ → Bool
create_heartbeat_connection net ip port = if not net.has_socket then false else net.connects ip port

unfoldable pub do_heartbeat : Net → Bytes → ℕ → Bool
do_heartbeat = create_heartbeat_connection

trigger_found : Option ServiceInfo → Bytes → Net → ℕ → Heartbeat → Heartbeat
trigger_found none service_key net now h = h
trigger_found (some info) service_key net now h =
    if do_heartbeat net info.ip info.port
    then record h {
      services = assign service_key (record info { last_heartbeat = now }) h.services;
    }
    else h

unfoldable pub trigger_heartbeat : Bytes → Net → ℕ → Heartbeat → Heartbeat
unfolding trigger_found
trigger_heartbeat service_key net now h =
    trigger_found (find service_key h.services) service_key net now h

unfoldable pub set_heartbeat_callback : Option (Bytes → Bytes → ℕ → Bool) → Heartbeat → Heartbeat
set_heartbeat_callback callback h = record h { callback = callback }

unfoldable pub has_timed_out : ℕ → ServiceInfo → Bool
has_timed_out now info = not (ltbℤ (to_millis (sub_ℕ now info.last_heartbeat)) info.timeout_ms)

-- The custom callback if there is one, and the default probe if not.
unfoldable pub probe : Option (Bytes → Bytes → ℕ → Bool) → Net → Bytes → ServiceInfo → Bool
probe none net service_key info = do_heartbeat net info.ip info.port
probe (some callback) net service_key info = callback service_key info.ip info.port

-- The loop of a pass over the services, all against the one reading of the clock.
unfoldable pub pass_loop :
    Option (Bytes → Bytes → ℕ → Bool) → Net → ℕ → Table ServiceInfo → Table ServiceInfo
pass_loop callback net now [] = []
pass_loop callback net now ((service_key, info) ∷ t) =
    let rest = pass_loop callback net now t in
    if has_timed_out now info
    then rest
    else if probe callback net service_key info
    then (service_key, record info { last_heartbeat = now }) ∷ rest
    else (service_key, info) ∷ rest

-- One round of HeartbeatWorker, up to its wait; the thread has left its loop if it was told to stop.
unfoldable pub worker_pass : Net → ℕ → Heartbeat → Heartbeat
worker_pass net now h =
    if h.running && not h.stop_requested
    then record h { services = pass_loop h.callback net now h.services }
    else h
