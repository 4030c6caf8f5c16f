-- ===== src/Channel.antt =====
-- src/Zrpcchannel.cc: the client side. What the socket calls and the peer do is an argument; the
-- calls that are made on descriptors are a list of events. Logging is left out.
pub mod Call
pub mod Connecting
pub mod Thrown
pub mod Address
pub mod Reports
pub mod Reuse
pub mod Closed
pub mod Silent
pub mod Discovery
pub mod Served
mod Runs
use rpc_base_on_zookeeper.Base.{
  Bytes, text, ℕ, zero, suc, ◌+◌, ◌-◌, ◌%◌, ◌^◌, ℤ, pos, negsuc, eqbℤ, ltbℤ, Bool, true, false,
  ◌&&◌, ◌||◌, Option, none, some, List, [], ◌∷◌, ◌++◌, length, take, drop, leb, if◌then◌else◌,
}
use rpc_base_on_zookeeper.Decimal.{to_string, atoi}
use rpc_base_on_zookeeper.Config.{index_of}
use rpc_base_on_zookeeper.Heartbeat.{Heartbeat, start}

abbrev pub no_fd : ℤ
no_fd = negsuc 0

pub record Channel : Type 0 where
  pub clientfd : ℤ
  pub service_name : Bytes
  pub ip : Bytes
  pub port : ℕ
  pub method_name : Bytes
  pub idx : ℤ
  pub heartbeat_enabled : Bool
  pub service_key : Bytes

pub data Event : Type 0 where
  opened closed received : ℤ → Event
  sent : ℤ → Bytes → Event

-- The answers of socket, connect (with errno), poll for a timeout, and getsockopt with SO_ERROR.
pub record Connect : Type 0 where
  pub socket : ℤ
  pub result : ℤ
  pub in_progress : Bool
  pub poll : ℤ → ℤ
  pub getsockopt : ℤ
  pub so_error : ℤ

-- `newConnect`, which blocks.
unfoldable pub new_connect : Connect → Channel → Channel × List Event × Bool
new_connect net c =
    if eqbℤ net.socket no_fd
    then (c, [], false)
    else if eqbℤ net.result no_fd
    then (c, opened net.socket ∷ closed net.socket ∷ [], false)
    else (record c { clientfd = net.socket }, opened net.socket ∷ [], true)

-- The attempt connects at once, or while `poll` waits for it.
unfoldable pub connects_within : Connect → ℤ → Bool
connects_within net timeout_ms =
    eqbℤ net.result (pos 0)
    || (net.in_progress
        && (ltbℤ (pos 0) (net.poll timeout_ms)
            && (eqbℤ net.getsockopt (pos 0) && eqbℤ net.so_error (pos 0))))

unfoldable pub new_connect_with_timeout : Connect → ℤ → Channel → Channel × List Event × Bool
new_connect_with_timeout net timeout_ms c =
    if eqbℤ net.socket no_fd
    then (c, [], false)
    else if connects_within net timeout_ms
    then (record c { clientfd = net.socket }, opened net.socket ∷ [], true)
    else (c, opened net.socket ∷ closed net.socket ∷ [], false)

unfoldable pub enable_heartbeat : Bool → Channel → Heartbeat → Channel × Heartbeat
enable_heartbeat enable c h =
    (record c { heartbeat_enabled = enable }, if enable then start h else h)

unfoldable pub is_heartbeat_enabled : Channel → Bool
is_heartbeat_enabled c = c.heartbeat_enabled

is_empty : Bytes → Bool
is_empty [] = true
is_empty (c ∷ s) = false

-- The end of QueryServiceHost, on what GetData has returned: the host text and the new index.
unfoldable pub host_of : Bytes → ℤ → Bytes × ℤ
unfolding is_empty
host_of host_data idx =
    if is_empty host_data
    then (text " ", idx)
    else elim (index_of b':' host_data) [ none ↦ (text " ", no_fd) | some i ↦ (host_data, pos i) ]

unfoldable pub method_path_of : Bytes → Bytes → Bytes
method_path_of service_name method_name = text "/" ++ (service_name ++ (text "/" ++ method_name))

-- `get_data` is GetData of the client that was just started.
unfoldable pub query_service_host : (Bytes → Bytes) → Bytes → Bytes → ℤ → Bytes × ℤ
query_service_host get_data service_name method_name idx =
    host_of (get_data (method_path_of service_name method_name)) idx

-- `host_data.substr(0, m_idx)`; a negative index is a huge size.
unfoldable pub ip_of : ℤ → Bytes → Bytes
ip_of (pos i) host = take i host
ip_of (negsuc n) host = host

-- `host_data.substr(m_idx + 1, size - m_idx)`; `none` is the exception for a start past the end.
unfoldable pub port_text : ℤ → Bytes → Option Bytes
port_text (pos i) host =
    if leb (i + 1) (length host) then some (take (length host - i) (drop (i + 1) host)) else none
port_text (negsuc zero) host = some host
port_text (negsuc (suc n)) host = none

-- The conversion to `uint16_t`.
unfoldable pub uint16 : ℤ → ℕ
uint16 (pos n) = n % 65536
uint16 (negsuc n) = 65535 - n % 65536

unfoldable pub key_of : Bytes → Bytes → Bytes → ℕ → Bytes
key_of service_name method_name ip port =
    service_name
    ++ (text "." ++ (method_name ++ (text "@" ++ (ip ++ (text ":" ++ to_string (pos port))))))

-- The constructor's loop: `!rt && count--`, each round with its own socket calls.
retry : ℕ → (ℕ → Connect) → ℕ → Bool → Channel → Channel × List Event
retry zero nets n rt c = (c, [])
retry (suc count) nets n true c = (c, [])
retry (suc count) nets n false c =
    let (c', es, rt) = new_connect_with_timeout (nets n) (pos 15000) c in
    let (c'', es') = retry count nets (suc n) rt c' in (c'', es ++ es')

-- The port is not initialised: `port` is what it happens to hold.
unfoldable pub new_channel : Bool → ℕ → (ℕ → Connect) → Channel × List Event
unfolding retry
new_channel connect_now port nets =
    let c : Channel = record {
      clientfd = no_fd;
      service_name = [];
      ip = [];
      port = port;
      method_name = [];
      idx = pos 0;
      heartbeat_enabled = false;
      service_key = [];
    } in
    let (c', es, rt) = new_connect_with_timeout (nets 0) (pos 15000) c in
    let (c'', es') = retry 3 nets 1 rt c' in if connect_now then (c'', es ++ es') else (c, [])
