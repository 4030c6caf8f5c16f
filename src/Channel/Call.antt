-- ===== src/Channel/Call.antt =====
-- CallMethod of src/Zrpcchannel.cc.
use rpc_base_on_zookeeper.Base.{
  Bytes, text, ℕ, ℤ, pos, eqbℤ, Bool, not, Option, none, some, List, [], ◌∷◌, ◌++◌, take,
  if◌then◌else◌,
}
use rpc_base_on_zookeeper.Decimal.{atoi}
use rpc_base_on_zookeeper.Controller.{Controller, set_failed, set_start_time}
use rpc_base_on_zookeeper.Heartbeat.{Heartbeat, register_service, is_service_available}
use rpc_base_on_zookeeper.Wire.{Runtime}
use rpc_base_on_zookeeper.Wire.Frame.{request_frame}
use rpc_base_on_zookeeper.Channel.{
  Channel, Connect, Event, closed, received, sent, no_fd, new_connect_with_timeout,
  query_service_host, ip_of, port_text, uint16, key_of,
}

-- What one call meets: the clock, what GetData returns for a path, the socket calls, whether the header
-- serializes, whether send succeeds, the bytes that recv finds (`none` for its error), and the text
-- of an error.
pub record World : Type 0 where
  pub now : ℕ
  pub get_data : Bytes → Bytes
  pub net : Connect
  pub header_serializes : Bool
  pub sends : Bool
  pub arrives : Option Bytes
  pub error_text : Bytes

pub record Method : Type 0 where
  pub service : Bytes
  pub name : Bytes

-- A call returns, throws out of `substr`, or crashes on a null controller.
pub data Outcome : Type 0 where
  returned threw crashed : Outcome

pub record Result (R : Type 0) : Type 0 where
  pub channel : Channel
  pub heartbeat : Heartbeat
  pub controller : Option Controller
  pub events : List Event
  pub response : Option R
  pub outcome : Outcome

-- `controller->SetFailed(reason)` and a return; a null pointer crashes.
abbrev pub fails :
    {R : Type 0} → Option Controller → Bytes → Channel → Heartbeat → List Event → Result R
fails none reason c h es = record {
  channel = c;
  heartbeat = h;
  controller = none;
  events = es;
  response = none;
  outcome = crashed;
}
fails (some ctl) reason c h es = record {
  channel = c;
  heartbeat = h;
  controller = some (set_failed reason ctl);
  events = es;
  response = none;
  outcome = returned;
}

-- A return that leaves the controller as it is.
abbrev pub returns :
    {R : Type 0}
    → Option Controller
    → Channel
    → Heartbeat
    → List Event
    → Option R
    → Outcome
    → Result R
returns ctl c h es response outcome = record {
  channel = c;
  heartbeat = h;
  controller = ctl;
  events = es;
  response = response;
  outcome = outcome;
}

-- `if (rpc_controller) ...`
abbrev pub on_controller : (Controller → Controller) → Option Controller → Option Controller
on_controller f none = none
on_controller f (some ctl) = some (f ctl)

abbrev pub timeout_of : Option Controller → ℤ
timeout_of none = pos 15000
timeout_of (some ctl) = ctl.timeout_ms

module _ {R : Type 0} (r : Runtime) (parses : Bytes → Option R) (w : World) where
  -- The answer in the buffer of 1024 bytes, parsed.
  unfoldable pub answered :
      Option R → Option Controller → Channel → Heartbeat → List Event → Result R
  answered none ctl c h es = fails ctl w.error_text c h (es ++ closed c.clientfd ∷ [])
  answered (some response) ctl c h es =
      returns ctl c h (es ++ closed c.clientfd ∷ []) (some response) returned

  unfoldable pub receive :
      Option Bytes → Option Controller → Channel → Heartbeat → List Event → Result R
  receive none ctl c h es = fails ctl w.error_text c h es
  receive (some bytes) ctl c h es =
      answered (parses (take 1024 bytes)) ctl c h (es ++ received c.clientfd ∷ [])

  -- From the serialization of the request to the end, over the channel's descriptor.
  unfoldable pub transmit :
      Option Bytes → Option Controller → Channel → Heartbeat → List Event → Result R
  transmit none ctl c h es = fails ctl (text "serialize request fail") c h es
  transmit (some args_str) ctl c h es =
      let send_rpc_str = request_frame r c.service_name c.method_name args_str in
      if not w.header_serializes
      then fails ctl (text "serialize rpc header error!") c h es
      else if not w.sends
      then fails ctl w.error_text c h (es ++ sent c.clientfd send_rpc_str ∷ closed c.clientfd ∷ [])
      else receive w.arrives ctl c h (es ++ sent c.clientfd send_rpc_str ∷ [])

  unfoldable pub connect : Option Bytes → Option Controller → Channel → Heartbeat → Result R
  connect request ctl c h =
      let (c', es, rt) = new_connect_with_timeout w.net (timeout_of ctl) c in
      if not rt then returns ctl c' h es none returned else transmit request ctl c' h es

  -- With the address known: the registration for heartbeats, its check, and the connection.
  unfoldable pub located : Option Bytes → Option Controller → Channel → Heartbeat → Result R
  located request ctl c h =
      let h' = register_service c.service_key c.ip c.port (pos 15000) w.now h in
      let refused =
        returns (on_controller (set_failed (text "Service not available: " ++ c.service_key)) ctl) c
          h' [] none returned in
      if c.heartbeat_enabled
      then (if not (is_service_available c.service_key h')
          then refused
          else connect request ctl c h')
      else connect request ctl c h

  unfoldable pub addressed :
      Option Bytes → Bytes → Option Bytes → Option Controller → Channel → Heartbeat → Result R
  addressed none host request ctl c h =
      returns ctl (record c { ip = ip_of c.idx host }) h [] none threw
  addressed (some digits) host request ctl c h =
      let ip = ip_of c.idx host in
      let port = uint16 (atoi digits) in
      located request ctl
        (record c {
          ip = ip;
          port = port;
          service_key = key_of c.service_name c.method_name ip port;
        })
        h

  unfoldable pub look_up :
      Method → Option Bytes → Option Controller → Channel → Heartbeat → Result R
  look_up method request ctl c h =
      let (host, idx) = query_service_host w.get_data method.service method.name c.idx in
      addressed (port_text idx host) host request ctl
        (record c { service_name = method.service; method_name = method.name; idx = idx }) h

  -- The service is looked up and connected to only if the channel has no descriptor yet.
  unfoldable pub call_method :
      Method → Option Controller → Option Bytes → Channel → Heartbeat → Result R
  call_method method controller request c h =
      let ctl = on_controller (set_start_time w.now) controller in
      if eqbℤ no_fd c.clientfd then look_up method request ctl c h else transmit request ctl c h []
