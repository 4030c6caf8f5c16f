-- ===== src/Channel/Reports.antt =====
-- What CallMethod of src/Zrpcchannel.cc tells the controller.
use rpc_base_on_zookeeper.Base.{
  Bytes, ℤ, eqbℤ, ◌≡◌, ◌≢◌, Bool, true, false, not, ◌&&◌, Option, none, some, is_some, List, [],
  arith, if◌then◌else◌, Bool-cases, inl, inr,
}
use rpc_base_on_zookeeper.Controller.{Controller, set_failed, set_start_time}
use rpc_base_on_zookeeper.Heartbeat.{Heartbeat}
use rpc_base_on_zookeeper.Wire.{Runtime}
use rpc_base_on_zookeeper.Channel.{
  Channel, Connect, Event, no_fd, connects_within, new_connect_with_timeout,
}
use rpc_base_on_zookeeper.Channel.Call.{
  World, Method, Result, returned, crashed, call_method, look_up, addressed, located, connect,
  transmit, receive, answered, fails, returns, on_controller,
}

abbrev pub is_failed : Option Controller → Bool
is_failed none = false
is_failed (some ctl) = ctl.failed

abbrev pub connects : Connect → ℤ → Bool
connects net timeout_ms = not (eqbℤ net.socket no_fd) && connects_within net timeout_ms

-- A call does not crash; if it returns without a response its controller has failed, and with a
-- response the controller has failed exactly if it had before.
unfoldable pub Reports : {R : Type 0} → Bool → Result R → Type 0
Reports before x =
    (x.outcome ≢ crashed)
    × (x.outcome ≡ returned → x.response ≡ none → is_failed x.controller ≡ true)
    × (is_some x.response ≡ true → is_failed x.controller ≡ before)

test-Reports :
    {R : Type 0} (before b : Bool) (x y : Result R)
    → Reports before x
    → Reports before y
    → Reports before (if b then x else y)
test-Reports before true x y hx hy = hx
test-Reports before false x y hx hy = hy

fails-Reports :
    (R : Type 0) (ctl : Controller) (reason : Bytes) (c : Channel) (h : Heartbeat) (es : List Event)
    → Reports ctl.failed (fails {R = R} (some ctl) reason c h es)
unfolding Reports set_failed
fails-Reports R ctl reason c h es = ground arith

module _ {R : Type 0} (r : Runtime) (parses : Bytes → Option R) (w : World) where
  answered-Reports :
      (response : Option R) (ctl : Controller) (c : Channel) (h : Heartbeat) (es : List Event)
      → Reports ctl.failed (answered r parses w response (some ctl) c h es)
  unfolding Reports answered set_failed
  answered-Reports response ctl c h es = ground arith

  receive-Reports :
      (arrives : Option Bytes) (ctl : Controller) (c : Channel) (h : Heartbeat) (es : List Event)
      → Reports ctl.failed (receive r parses w arrives (some ctl) c h es)
  unfolding receive
  receive-Reports none ctl c h es = fails-Reports _ ctl _ c h es
  receive-Reports (some bytes) ctl c h es = answered-Reports (parses _) ctl c h _

  transmit-Reports :
      (request : Option Bytes) (ctl : Controller) (c : Channel) (h : Heartbeat) (es : List Event)
      → Reports ctl.failed (transmit r parses w request (some ctl) c h es)
  unfolding transmit
  transmit-Reports none ctl c h es = fails-Reports _ ctl _ c h es
  transmit-Reports (some args_str) ctl c h es =
      search (test-Reports, fails-Reports, receive-Reports)

  connect-Reports :
      (request : Option Bytes) (ctl : Controller) (c : Channel) (h : Heartbeat)
      → connects w.net ctl.timeout_ms ≡ true
      → Reports ctl.failed (connect r parses w request (some ctl) c h)
  unfolding connect new_connect_with_timeout
  connect-Reports request ctl c h e = elim (Bool-cases (eqbℤ w.net.socket no_fd)) [
    | inl closed_socket ↦ absurd (ground (arith, e, closed_socket))
    | inr is_open ↦ elim (Bool-cases (connects_within w.net ctl.timeout_ms)) [
      | inl within ↦ simp (is_open, within) (transmit-Reports request ctl _ h _)
      | inr not_within ↦ absurd (ground (arith, e, not_within))
    ]
  ]

  refused-Reports :
      (reason : Bytes) (ctl : Controller) (c : Channel) (h : Heartbeat)
      → Reports {R = R} ctl.failed
          (returns (on_controller (set_failed reason) (some ctl)) c h [] none returned)
  unfolding Reports set_failed
  refused-Reports reason ctl c h = ground arith

  located-Reports :
      (request : Option Bytes) (ctl : Controller) (c : Channel) (h : Heartbeat)
      → connects w.net ctl.timeout_ms ≡ true
      → Reports ctl.failed (located r parses w request (some ctl) c h)
  unfolding located
  located-Reports request ctl c h e = search (test-Reports, refused-Reports, connect-Reports)

  addressed-Reports :
      (digits : Option Bytes) (host : Bytes) (request : Option Bytes) (ctl : Controller)
      (c : Channel) (h : Heartbeat)
      → connects w.net ctl.timeout_ms ≡ true
      → Reports ctl.failed (addressed r parses w digits host request (some ctl) c h)
  unfolding Reports addressed
  addressed-Reports none host request ctl c h e = ground arith
  addressed-Reports (some digits) host request ctl c h e = located-Reports request ctl _ h e

  look_up-Reports :
      (method : Method) (request : Option Bytes) (ctl : Controller) (c : Channel) (h : Heartbeat)
      → connects w.net ctl.timeout_ms ≡ true
      → Reports ctl.failed (look_up r parses w method request (some ctl) c h)
  unfolding look_up
  look_up-Reports method request ctl c h e = addressed-Reports _ _ request ctl _ h e

  -- A call with a controller, whose channel is connected or gets connected, does not crash. If it
  -- returns without a response, the controller has failed; if with a response, the controller has
  -- failed exactly if it had failed before.
  pub call_method-Reports :
      (method : Method) (request : Option Bytes) (ctl : Controller) (c : Channel) (h : Heartbeat)
      → (c.clientfd ≡ no_fd → connects w.net ctl.timeout_ms ≡ true)
      → Reports ctl.failed (call_method r parses w method (some ctl) request c h)
  unfolding call_method set_start_time
  call_method-Reports method request ctl c h e = elim (Bool-cases (eqbℤ no_fd c.clientfd)) [
    | inl fresh ↦
        rw fresh (
          look_up-Reports method request (set_start_time w.now ctl) c h (e (ground (arith, fresh))))
    | inr kept ↦ rw kept (transmit-Reports request (set_start_time w.now ctl) c h [])
  ]
