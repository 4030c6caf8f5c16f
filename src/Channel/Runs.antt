-- ===== src/Channel/Runs.antt =====
-- Runs of the client side.
use rpc_base_on_zookeeper.Base.{
  Bytes, ℕ, ◌+◌, ◌≤◌, ℤ, pos, negsuc, ◌≡◌, ◌≢◌, refl, true, false, some, none, Option, [], ◌∷◌,
  take, arith, All,
}
use rpc_base_on_zookeeper.Controller.{new_controller, set_start_time}
use rpc_base_on_zookeeper.Heartbeat.{new_heartbeat}
use rpc_base_on_zookeeper.Wire.Varint.{runtime}
use rpc_base_on_zookeeper.Wire.Frame.{request_frame}
use rpc_base_on_zookeeper.Provider.{address_of}
use rpc_base_on_zookeeper.Channel.{Channel, Connect, sent, no_fd, new_channel, connects_within}
use rpc_base_on_zookeeper.Channel.Call.{World, Method, call_method}
use rpc_base_on_zookeeper.Channel.Connecting.{opens, closes, holds, is_held, new_channel-settles}
use rpc_base_on_zookeeper.Channel.Closed.{after}
use rpc_base_on_zookeeper.Channel.Address.{Throws}
use rpc_base_on_zookeeper.Channel.Thrown.{call_method-Throws}
use rpc_base_on_zookeeper.Channel.Reports.{connects, Reports, call_method-Reports}
use rpc_base_on_zookeeper.Channel.Silent.{IsSilent, call_method-IsSilent}
use rpc_base_on_zookeeper.Channel.Reuse.{call_method-again}

abbrev good : Connect
good = record {
  socket = pos 5;
  result = pos 0;
  in_progress = false;
  poll = λ ms. pos 0;
  getsockopt = pos 0;
  so_error = pos 0;
}

abbrev bad : Connect
bad = record good { result = negsuc 0 }

abbrev parses : Bytes → Option Bytes
parses b = some b

abbrev world : World
world = record {
  now = 0;
  get_data = λ path. address_of (b'h' ∷ []) (pos 80);
  net = good;
  header_serializes = true;
  sends = true;
  arrives = some (7 ∷ []);
  error_text = [];
}

abbrev method : Method
method = record { service = b'U' ∷ []; name = b'a' ∷ [] }

abbrev other_method : Method
other_method = record { service = b'V' ∷ []; name = b'b' ∷ [] }

abbrev channel : Channel
channel = record {
  clientfd = no_fd;
  service_name = [];
  ip = [];
  port = 0;
  method_name = [];
  idx = pos 0;
  heartbeat_enabled = false;
  service_key = [];
}

-- After a call for `method`.
abbrev used : Channel
used = record channel {
  clientfd = pos 5;
  service_name = b'U' ∷ [];
  method_name = b'a' ∷ [];
  idx = pos 1;
}

good-connects : (ms : ℤ) → connects good ms ≡ true
unfolding connects_within
good-connects ms = refl

plain : All (λ (b : ℕ). b ≢ b':') (b'h' ∷ [])
plain = ((λ e. omega (arith, e)), tt)

call_method-again_example :
    let x = call_method runtime parses world other_method none (some (2 ∷ [])) used new_heartbeat in
    (take 1 x.events ≡ sent (pos 5) (request_frame runtime (b'U' ∷ []) (b'a' ∷ []) (2 ∷ [])) ∷ [])
    × (x.channel ≡ used)
    × (x.heartbeat ≡ new_heartbeat)
call_method-again_example =
    call_method-again runtime parses world other_method (2 ∷ []) none used new_heartbeat (λ e. cc)
      refl

call_method-Reports_example : Reports false (
    call_method runtime parses world method
      (some new_controller)
      (some (1 ∷ []))
      channel
      new_heartbeat)
call_method-Reports_example =
    call_method-Reports runtime parses world method (some (1 ∷ [])) new_controller channel
      new_heartbeat (λ e. good-connects (pos 15000))

new_channel-settles_example :
    let (c, es) = new_channel true 0 (λ n. bad) in
    (opens es ≡ closes es + holds c)
    × (opens es ≤ 4)
    × ((fd : ℤ) → after es (λ d. false) fd ≡ is_held c fd)
new_channel-settles_example = new_channel-settles true 0 (λ n. bad)

abbrev unreachable : World
unreachable = record world { net = bad }

bad-connects : connects bad (pos 15000) ≡ false
unfolding connects_within
bad-connects = refl

call_method-IsSilent_example : IsSilent (some (set_start_time 0 new_controller)) (
    call_method runtime parses unreachable method
      (some new_controller)
      (some [])
      channel
      new_heartbeat)
call_method-IsSilent_example =
    call_method-IsSilent runtime parses unreachable (b'h' ∷ []) 80 method (some []) new_controller
      channel new_heartbeat refl plain (omega arith) refl bad-connects

call_method-Throws_example :
    let x =
      call_method runtime parses unreachable method
        (some new_controller)
        (some [])
        channel
        new_heartbeat in
    IsSilent (some (set_start_time 0 new_controller)) x
    × Throws 0 (some new_controller) (
        call_method runtime parses
          (record world { get_data = λ path. [] })
          method
          (some new_controller)
          (some [])
          x.channel
          x.heartbeat)
call_method-Throws_example =
    call_method-Throws runtime parses unreachable (record world { get_data = λ path. [] })
      (b'h' ∷ []) 80 method method (some []) (some []) new_controller (some new_controller) channel
      new_heartbeat refl (λ e. cc e) plain (omega arith) refl bad-connects refl
