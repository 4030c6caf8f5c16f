-- ===== src/Server/Runs.antt =====
-- Runs of the server of example/callee/Zserver.cc.
use rpc_base_on_zookeeper.Base.{
  Bytes, zero, text, pos, ◌+◌, ◌≡◌, refl, true, false, none, some, Option, List, [], ◌∷◌, All,
  arith,
}
use rpc_base_on_zookeeper.Heartbeat.{new_heartbeat}
use rpc_base_on_zookeeper.Wire.Varint.{runtime, runtime-laws, write}
use rpc_base_on_zookeeper.Wire.Header.{serialize_header}
use rpc_base_on_zookeeper.Wire.Frame.{header_for}
use rpc_base_on_zookeeper.Provider.{address_of}
use rpc_base_on_zookeeper.Channel.{
  Channel, Connect, connects_within, opened, closed, received, sent, no_fd,
}
use rpc_base_on_zookeeper.Channel.Call.{World, call_method}
use rpc_base_on_zookeeper.Channel.Reports.{connects}
use rpc_base_on_zookeeper.Messages.{CacheSetRequest}
use rpc_base_on_zookeeper.Cache.{Cache, empty_cache}
use rpc_base_on_zookeeper.User.Model.{Served, cache_stub}
use rpc_base_on_zookeeper.Server.{
  Asked, sets, gets, asks_profile, cache_service, user_service, Answered, Moment, handle, serve,
  serve_all,
}
use rpc_base_on_zookeeper.Server.Requests.{
  service_of, name_of, Fits, frames, handle_all, serve_all-handle_all,
}
use rpc_base_on_zookeeper.Server.Calls.{call_method-handled}
use rpc_base_on_zookeeper.Server.Model.{codec, codec-laws}

abbrev cache_of : Served → Cache
cache_of s = s.0

abbrev put_cache : Cache → Served → Served
put_cache c s = (c, s.1)

abbrev moment : Moment
moment = record { steady = λ i. 7 + i; time = pos 7 }

abbrev store : CacheSetRequest
store = record { key = b'k' ∷ []; value = b'v' ∷ []; expire_seconds = pos 60 }

abbrev asked : List (Asked × Moment)
asked = (sets store, moment) ∷ (gets (b'k' ∷ []), moment) ∷ (asks_profile 5, moment) ∷ []

asked-Fits : All (Fits runtime codec) asked
unfolding runtime codec serialize_header header_for write text cache_service user_service
asked-Fits = ground arith

abbrev empty : Served
empty = (empty_cache, 0)

serve_all-handle_all_example :
    serve_all cache_of put_cache cache_stub true 64 runtime codec (frames runtime codec asked) empty
    ≡ handle_all cache_of put_cache cache_stub true 64 runtime codec asked empty
serve_all-handle_all_example =
    serve_all-handle_all cache_of put_cache cache_stub true 64 runtime codec runtime-laws codec-laws
      asked empty asked-Fits

abbrev host : Bytes
host = b'h' ∷ b':' ∷ b'8' ∷ b'0' ∷ []

abbrev good : Connect
good = record {
  socket = pos 5;
  result = pos 0;
  in_progress = false;
  poll = λ ms. pos 0;
  getsockopt = pos 0;
  so_error = pos 0;
}

abbrev net : World
net = record {
  now = 0;
  get_data = λ path. address_of (b'h' ∷ []) (pos 80);
  net = good;
  header_serializes = true;
  sends = true;
  arrives = some (0 ∷ []);
  error_text = [];
}

abbrev channel : Channel
channel = record {
  clientfd = no_fd;
  service_name = [];
  ip = [];
  port = 0;
  method_name = [];
  idx = pos 0;
  heartbeat_enabled = true;
  service_key = [];
}

good-connects : connects good (pos 15000) ≡ true
unfolding connects_within
good-connects = refl

-- The codec writes every response as one zero byte.
abbrev reads : Answered → Bytes → Option Answered
reads answer (zero ∷ []) = some answer
reads answer b = none

abbrev request : Asked
request = sets store

abbrev answer : Answered
answer = (handle cache_of put_cache cache_stub true 64 request moment empty).1

serialized : codec.serialize_response answer ≡ some (0 ∷ [])
unfolding codec
serialized = refl

call_method-handled_example :
    let x =
      call_method runtime
        (reads answer)
        net
        (record { service = (service_of request).name; name = name_of request })
        none
        (some (codec.serialize_request request))
        channel
        new_heartbeat in
    (x.response ≡ some answer)
    × (frame : Bytes) × (x.events
        ≡ opened (pos 5) ∷ sent (pos 5) frame ∷ received (pos 5) ∷ closed (pos 5) ∷ [])
    × (serve cache_of put_cache cache_stub true 64 runtime codec frame moment empty
        ≡ ((handle cache_of put_cache cache_stub true 64 request moment empty).0, (0 ∷ []) ∷ []))
call_method-handled_example =
    call_method-handled cache_of put_cache cache_stub true 64 runtime codec runtime-laws codec-laws
      (reads answer) request moment empty net (b'h' ∷ []) 80 none channel new_heartbeat (0 ∷ [])
      asked-Fits.0 refl ((λ e. omega (arith, e)), tt) (omega arith) refl good-connects refl refl
      serialized refl (omega arith) refl
