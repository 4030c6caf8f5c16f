-- ===== src/Server/Calls.antt =====
-- One whole call of a method of the server of example/callee/Zserver.cc, from CallMethod of
-- src/Zrpcchannel.cc to the handler and back.
use rpc_base_on_zookeeper.Base.{
  Bytes, ℕ, zero, suc, pos, ◌≤◌, ◌<◌, ◌≡◌, ◌∙◌, ◌≢◌, refl, ap, Bool, true, Option, some, is_some,
  [], ◌∷◌, All, length, take, arith,
}
use rpc_base_on_zookeeper.Controller.{Controller}
use rpc_base_on_zookeeper.Heartbeat.{Heartbeat}
use rpc_base_on_zookeeper.Wire.{Runtime, RuntimeLaws}
use rpc_base_on_zookeeper.Provider.{calls, address_of, on_message, send_rpc_response}
use rpc_base_on_zookeeper.Channel.{Channel, opened, closed, received, sent, no_fd, method_path_of}
use rpc_base_on_zookeeper.Channel.Call.{World, call_method, timeout_of}
use rpc_base_on_zookeeper.Channel.Reports.{connects}
use rpc_base_on_zookeeper.Channel.Served.{call_method-served}
use rpc_base_on_zookeeper.Cache.{Cache}
use rpc_base_on_zookeeper.User.{Stub}
use rpc_base_on_zookeeper.Server.{
  service_map, Asked, Answered, method_of, Codec, Moment, handle, parses, call_handler, react,
  serve,
}
use rpc_base_on_zookeeper.Server.Requests.{
  CodecLaws, service_of, name_of, services, find-service, find-method, service_map_lem, Fits,
}

take-all : (n : ℕ) (s : Bytes) → length s ≤ n → take n s ≡ s
take-all zero [] h = refl
take-all zero (c ∷ s) h = absurd (omega arith)
take-all (suc n) [] h = refl
take-all (suc n) (c ∷ s) h = ap (◌∷◌ c) (take-all n s (omega arith))

module _ {W : Type 0} (cache_of : W → Cache) (put_cache : Cache → W → W) (stub : Stub W)
    (enabled : Bool) (entry_size : ℕ) (r : Runtime) (codec : Codec) (laws : RuntimeLaws r)
    (codec_laws : CodecLaws codec) where
  -- A first call over a channel for a request of one of the server's ten methods, shorter than 2 GB in
  -- its parts and with numbers that fit their fields, whose look-up finds an address without a colon
  -- in its host and with a 16-bit port; it connects, its header serializes and is sent, and the
  -- handler's answer serializes to at most 1024 bytes, which are what arrives at the client and parse
  -- as that answer. Then the client opens one descriptor, sends one frame over it, receives and closes
  -- it, and gets the handler's answer; and the server, when it is sent that frame, does to its state
  -- what the handler does when it is called directly, and sends these bytes back.
  pub call_method-handled :
      (parse_response : Bytes → Option Answered) (q : Asked) (t : Moment) (w : W) (net : World)
      (ip : Bytes) (port : ℕ) (ctl : Option Controller) (c : Channel) (h : Heartbeat)
      (bytes : Bytes)
      → let (w', a) = handle cache_of put_cache stub enabled entry_size q t w in
        Fits r codec (q, t)
        → c.clientfd ≡ no_fd
        → All (λ (b : ℕ). b ≢ b':') ip
        → port < 65536
        → net.get_data (method_path_of (service_of q).name (name_of q)) ≡ address_of ip (pos port)
        → connects net.net (timeout_of ctl) ≡ true
        → net.header_serializes ≡ true
        → net.sends ≡ true
        → codec.serialize_response a ≡ some bytes
        → net.arrives ≡ some bytes
        → length bytes ≤ 1024
        → parse_response bytes ≡ some a
        → let x =
            call_method r parse_response net
              (record { service = (service_of q).name; name = name_of q })
              ctl
              (some (codec.serialize_request q))
              c
              h in
          (x.response ≡ some a)
          × (frame : Bytes) × (x.events
              ≡ opened net.net.socket
                ∷ sent net.net.socket frame
                ∷ received net.net.socket
                ∷ closed net.net.socket
                ∷ [])
          × (serve cache_of put_cache stub enabled entry_size r codec frame t w ≡ (w', bytes ∷ []))
  unfolding serve react call_handler send_rpc_response
  call_method-handled parse_response q t w net ip port ctl c h bytes fits fresh plain small found
        connected serializes sends serialized arrives short parsed =
      let (w', a) = handle cache_of put_cache stub enabled entry_size q t w in
      let args = codec.serialize_request q in
      let arrived : parse_response (take 1024 bytes) ≡ some a =
        ap parse_response (take-all 1024 bytes short) ∙ parsed in
      let (answered, frame, events, called) =
        call_method-served r laws (parses codec) services (service_of q) (name_of q) args
          (method_of q) parse_response net ip port ctl c h a fits.1 (find-service q) (find-method q)
          (ap is_some (codec_laws.parse-serialize q fits.0)) fresh plain small found connected
          (serializes, sends, (bytes, arrives, arrived)) in
      let reaction : on_message r (parses codec) frame service_map
          ≡ calls (service_of q) (method_of q) args =
        ap (on_message r (parses codec) frame) service_map_lem ∙ called in
      (answered, frame, events, rw (reaction, codec_laws.parse-serialize q fits.0, serialized) refl)
