-- ===== src/Channel/Reuse.antt =====
-- What a second call over one channel does (src/Zrpcchannel.cc).
use rpc_base_on_zookeeper.Base.{
  Bytes, bytes_eq_refl, if◌then◌else◌, ℕ, ◌<◌, ℤ, pos, eqbℤ, ◌≡◌, ◌≢◌, refl, ap, true, false,
  Option, none, some, List, [], ◌∷◌, ◌++◌, take, arith, All, Bool-cases, inl, inr,
}
use rpc_base_on_zookeeper.Decimal.{to_string, atoi}
use rpc_base_on_zookeeper.Table.{find-assign}
use rpc_base_on_zookeeper.Controller.{Controller, set_start_time}
use rpc_base_on_zookeeper.Heartbeat.{Heartbeat, ServiceInfo, register_service, is_service_available}
use rpc_base_on_zookeeper.Wire.{Runtime}
use rpc_base_on_zookeeper.Wire.Frame.{request_frame}
use rpc_base_on_zookeeper.Provider.{address_of}
use rpc_base_on_zookeeper.Channel.{
  Channel, Event, connects_within, opened, closed, received, sent, no_fd, new_connect_with_timeout,
  query_service_host, method_path_of, host_of, ip_of, uint16, key_of,
}
use rpc_base_on_zookeeper.Channel.Address.{address_of-read}
use rpc_base_on_zookeeper.Channel.Call.{
  World, Method, Result, returned, call_method, look_up, addressed, located, connect, transmit,
  receive, answered, fails, timeout_of, on_controller,
}
use rpc_base_on_zookeeper.Channel.Reports.{connects}

registered-available :
    (key ip : Bytes) (port : ℕ) (ms : ℤ) (now : ℕ) (h : Heartbeat)
    → is_service_available key (register_service key ip port ms now h) ≡ true
unfolding register_service is_service_available
registered-available key ip port ms now h =
    let info : ServiceInfo = record {
      ip = ip;
      port = port;
      timeout_ms = ms;
      last_heartbeat = now;
    } in
    ground (arith, find-assign key key info h.services, bytes_eq_refl key)

module _ {R : Type 0} (r : Runtime) (parses : Bytes → Option R) (w : World) where
  -- The request is sent, and its answer arrives and parses.
  abbrev pub Answers : R → Type 0
  Answers response =
      (w.header_serializes ≡ true)
      × (w.sends ≡ true)
      × ((bytes : Bytes) × (w.arrives ≡ some bytes) × (parses (take 1024 bytes) ≡ some response))

  abbrev pub exchange : Bytes → Bytes → Bytes → ℤ → List Event
  exchange service name args fd =
      sent fd (request_frame r service name args) ∷ received fd ∷ closed fd ∷ []

  transmit-answered :
      (args : Bytes) (ctl : Option Controller) (c : Channel) (h : Heartbeat) (es : List Event)
      (response : R)
      → Answers response
      → let x = transmit r parses w (some args) ctl c h es in
        (x.response ≡ some response)
        × (x.outcome ≡ returned)
        × (x.channel ≡ c)
        × (x.events
            ≡ ((es ++ sent c.clientfd (request_frame r c.service_name c.method_name args) ∷ [])
                ++ received c.clientfd ∷ [])
              ++ closed c.clientfd ∷ [])
  unfolding transmit receive answered
  transmit-answered args ctl c h es response (serializes, is_sent, (bytes, arrives, parsed)) =
      rw (serializes, is_sent, arrives, parsed) (refl, refl, refl, refl)

  connect-answered :
      (args : Bytes) (ctl : Option Controller) (c : Channel) (h : Heartbeat) (response : R)
      → connects w.net (timeout_of ctl) ≡ true
      → Answers response
      → let x = connect r parses w (some args) ctl c h in
        (x.response ≡ some response)
        × (x.outcome ≡ returned)
        × (x.channel ≡ record c { clientfd = w.net.socket })
        × (x.events ≡ opened w.net.socket ∷ exchange c.service_name c.method_name args w.net.socket)
  unfolding connect new_connect_with_timeout
  connect-answered args ctl c h response e answers = elim (Bool-cases (eqbℤ w.net.socket no_fd)) [
    | inl closed_socket ↦ absurd (ground (arith, e, closed_socket))
    | inr is_open ↦ elim (Bool-cases (connects_within w.net (timeout_of ctl))) [
      | inl within ↦
          simp (is_open, within)
            (transmit-answered args ctl (record c { clientfd = w.net.socket }) h
              (opened w.net.socket ∷ []) response answers)
      | inr not_within ↦ absurd (ground (arith, e, not_within))
    ]
  ]

  -- The heartbeats that the service is looked up in: it has just been registered if they are on.
  abbrev pub noted : Channel → Heartbeat → Heartbeat
  noted c h =
      if c.heartbeat_enabled
      then register_service c.service_key c.ip c.port (pos 15000) w.now h
      else h

  -- The check of the heartbeats never refuses a service that was registered right before it.
  pub located-connects :
      (request : Option Bytes) (ctl : Option Controller) (c : Channel) (h : Heartbeat)
      → located r parses w request ctl c h ≡ connect r parses w request ctl c (noted c h)
  unfolding located
  located-connects request ctl c h = elim (Bool-cases c.heartbeat_enabled) [
    | inr off ↦ rw off refl
    | inl on ↦ rw (on, registered-available c.service_key c.ip c.port (pos 15000) w.now h) refl
  ]

  addressed-answered :
      (ip : Bytes) (port : ℕ) (digits host args : Bytes) (ctl : Option Controller) (c : Channel)
      (h : Heartbeat) (response : R)
      → ip_of c.idx host ≡ ip
      → uint16 (atoi digits) ≡ port
      → connects w.net (timeout_of ctl) ≡ true
      → Answers response
      → let x = addressed r parses w (some digits) host (some args) ctl c h in
        (x.response ≡ some response)
        × (x.outcome ≡ returned)
        × (x.channel ≡ record c {
          clientfd = w.net.socket;
          ip = ip;
          port = port;
          service_key = key_of c.service_name c.method_name ip port;
        })
        × (x.events ≡ opened w.net.socket ∷ exchange c.service_name c.method_name args w.net.socket)
  unfolding addressed
  addressed-answered ip port digits host args ctl c h response e f e' answers =
      let c' = record c {
        ip = ip;
        port = port;
        service_key = key_of c.service_name c.method_name ip port;
      } in
      rw (e, f, located-connects (some args) ctl c' h)
        (connect-answered args ctl c' _ response e' answers)

  timed :
      (ctl : Option Controller)
      → connects w.net (timeout_of ctl) ≡ true
      → connects w.net (timeout_of (on_controller (set_start_time w.now) ctl)) ≡ true
  unfolding set_start_time
  timed none e = e
  timed (some ctl) e = e

  -- The first call over a channel, with or without heartbeats, to a service whose address is found,
  -- with no colon in its host and with a 16-bit port, with a connection and an answer, delivers the
  -- answer and returns, over one descriptor: opened, sent on, received on and closed. The channel keeps the
  -- address and the number of the closed descriptor.
  pub call_method-first :
      (ip : Bytes) (port : ℕ) (method : Method) (args : Bytes) (ctl : Option Controller)
      (c : Channel) (h : Heartbeat) (response : R)
      → c.clientfd ≡ no_fd
      → All (λ b. b ≢ b':') ip
      → port < 65536
      → w.get_data (method_path_of method.service method.name) ≡ address_of ip (pos port)
      → connects w.net (timeout_of ctl) ≡ true
      → Answers response
      → let x = call_method r parses w method ctl (some args) c h in
        (x.response ≡ some response)
        × (x.outcome ≡ returned)
        × (x.channel.clientfd ≡ w.net.socket)
        × (x.channel.ip ≡ ip)
        × (x.channel.port ≡ port)
        × (x.events ≡ opened w.net.socket ∷ exchange method.service method.name args w.net.socket)
  unfolding call_method look_up query_service_host
  call_method-first ip port method args ctl c h response fresh plain small e e' answers =
      let (host, i) = host_of (address_of ip (pos port)) c.idx in
      let (ip_read, digits_read, port_read) = address_of-read ip port c.idx plain small in
      let ctl' = on_controller (set_start_time w.now) ctl in
      let c' = record c {
        clientfd = no_fd;
        service_name = method.service;
        method_name = method.name;
        idx = i;
      } in
      let (answer, ended, channel, events) =
        addressed-answered ip port (to_string (pos port)) host args ctl' c' h response ip_read
          port_read (timed ctl e') answers in
      simp (fresh, e, digits_read)
        (
          answer,
          ended,
          ap (λ c. c.clientfd) channel,
          ap (λ c. c.ip) channel,
          ap (λ c. c.port) channel,
          events,
        )

  abbrev Sends : Bytes → Channel → Heartbeat → Result R → Type 0
  Sends frame c h x =
      (take 1 x.events ≡ sent c.clientfd frame ∷ []) × (x.channel ≡ c) × (x.heartbeat ≡ h)

  fails-Sends :
      (frame reason : Bytes) (ctl : Option Controller) (c : Channel) (h : Heartbeat)
      (es : List Event)
      → Sends frame c h (fails ctl reason c h (sent c.clientfd frame ∷ es))
  fails-Sends frame reason none c h es = (refl, refl, refl)
  fails-Sends frame reason (some ctl) c h es = (refl, refl, refl)

  receive-Sends :
      (frame : Bytes) (arrives : Option Bytes) (ctl : Option Controller) (c : Channel)
      (h : Heartbeat)
      → Sends frame c h (receive r parses w arrives ctl c h (sent c.clientfd frame ∷ []))
  unfolding receive answered
  receive-Sends frame none ctl c h = fails-Sends frame _ ctl c h []
  receive-Sends frame (some bytes) ctl c h = go (parses (take 1024 bytes))
    where
      go :
          (response : Option R)
          → Sends frame c h (
              answered r parses w response ctl c h
                (sent c.clientfd frame ∷ received c.clientfd ∷ []))
      go none = fails-Sends frame _ ctl c h _
      go (some response) = (refl, refl, refl)

  -- A call over a channel that holds a descriptor, with a request and a header that serialize, looks
  -- nothing up and connects to nothing: whatever method it is for, it sends the frame of the service
  -- and method that the channel holds, on that descriptor.
  pub call_method-again :
      (method : Method) (args : Bytes) (ctl : Option Controller) (c : Channel) (h : Heartbeat)
      → c.clientfd ≢ no_fd
      → w.header_serializes ≡ true
      → let x = call_method r parses w method ctl (some args) c h in
        (take 1 x.events ≡ sent c.clientfd (request_frame r c.service_name c.method_name args) ∷ [])
        × (x.channel ≡ c)
        × (x.heartbeat ≡ h)
  unfolding call_method transmit
  call_method-again method args ctl c h held serializes =
      let kept : eqbℤ no_fd c.clientfd ≡ false = ground (arith, held) in
      let ctl' = on_controller (set_start_time w.now) ctl in
      let frame = request_frame r c.service_name c.method_name args in
      elim (Bool-cases w.sends) [
        | inl is_sent ↦ simp (kept, serializes, is_sent) (receive-Sends frame w.arrives ctl' c h)
        | inr not_sent ↦
            simp (kept, serializes, not_sent) (fails-Sends frame w.error_text ctl' c h _)
      ]
