-- ===== src/Channel/Silent.antt =====
-- CallMethod of src/Zrpcchannel.cc when the server cannot be reached.
use rpc_base_on_zookeeper.Base.{
  Bytes, ℕ, ◌<◌, pos, eqbℤ, ◌≡◌, ◌≢◌, refl, false, Option, none, some, All, arith, Bool-cases, inl,
  inr,
}
use rpc_base_on_zookeeper.Decimal.{to_string, atoi}
use rpc_base_on_zookeeper.Controller.{Controller, set_start_time}
use rpc_base_on_zookeeper.Heartbeat.{Heartbeat}
use rpc_base_on_zookeeper.Wire.{Runtime}
use rpc_base_on_zookeeper.Provider.{address_of}
use rpc_base_on_zookeeper.Channel.{
  Channel, connects_within, no_fd, new_connect_with_timeout, query_service_host, method_path_of,
  host_of, ip_of, uint16, key_of,
}
use rpc_base_on_zookeeper.Channel.Address.{address_of-read}
use rpc_base_on_zookeeper.Channel.Call.{
  World, Method, Result, returned, call_method, look_up, addressed, connect, timeout_of,
}
use rpc_base_on_zookeeper.Channel.Reports.{connects}
use rpc_base_on_zookeeper.Channel.Reuse.{located-connects}

-- The call returns without a response and without a word to its controller.
abbrev pub IsSilent : {R : Type 0} → Option Controller → Result R → Type 0
IsSilent ctl x =
    (x.response ≡ none)
    × (x.outcome ≡ returned)
    × (x.controller ≡ ctl)
    × (x.channel.clientfd ≡ no_fd)

module _ {R : Type 0} (r : Runtime) (parses : Bytes → Option R) (w : World) where
  connect-IsSilent :
      (request : Option Bytes) (ctl : Option Controller) (c : Channel) (h : Heartbeat)
      → connects w.net (timeout_of ctl) ≡ false
      → c.clientfd ≡ no_fd
      → IsSilent ctl (connect r parses w request ctl c h)
  unfolding connect new_connect_with_timeout
  connect-IsSilent request ctl c h e fresh = elim (Bool-cases (eqbℤ w.net.socket no_fd)) [
    | inl closed_socket ↦ simp closed_socket (refl, refl, refl, fresh)
    | inr is_open ↦ elim (Bool-cases (connects_within w.net (timeout_of ctl))) [
      | inl within ↦ absurd (ground (arith, e, is_open, within))
      | inr not_within ↦ simp (is_open, not_within) (refl, refl, refl, fresh)
    ]
  ]

  addressed-IsSilent :
      (digits host : Bytes) (request : Option Bytes) (ctl : Option Controller) (c : Channel)
      (h : Heartbeat)
      → connects w.net (timeout_of ctl) ≡ false
      → c.clientfd ≡ no_fd
      → IsSilent ctl (addressed r parses w (some digits) host request ctl c h)
  unfolding addressed
  addressed-IsSilent digits host request ctl c h e fresh =
      let ip = ip_of c.idx host in
      let port = uint16 (atoi digits) in
      let c' = record c {
        ip = ip;
        port = port;
        service_key = key_of c.service_name c.method_name ip port;
      } in
      rw (located-connects r parses w request ctl c' h) (connect-IsSilent request ctl c' _ e fresh)

  -- A first call over a channel, with or without heartbeats, to a service whose address is found,
  -- with no colon in its host and with a 16-bit port, but that cannot be connected to, returns
  -- without a response, and its controller knows of nothing but the start of the call.
  pub call_method-IsSilent :
      (ip : Bytes) (port : ℕ) (method : Method) (request : Option Bytes) (ctl : Controller)
      (c : Channel) (h : Heartbeat)
      → c.clientfd ≡ no_fd
      → All (λ b. b ≢ b':') ip
      → port < 65536
      → w.get_data (method_path_of method.service method.name) ≡ address_of ip (pos port)
      → connects w.net ctl.timeout_ms ≡ false
      → IsSilent
          (some (set_start_time w.now ctl))
          (call_method r parses w method (some ctl) request c h)
  unfolding call_method look_up query_service_host set_start_time
  call_method-IsSilent ip port method request ctl c h fresh plain small e e' =
      let (host, i) = host_of (address_of ip (pos port)) c.idx in
      let (ip_read, digits_read, port_read) = address_of-read ip port c.idx plain small in
      let c' = record c {
        clientfd = no_fd;
        service_name = method.service;
        method_name = method.name;
        idx = i;
      } in
      simp (fresh, e, digits_read)
        (addressed-IsSilent (to_string (pos port)) host request (some (set_start_time w.now ctl)) c'
          h e' refl)
