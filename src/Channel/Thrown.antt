-- ===== src/Channel/Thrown.antt =====
-- Two calls of CallMethod of src/Zrpcchannel.cc over one channel, the second of which throws.
use rpc_base_on_zookeeper.Base.{
  Bytes, text, ap, ℕ, suc, ◌<◌, pos, eqbℤ, ◌≡◌, ◌≢◌, ◌∙◌, refl, false, Option, some, [], ◌∷◌, All,
  length, arith, Bool-cases, inl, inr,
}
use rpc_base_on_zookeeper.Decimal.{to_string, atoi}
use rpc_base_on_zookeeper.Controller.{Controller, set_start_time}
use rpc_base_on_zookeeper.Heartbeat.{Heartbeat}
use rpc_base_on_zookeeper.Wire.{Runtime}
use rpc_base_on_zookeeper.Provider.{address_of}
use rpc_base_on_zookeeper.Channel.{
  Channel, connects_within, no_fd, new_connect_with_timeout, query_service_host, method_path_of,
  host_of, ip_of, uint16, key_of,
}
use rpc_base_on_zookeeper.Channel.Address.{
  address_of-read, host_of-address, Throws, unlocated-Throws,
}
use rpc_base_on_zookeeper.Channel.Call.{
  World, Method, call_method, look_up, addressed, connect, timeout_of,
}
use rpc_base_on_zookeeper.Channel.Reports.{connects}
use rpc_base_on_zookeeper.Channel.Reuse.{located-connects}
use rpc_base_on_zookeeper.Channel.Silent.{IsSilent, call_method-IsSilent}

length-suc : (s : Bytes) → s ≢ [] → (i : ℕ) × (length s ≡ suc i)
length-suc [] h = absurd (h refl)
length-suc (x ∷ s) h = (length s, omega arith)

module _ {R : Type 0} (r : Runtime) (parses : Bytes → Option R) where
  connect-idx :
      (w : World) (request : Option Bytes) (ctl : Option Controller) (c : Channel) (h : Heartbeat)
      → connects w.net (timeout_of ctl) ≡ false
      → (connect r parses w request ctl c h).channel.idx ≡ c.idx
  unfolding connect new_connect_with_timeout
  connect-idx w request ctl c h e = elim (Bool-cases (eqbℤ w.net.socket no_fd)) [
    | inl closed_socket ↦ simp closed_socket refl
    | inr is_open ↦ elim (Bool-cases (connects_within w.net (timeout_of ctl))) [
      | inl within ↦ absurd (ground (arith, e, is_open, within))
      | inr not_within ↦ simp (is_open, not_within) refl
    ]
  ]

  addressed-idx :
      (w : World) (digits host : Bytes) (request : Option Bytes) (ctl : Option Controller)
      (c : Channel) (h : Heartbeat)
      → connects w.net (timeout_of ctl) ≡ false
      → (addressed r parses w (some digits) host request ctl c h).channel.idx ≡ c.idx
  unfolding addressed
  addressed-idx w digits host request ctl c h e =
      let ip = ip_of c.idx host in
      let port = uint16 (atoi digits) in
      let c' = record c {
        ip = ip;
        port = port;
        service_key = key_of c.service_name c.method_name ip port;
      } in
      rw (located-connects r parses w request ctl c' h) (connect-idx w request ctl c' _ e)

  -- The index of a first call that could not connect is left behind the host.
  call_method-idx :
      (w : World) (ip : Bytes) (port : ℕ) (method : Method) (request : Option Bytes)
      (ctl : Controller) (c : Channel) (h : Heartbeat)
      → c.clientfd ≡ no_fd
      → All (λ b. b ≢ b':') ip
      → port < 65536
      → w.get_data (method_path_of method.service method.name) ≡ address_of ip (pos port)
      → connects w.net ctl.timeout_ms ≡ false
      → (call_method r parses w method (some ctl) request c h).channel.idx ≡ pos (length ip)
  unfolding call_method look_up query_service_host set_start_time address_of text
  call_method-idx w ip port method request ctl c h fresh plain small e e' =
      let (host, i) = host_of (address_of ip (pos port)) c.idx in
      let (ip_read, digits_read, port_read) = address_of-read ip port c.idx plain small in
      let c' = record c {
        clientfd = no_fd;
        service_name = method.service;
        method_name = method.name;
        idx = i;
      } in
      simp (fresh, e, digits_read)
        (addressed-idx w (to_string (pos port)) host request (some (set_start_time w.now ctl)) c' h
            e'
          ∙ ap (λ x. x.1) (host_of-address ip (to_string (pos port)) c.idx plain))

  -- A call over a channel without a descriptor finds the address of its service, with a host that is
  -- not empty and has no colon and a 16-bit port, but cannot connect, and returns without a word to
  -- its controller. If the next call over the channel, of any method, with or without a controller,
  -- finds no data in its look-up, it throws: it has no response, opens nothing, and its controller
  -- has heard of its start and of no failure.
  pub call_method-Throws :
      (w w' : World) (ip : Bytes) (port : ℕ) (method method' : Method)
      (request request' : Option Bytes) (ctl : Controller) (ctl' : Option Controller) (c : Channel)
      (h : Heartbeat)
      → c.clientfd ≡ no_fd
      → ip ≢ []
      → All (λ b. b ≢ b':') ip
      → port < 65536
      → w.get_data (method_path_of method.service method.name) ≡ address_of ip (pos port)
      → connects w.net ctl.timeout_ms ≡ false
      → w'.get_data (method_path_of method'.service method'.name) ≡ []
      → let x = call_method r parses w method (some ctl) request c h in
        IsSilent (some (set_start_time w.now ctl)) x
        × Throws w'.now ctl' (call_method r parses w' method' ctl' request' x.channel x.heartbeat)
  call_method-Throws w w' ip port method method' request request' ctl ctl' c h fresh filled plain
        small found unconnected gone =
      let x = call_method r parses w method (some ctl) request c h in
      let silent =
        call_method-IsSilent r parses w ip port method request ctl c h fresh plain small found
          unconnected in
      let (i, longer) = length-suc ip filled in
      let moved : x.channel.idx ≡ pos (suc i) =
        call_method-idx w ip port method request ctl c h fresh plain small found unconnected
        ∙ ap pos longer in
      (
        silent,
        unlocated-Throws r parses w' method' ctl' request' x.channel x.heartbeat i silent.3 moved
            gone,
      )
