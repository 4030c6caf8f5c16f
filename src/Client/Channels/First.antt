-- ===== src/Client/Channels/First.antt =====
-- The first call over each channel of the integrated client of example/caller/integrated_client.cc, and
-- what its `main` comes to.
use rpc_base_on_zookeeper.Base.{
  Bytes, ℕ, ◌+◌, ◌<◌, ℤ, pos, ◌≡◌, ◌≢◌, ap, true, false, Option, some, is_some, All, arith,
}
use rpc_base_on_zookeeper.Controller.{new_controller, set_timeout}
use rpc_base_on_zookeeper.Wire.{Runtime}
use rpc_base_on_zookeeper.Provider.{address_of}
use rpc_base_on_zookeeper.Channel.{Channel, no_fd, method_path_of}
use rpc_base_on_zookeeper.Channel.Call.{World, Result, returned}
use rpc_base_on_zookeeper.Channel.Closed.{after}
use rpc_base_on_zookeeper.Channel.Reports.{Reports, connects, is_failed, call_method-Reports}
use rpc_base_on_zookeeper.Channel.Reuse.{Answers, call_method-first}
use rpc_base_on_zookeeper.Server.{Asked, Codec}
use rpc_base_on_zookeeper.Server.Requests.{service_of, name_of}
use rpc_base_on_zookeeper.Client.Channels.{
  Link, ends, read_or, met, ask, noticed, ask_cache, ask_user,
}
use rpc_base_on_zookeeper.Client.Channels.Used.{AllUsed}

-- The address of the method is found, the connection is made within the time and the response arrives.
pub record Serves {R : Type 0} (r : Runtime) (parses : Bytes → Option R) (timeout_ms : ℤ)
    (q : Asked) (response : R) (w : World) : Type 0 where
  pub ip : Bytes
  pub port : ℕ
  pub plain : All (λ (b : ℕ). b ≢ b':') ip
  pub small : port < 65536
  pub located :
      w.get_data (method_path_of (service_of q).name (name_of q)) ≡ address_of ip (pos port)
  pub connected : connects w.net timeout_ms ≡ true
  pub answered : Answers r parses w response

module _ (r : Runtime) (codec : Codec) (meets : ℕ → World) where
  -- What a first call over a channel comes to.
  abbrev Delivered : {R : Type 0} → Result R → R → Link → Type 0
  Delivered x response s =
      (is_failed x.controller ≡ false)
      × (x.response ≡ some response)
      × (x.outcome ≡ returned)
      × (x.channel.clientfd ≢ no_fd)
      × (after x.events s.is_open x.channel.clientfd ≡ false)
      × ((fd : ℤ) → s.is_open fd ≡ false → after x.events s.is_open fd ≡ false)

  ask-Delivered :
      {R : Type 0} (parses : Bytes → Option R) (timeout_ms : ℤ) (q : Asked) (c : Channel) (s : Link)
      (response : R)
      → c.clientfd ≡ no_fd
      → Serves r parses timeout_ms q response (meets s.calls)
      → Delivered (ask r codec meets parses timeout_ms q c s) response s
  unfolding ask met set_timeout Reports
  ask-Delivered parses timeout_ms q c s response fresh serves =
      let w = met r codec meets c s in
      let ctl = set_timeout timeout_ms new_controller in
      let (serializes, is_sent, arrived) = serves.answered in
      let sends : w.sends ≡ true = ground (arith, fresh, is_sent) in
      let (told, ended, fd, ip, port, events) =
        call_method-first r parses w serves.ip serves.port _ (codec.serialize_request q) (some ctl)
          c s.heartbeat response fresh serves.plain serves.small serves.located serves.connected
          (serializes, sends, arrived) in
      let (safe, silent, fine) =
        call_method-Reports r parses w _ (some (codec.serialize_request q)) ctl c s.heartbeat
          (λ e. serves.connected) in
      (
        fine (ap is_some told),
        told,
        ended,
        rw fd (λ e. ground (arith, e, serves.connected)),
        rw (events, fd) (ground arith),
        λ fd e. rw events (ground (arith, e)),
      )

  -- A first call over the cache's channel, and then one over the user service's: both are answered, and
  -- both channels are used.
  pub both-AllUsed :
      {A B : Type 0} (parses : Bytes → Option A) (parses' : Bytes → Option B) (default : A)
      (default' : B) (ms ms' : ℤ) (q q' : Asked) (answer : A) (answer' : B) (s : Link)
      → s.cache_channel.clientfd ≡ no_fd
      → s.user_channel.clientfd ≡ no_fd
      → s.ended ≡ false
      → Serves r parses ms q answer (meets s.calls)
      → Serves r parses' ms' q' answer' (meets (s.calls + 1))
      → let (s₁, failed, told) = ask_cache r codec meets parses default ms q s in
        let (s₂, failed', told') = ask_user r codec meets parses' default' ms' q' s₁ in
        (failed ≡ false)
        × (told ≡ answer)
        × (failed' ≡ false)
        × (told' ≡ answer')
        × AllUsed r codec meets s₂
  unfolding ask_cache ask_user noticed ends
  both-AllUsed parses parses' default default' ms ms' q q' answer answer' s fresh fresh' up serves
        serves' =
      let x = ask r codec meets parses ms q s.cache_channel s in
      let s₁ = record (noticed r codec meets x s) { cache_channel = x.channel } in
      let (told, answered, ended, held, shut, kept) =
        ask-Delivered parses ms q s.cache_channel s answer fresh serves in
      let y = ask r codec meets parses' ms' q' s₁.user_channel s₁ in
      let (told', answered', ended', held', shut', kept') =
        ask-Delivered parses' ms' q' s₁.user_channel s₁ answer' fresh' serves' in
      (
        told,
        ap (read_or default) answered,
        told',
        ap (read_or default') answered',
        ((held', shut'), (held, kept' x.channel.clientfd shut), ground (arith, up, ended, ended')),
      )
