-- ===== src/Channel/Closed.antt =====
-- A call over a channel whose descriptor is closed (src/Zrpcchannel.cc).
use rpc_base_on_zookeeper.Base.{
  Bytes, ℤ, eqbℤ, ◌≡◌, ◌≢◌, refl, Bool, true, false, Option, none, some, List, [], ◌∷◌, Bool-cases,
  inl, inr, if◌then◌else◌, arith,
}
use rpc_base_on_zookeeper.Controller.{Controller, set_failed}
use rpc_base_on_zookeeper.Heartbeat.{Heartbeat}
use rpc_base_on_zookeeper.Wire.{Runtime}
use rpc_base_on_zookeeper.Channel.{Channel, Event, opened, closed, received, sent, no_fd}
use rpc_base_on_zookeeper.Channel.Call.{World, Method, returned, call_method, transmit}
use rpc_base_on_zookeeper.Channel.Reports.{is_failed}

-- Which descriptors are open after events.
abbrev pub after : List Event → (ℤ → Bool) → ℤ → Bool
after [] is_open = is_open
after (opened d ∷ es) is_open = after es (λ fd. if eqbℤ d fd then true else is_open fd)
after (closed d ∷ es) is_open = after es (λ fd. if eqbℤ d fd then false else is_open fd)
after (received d ∷ es) is_open = after es is_open
after (sent d frame ∷ es) is_open = after es is_open

module _ {R : Type 0} (r : Runtime) (parses : Bytes → Option R) (w : World) where
  -- If the channel holds a descriptor on which send fails, a call with a controller returns with the
  -- controller failed, without a response, and leaves the channel as it is, so that the next one
  -- will fare the same; no descriptor is open that was not.
  pub call_method-closed :
      (method : Method) (ctl : Controller) (args : Bytes) (c : Channel) (h : Heartbeat)
      → c.clientfd ≢ no_fd
      → w.sends ≡ false
      → let x = call_method r parses w method (some ctl) (some args) c h in
        (is_failed x.controller ≡ true)
        × (x.response ≡ none)
        × (x.outcome ≡ returned)
        × (x.channel ≡ c)
        × ((is_open : ℤ → Bool) (fd : ℤ) → is_open fd ≡ false → after x.events is_open fd ≡ false)
  unfolding call_method transmit set_failed
  call_method-closed method ctl args c h held unsent =
      let kept : eqbℤ no_fd c.clientfd ≡ false = ground (arith, held) in
      elim (Bool-cases w.header_serializes) [
        | inl serializes ↦
            simp (kept, serializes, unsent)
              (refl, refl, refl, refl, λ is_open fd e. ground (arith, e))
        | inr unserialized ↦ simp (kept, unserialized) (refl, refl, refl, refl, λ is_open fd e. e)
      ]
