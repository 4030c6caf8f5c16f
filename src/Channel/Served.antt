-- ===== src/Channel/Served.antt =====
-- One whole call, from src/Zrpcchannel.cc to src/Zrpcprovider.cc.
use rpc_base_on_zookeeper.Base.{
  Bytes, ℕ, pos, ◌<◌, ◌≡◌, ◌≢◌, Bool, true, Option, some, List, [], ◌∷◌, All,
}
use rpc_base_on_zookeeper.Table.{find}
use rpc_base_on_zookeeper.Controller.{Controller}
use rpc_base_on_zookeeper.Heartbeat.{Heartbeat}
use rpc_base_on_zookeeper.Wire.{Runtime, RuntimeLaws}
use rpc_base_on_zookeeper.Provider.{Service, calls, address_of, on_message}
use rpc_base_on_zookeeper.Provider.Dispatch.{FitsWire, named, notify_all, on_message-registered}
use rpc_base_on_zookeeper.Channel.{Channel, opened, closed, received, sent, no_fd, method_path_of}
use rpc_base_on_zookeeper.Channel.Call.{World, call_method, timeout_of}
use rpc_base_on_zookeeper.Channel.Reports.{connects}
use rpc_base_on_zookeeper.Channel.Reuse.{Answers, call_method-first}

-- A first call over a channel, with or without heartbeats, shorter than 2 GB in each part, for a
-- method of one of a server's services, with arguments that the method parses, whose look-up finds
-- an address without a colon in its host and with a 16-bit port, which connects and is answered: the
-- one frame that it sends makes the server call that method of that service with those arguments,
-- and what arrives is the response of the call.
pub call_method-served :
    {M R : Type 0} (r : Runtime) (laws : RuntimeLaws r) (serves : M → Bytes → Bool)
    (ss : List (Service M)) (s : Service M) (n args : Bytes) (m : M) (parses : Bytes → Option R)
    (w : World) (ip : Bytes) (port : ℕ) (ctl : Option Controller) (c : Channel) (h : Heartbeat)
    (response : R)
    → FitsWire r s.name n args
    → find s.name (named ss) ≡ some s
    → find n s.methods ≡ some m
    → serves m args ≡ true
    → c.clientfd ≡ no_fd
    → All (λ (b : ℕ). b ≢ b':') ip
    → port < 65536
    → w.get_data (method_path_of s.name n) ≡ address_of ip (pos port)
    → connects w.net (timeout_of ctl) ≡ true
    → Answers r parses w response
    → let x = call_method r parses w (record { service = s.name; name = n }) ctl (some args) c h in
      (x.response ≡ some response)
      × (frame : Bytes) × (x.events
          ≡ opened w.net.socket
            ∷ sent w.net.socket frame
            ∷ received w.net.socket
            ∷ closed w.net.socket
            ∷ [])
      × (on_message r serves frame (notify_all ss []) ≡ calls s m args)
call_method-served r laws serves ss s n args m parses w ip port ctl c h response fits hs hm hp fresh
      plain small found connected answers =
    let (answered, ended, fd, host, number, events) =
      call_method-first r parses w ip port (record { service = s.name; name = n }) args ctl c h
        response fresh plain small found connected answers in
    (answered, _, events, on_message-registered r laws serves ss s n args m fits hs hm hp)
