-- ===== src/Channel/Address.antt =====
-- The address that src/Zrpcprovider.cc registers, read back by src/Zrpcchannel.cc.
use rpc_base_on_zookeeper.Base.{
  Bytes, text, ℕ, zero, suc, ◌+◌, ◌≤◌, ◌<◌, ℤ, pos, ◌≡◌, ◌≢◌, refl, ap, ◌∙◌, Option, none, some, [],
  ◌∷◌, ◌++◌, All, length, length-append, take, take-length-append, arith, le→leb,
}
use native.Mathlib.Numerals.{add-one}
use rpc_base_on_zookeeper.Decimal.{to_string, atoi, atoi-to_string_ℕ, to_string_ℕ}
use rpc_base_on_zookeeper.Config.Lines.{index_of-append, drop-length-suc}
use rpc_base_on_zookeeper.Controller.{Controller, set_start_time}
use rpc_base_on_zookeeper.Heartbeat.{Heartbeat}
use rpc_base_on_zookeeper.Wire.{Runtime}
use rpc_base_on_zookeeper.Provider.{address_of}
use rpc_base_on_zookeeper.Channel.{
  Channel, no_fd, query_service_host, method_path_of, host_of, ip_of, port_text, uint16,
}
use rpc_base_on_zookeeper.Channel.Call.{
  World, Method, Result, threw, on_controller, call_method, look_up, addressed,
}

take_all : (s : Bytes) (n : ℕ) → length s ≤ n → take n s ≡ s
take_all [] zero h = refl
take_all [] (suc n) h = refl
take_all (x ∷ s) zero h = absurd (omega arith)
take_all (x ∷ s) (suc n) h = ap (◌∷◌ x) (take_all s n (omega arith))

pub host_of-address :
    (ip t : Bytes) (idx : ℤ)
    → All (λ c. c ≢ b':') ip
    → host_of (ip ++ b':' ∷ t) idx ≡ (ip ++ b':' ∷ t, pos (length ip))
unfolding host_of
host_of-address [] t idx h = rw (index_of-append b':' [] t h, host_of) refl
host_of-address (x ∷ ip) t idx h = rw (index_of-append b':' (x ∷ ip) t h, host_of) refl

port_text-address : (ip t : Bytes) → port_text (pos (length ip)) (ip ++ b':' ∷ t) ≡ some t
unfolding port_text
port_text-address ip t =
    let long : length ip + 1 ≤ length (ip ++ b':' ∷ t) =
      omega (arith, length-append ip (b':' ∷ t)) in
    rw (le→leb (length ip + 1) (length (ip ++ b':' ∷ t)) long, add-one, drop-length-suc ip b':' t)
      (ap some (take_all t _ (omega (arith, length-append ip (b':' ∷ t)))))

uint16-small : (n : ℕ) → n < 65536 → uint16 (pos n) ≡ n
unfolding uint16
uint16-small n h = omega arith

host_of-none : (idx : ℤ) → host_of [] idx ≡ (text " ", idx)
unfolding host_of
host_of-none idx = refl

port_text-none : (i : ℕ) → port_text (pos (suc i)) (text " ") ≡ none
unfolding port_text text
port_text-none i = ground arith

-- The address of a server whose IP has no colon, with a 16-bit port, is taken apart into that IP and
-- that port, whatever index the channel had.
pub address_of-read :
    (ip : Bytes) (port : ℕ) (idx : ℤ)
    → All (λ c. c ≢ b':') ip
    → port < 65536
    → let (host, i) = host_of (address_of ip (pos port)) idx in
      (ip_of i host ≡ ip)
      × (port_text i host ≡ some (to_string (pos port)))
      × (uint16 (atoi (to_string (pos port))) ≡ port)
unfolding address_of text ip_of to_string to_string_ℕ
address_of-read ip port idx h small = rw (host_of-address ip (to_string (pos port)) idx h) (
  take-length-append ip (b':' ∷ to_string (pos port)),
  port_text-address ip (to_string (pos port)),
  ap uint16 (atoi-to_string_ℕ port) ∙ uint16-small port small,
)

-- The call throws: it has no response, opens nothing, and its controller is told of its start only.
abbrev pub Throws : {R : Type 0} → ℕ → Option Controller → Result R → Type 0
Throws now controller x =
    (x.outcome ≡ threw)
    × (x.response ≡ none)
    × (x.events ≡ [])
    × (x.controller ≡ on_controller (set_start_time now) controller)

-- A channel without a descriptor whose index is past the first byte, and a look-up that finds no data.
pub unlocated-Throws :
    {R : Type 0} (r : Runtime) (parses : Bytes → Option R) (w : World) (method : Method)
    (controller : Option Controller) (request : Option Bytes) (c : Channel) (h : Heartbeat) (i : ℕ)
    → c.clientfd ≡ no_fd
    → c.idx ≡ pos (suc i)
    → w.get_data (method_path_of method.service method.name) ≡ []
    → Throws w.now controller (call_method r parses w method controller request c h)
unfolding call_method look_up addressed query_service_host
unlocated-Throws r parses w method controller request c h i fresh moved gone =
    rw (fresh, gone, moved, host_of-none (pos (suc i)), port_text-none i) (refl, refl, refl, refl)
