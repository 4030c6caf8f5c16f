-- ===== src/Heartbeat/Pass.antt =====
-- What a pass of HeartbeatWorker in src/ZrpcHeartbeat.cc does to each service.
use rpc_base_on_zookeeper.Base.{
  Bytes, bytes_eq_iff, ℕ, ◌≡◌, refl, Bool, true, false, Option, none, some, [], ◌∷◌, if◌then◌else◌,
  arith,
}
use rpc_base_on_zookeeper.Table.{Table, find}
use rpc_base_on_zookeeper.Table.Keys.{UniqueKeys}
use rpc_base_on_zookeeper.Heartbeat.{
  ServiceInfo, Heartbeat, Net, has_timed_out, probe, pass_loop, worker_pass,
}

-- What a pass leaves of a service.
abbrev pub after_pass :
    Option (Bytes → Bytes → ℕ → Bool) → Net → ℕ → Bytes → ServiceInfo → Option ServiceInfo
after_pass callback net now key info =
    if has_timed_out now info
    then none
    else if probe callback net key info
    then some (record info { last_heartbeat = now })
    else some info

abbrev pub after_pass? :
    Option (Bytes → Bytes → ℕ → Bool) → Net → ℕ → Bytes → Option ServiceInfo → Option ServiceInfo
after_pass? callback net now key none = none
after_pass? callback net now key (some info) = after_pass callback net now key info

find-pass_none :
    (callback : Option (Bytes → Bytes → ℕ → Bool)) (net : Net) (now : ℕ) (key : Bytes)
    (t : Table ServiceInfo)
    → find key t ≡ none
    → find key (pass_loop callback net now t) ≡ none
unfolding find pass_loop
find-pass_none callback net now key [] h = refl
find-pass_none callback net now key ((j, info) ∷ t) h =
    ground (arith, find-pass_none callback net now key t)

find-pass_loop :
    (callback : Option (Bytes → Bytes → ℕ → Bool)) (net : Net) (now : ℕ) (key : Bytes)
    (t : Table ServiceInfo)
    → UniqueKeys t
    → find key (pass_loop callback net now t) ≡ after_pass? callback net now key (find key t)
unfolding find pass_loop
find-pass_loop callback net now key [] u = refl
find-pass_loop callback net now key ((j, info) ∷ t) u = ground (
  arith,
  bytes_eq_iff j key,
  find-pass_none callback net now key t,
  find-pass_loop callback net now key t u.1,
)

pub pass_loop-UniqueKeys :
    (callback : Option (Bytes → Bytes → ℕ → Bool)) (net : Net) (now : ℕ) (t : Table ServiceInfo)
    → UniqueKeys t
    → UniqueKeys (pass_loop callback net now t)
unfolding pass_loop
pass_loop-UniqueKeys callback net now [] u = tt
pass_loop-UniqueKeys callback net now ((j, info) ∷ t) u =
    ground (arith, find-pass_none callback net now j t, pass_loop-UniqueKeys callback net now t u.1)

-- In a running manager that was not told to stop, whose services have different keys, a pass drops
-- the services whose time is over, marks with the time of the pass those that answer their probe,
-- and leaves the others as they are.
pub find-worker_pass :
    (net : Net) (now : ℕ) (key : Bytes) (h : Heartbeat)
    → UniqueKeys h.services
    → h.running ≡ true
    → h.stop_requested ≡ false
    → find key (worker_pass net now h).services
      ≡ after_pass? h.callback net now key (find key h.services)
unfolding worker_pass
find-worker_pass net now key h u r s =
    ground (arith, find-pass_loop h.callback net now key h.services u)
