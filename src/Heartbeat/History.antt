-- ===== src/Heartbeat/History.antt =====
-- Histories of the manager of src/ZrpcHeartbeat.cc: the calls of all threads and the passes of the
-- worker, in the order in which they take the mutex.
use rpc_base_on_zookeeper.Base.{
  Bytes, bytes_eq, bytes_eq_iff, ℕ, ℤ, ◌≡◌, refl, ◌∙◌, Bool, true, false, ◌&&◌, ◌||◌, Option, none,
  some, List, [], ◌∷◌, if◌then◌else◌, arith,
}
use rpc_base_on_zookeeper.Table.{find, find-assign, find-erase}
use rpc_base_on_zookeeper.Table.Keys.{UniqueKeys, assign-UniqueKeys, erase-UniqueKeys}
use rpc_base_on_zookeeper.Heartbeat.{
  ServiceInfo, Heartbeat, Net, start, stop, register_service, unregister_service, do_heartbeat,
  trigger_heartbeat, set_heartbeat_callback, has_timed_out, probe, worker_pass,
}
use rpc_base_on_zookeeper.Heartbeat.Pass.{find-worker_pass, pass_loop-UniqueKeys}

pub data Event : Type 0 where
  registers : Bytes → Bytes → ℕ → ℤ → ℕ → Event
  unregisters : Bytes → Event
  triggers : Bytes → Net → ℕ → Event
  passes : Net → ℕ → Event
  starts stops : Event
  sets_callback : Option (Bytes → Bytes → ℕ → Bool) → Event

unfoldable pub apply : Event → Heartbeat → Heartbeat
apply (registers key ip port ms now) h = register_service key ip port ms now h
apply (unregisters key) h = unregister_service key h
apply (triggers key net now) h = trigger_heartbeat key net now h
apply (passes net now) h = worker_pass net now h
apply starts h = start h
apply stops h = stop h
apply (sets_callback callback) h = set_heartbeat_callback callback h

unfoldable pub run : List Event → Heartbeat → Heartbeat
run [] h = h
run (e ∷ es) h = run es (apply e h)

pub apply-UniqueKeys :
    (e : Event) (h : Heartbeat) → UniqueKeys h.services → UniqueKeys (apply e h).services
unfolding apply register_service unregister_service trigger_heartbeat start stop worker_pass
    set_heartbeat_callback
apply-UniqueKeys (registers key ip port ms now) h u = assign-UniqueKeys key _ h.services u
apply-UniqueKeys (unregisters key) h u = ground (arith, erase-UniqueKeys key h.services u)
apply-UniqueKeys (triggers key net now) h u = go (find key h.services) refl
  where
    go :
        (o : Option ServiceInfo)
        → find key h.services ≡ o
        → UniqueKeys (trigger_heartbeat key net now h).services
    go none e = ground arith
    go (some info) e =
        ground (arith, assign-UniqueKeys key (record info { last_heartbeat = now }) h.services u)
apply-UniqueKeys (passes net now) h u =
    ground (arith, pass_loop-UniqueKeys h.callback net now h.services u)
apply-UniqueKeys starts h u = ground arith
apply-UniqueKeys stops h u = ground arith
apply-UniqueKeys (sets_callback callback) h u = u

-- A trigger marks its service with the time if the service is there and answers.
abbrev pub triggered : Option ServiceInfo → Net → ℕ → Option ServiceInfo
triggered none net now = none
triggered (some info) net now =
    if do_heartbeat net info.ip info.port
    then some (record info { last_heartbeat = now })
    else some info

pub find-trigger :
    (k : Bytes) (net : Net) (now : ℕ) (h : Heartbeat) (key : Bytes)
    → find key (trigger_heartbeat k net now h).services
      ≡ (if bytes_eq k key then triggered (find key h.services) net now else find key h.services)
unfolding trigger_heartbeat
find-trigger k net now h key = go (find k h.services) refl
  where
    go :
        (o : Option ServiceInfo)
        → find k h.services ≡ o
        → find key (trigger_heartbeat k net now h).services ≡ (
            if bytes_eq k key then triggered (find key h.services) net now else find key h.services)
    go none e = ground (arith, bytes_eq_iff k key)
    go (some i) e = ground (
      arith,
      bytes_eq_iff k key,
      find-assign k key (record i { last_heartbeat = now }) h.services,
    )

-- A worker thread is there and has not been told to stop.
pub record IsRunning (h : Heartbeat) : Type 0 where
  pub running : h.running ≡ true
  pub going : h.stop_requested ≡ false
  pub unique : UniqueKeys h.services

-- The worker goes on and the callback stays.
abbrev pub IsQuiet : Event → Type 0
IsQuiet stops = ⊥
IsQuiet (sets_callback c) = ⊥
IsQuiet _ = Unit

pub flags :
    (e : Event) (h : Heartbeat)
    → IsQuiet e
    → IsRunning h
    → ((apply e h).running ≡ true)
      × ((apply e h).stop_requested ≡ false)
      × ((apply e h).callback ≡ h.callback)
unfolding apply register_service unregister_service trigger_heartbeat start worker_pass
flags (registers k ip port ms now) h q w = ground arith
flags (unregisters k) h q w = ground arith
flags (triggers k net now) h q w = ground arith
flags (passes net now) h q w = ground arith
flags starts h q w = ground arith
flags stops h q w = absurd q
flags (sets_callback c) h q w = absurd q

module _ (key : Bytes) (info : ServiceInfo) (callback : Option (Bytes → Bytes → ℕ → Bool)) where
  -- Nobody registers or drops the service, stops the worker or changes the callback, and every probe
  -- of the service fails.
  abbrev pub IsSilent : Event → Type 0
  IsSilent (registers k ip port ms now) = bytes_eq k key ≡ false
  IsSilent (unregisters k) = bytes_eq k key ≡ false
  IsSilent (triggers k net now) = (bytes_eq k key && do_heartbeat net info.ip info.port) ≡ false
  IsSilent (passes net now) = probe callback net key info ≡ false
  IsSilent starts = Unit
  IsSilent stops = ⊥
  IsSilent (sets_callback c) = ⊥

  -- A pass that comes when the service's time is over.
  abbrev pub is_late : Event → Bool
  is_late (passes net now) = has_timed_out now info
  is_late _ = false

  abbrev pub any_late : List Event → Bool
  any_late [] = false
  any_late (e ∷ es) = is_late e || any_late es

  abbrev pub AllSilent : List Event → Type 0
  AllSilent [] = Unit
  AllSilent (e ∷ es) = IsSilent e × AllSilent es

  pub record Watched (o : Option ServiceInfo) (h : Heartbeat) : Type 0 where
    pub running : IsRunning h
    pub same : h.callback ≡ callback
    pub there : find key h.services ≡ o

  abbrev pub survives : Bool → Option ServiceInfo → Option ServiceInfo
  survives late o = if late then none else o

  quiet : (e : Event) → IsSilent e → IsQuiet e
  quiet (registers k ip port ms now) q = tt
  quiet (unregisters k) q = tt
  quiet (triggers k net now) q = tt
  quiet (passes net now) q = tt
  quiet starts q = tt
  quiet stops q = q
  quiet (sets_callback c) q = q

  step-find :
      (b : Bool) (e : Event) (h : Heartbeat)
      → IsSilent e
      → Watched (survives b (some info)) h
      → find key (apply e h).services ≡ survives (b || is_late e) (some info)
  unfolding apply register_service unregister_service start
  step-find b (registers k ip port ms now) h q w = ground (
    arith,
    find-assign k key (record { ip = ip; port = port; timeout_ms = ms; last_heartbeat = now })
        h.services,
  )
  step-find b (unregisters k) h q w = ground (arith, find-erase k key h.services)
  step-find b (triggers k net now) h q w = ground (arith, find-trigger k net now h key)
  step-find b (passes net now) h q w =
      ground (arith, find-worker_pass net now key h w.running.unique)
  step-find b starts h q w = ground arith
  step-find b stops h q w = absurd q
  step-find b (sets_callback c) h q w = absurd q

  step-Watched :
      (b : Bool) (e : Event) (h : Heartbeat)
      → IsSilent e
      → Watched (survives b (some info)) h
      → Watched (survives (b || is_late e) (some info)) (apply e h)
  step-Watched b e h q w =
      let (running, going, kept) = flags e h (quiet e q) w.running in
      record {
        running = record {
          running = running;
          going = going;
          unique = apply-UniqueKeys e h w.running.unique;
        };
        same = kept ∙ w.same;
        there = step-find b e h q w;
      }

  pub run-Watched :
      (b : Bool) (es : List Event) (h : Heartbeat)
      → AllSilent es
      → Watched (survives b (some info)) h
      → find key (run es h).services ≡ survives (b || any_late es) (some info)
  unfolding run
  run-Watched b [] h q w = ground (arith, w.there)
  run-Watched b (e ∷ es) h q w =
      run-Watched (b || is_late e) es (apply e h) q.1 (step-Watched b e h q.0 w) ∙ ground arith
