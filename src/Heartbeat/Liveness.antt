-- ===== src/Heartbeat/Liveness.antt =====
-- When the manager of src/ZrpcHeartbeat.cc takes a service for dead, and when it does not.
use rpc_base_on_zookeeper.Base.{
  Bytes, bytes_eq, bytes_eq_refl, ℕ, ◌+◌, ◌*◌, ◌<◌, pos, ◌≡◌, refl, ◌∙◌, Bool, true, false, not,
  ◌||◌, Option, some, List, [], ◌∷◌, leb, arith,
}
use rpc_base_on_zookeeper.Table.{find, find-assign, find-erase}
use rpc_base_on_zookeeper.Table.Keys.{assign-UniqueKeys}
use rpc_base_on_zookeeper.Controller.{to_millis}
use rpc_base_on_zookeeper.Heartbeat.{
  ServiceInfo, Heartbeat, register_service, unregister_service, start, is_service_available,
  has_timed_out, probe,
}
use rpc_base_on_zookeeper.Heartbeat.Pass.{find-worker_pass}
use rpc_base_on_zookeeper.Heartbeat.History.{
  Event, registers, unregisters, triggers, passes, starts, stops, sets_callback, apply, run,
  IsRunning, AllSilent, any_late, run-Watched, Watched, apply-UniqueKeys, find-trigger, IsQuiet,
  flags,
}

abbrev pub registered : Bytes → ℕ → ℕ → ℕ → ServiceInfo
registered ip port t now = record { ip = ip; port = port; timeout_ms = pos t; last_heartbeat = now }

-- A pass at or after the deadline.
abbrev pub any_pass_from : ℕ → List Event → Bool
any_pass_from deadline [] = false
any_pass_from deadline (passes net now ∷ es) = leb deadline now || any_pass_from deadline es
any_pass_from deadline (e ∷ es) = any_pass_from deadline es

timed_out-deadline :
    (ip : Bytes) (port t start now : ℕ)
    → 0 < t
    → has_timed_out now (registered ip port t start) ≡ leb (start + t * 1000000) now
unfolding has_timed_out to_millis
timed_out-deadline ip port t start now h = ground arith

module _ (key ip : Bytes) (port t start : ℕ) (h : Heartbeat) (positive : 0 < t) where
  any_late-deadline :
      (es : List Event)
      → any_late key (registered ip port t start) h.callback es
        ≡ any_pass_from (start + t * 1000000) es
  any_late-deadline [] = refl
  any_late-deadline (passes net now ∷ es) =
      cc (timed_out-deadline ip port t start now positive, any_late-deadline es)
  any_late-deadline (registers k i p m n ∷ es) = any_late-deadline es
  any_late-deadline (unregisters k ∷ es) = any_late-deadline es
  any_late-deadline (triggers k net now ∷ es) = any_late-deadline es
  any_late-deadline (starts ∷ es) = any_late-deadline es
  any_late-deadline (stops ∷ es) = any_late-deadline es
  any_late-deadline (sets_callback c ∷ es) = any_late-deadline es

  module _ (w : IsRunning h) where
    registered-Watched :
        Watched key
          (registered ip port t start)
          h.callback
          (some (registered ip port t start))
          (register_service key ip port (pos t) start h)
    unfolding register_service
    registered-Watched = record {
      running = record {
        running = w.running;
        going = w.going;
        unique = assign-UniqueKeys key (registered ip port t start) h.services w.unique;
      };
      same = refl;
      there =
          ground
            (arith, find-assign key key (registered ip port t start) h.services, bytes_eq_refl key);
    }

    -- In a running manager that is not stopped and keeps its callback, a service with a positive
    -- limit of `t` milliseconds that never answers after its registration at `start` is available
    -- until a pass comes at or after `start` plus the limit, and then no more, whatever else is
    -- called on other services.
    pub is_service_available-silent :
        (es : List Event)
        → AllSilent key (registered ip port t start) h.callback es
        → is_service_available key (run es (register_service key ip port (pos t) start h))
          ≡ not (any_pass_from (start + t * 1000000) es)
    unfolding is_service_available
    is_service_available-silent es q = ground (
      arith,
      run-Watched key (registered ip port t start) h.callback false es
          (register_service key ip port (pos t) start h) q registered-Watched,
      any_late-deadline es,
    )

module _ (key ip : Bytes) (port t : ℕ) (callback : Option (Bytes → Bytes → ℕ → Bool)) where
  -- The service answers a pass, which comes within its limit of the last answer; the other events are
  -- about other services.
  abbrev pub Answers : ℕ → Event → Type 0
  Answers last (passes net now) =
      (probe callback net key (registered ip port t last) ≡ true) × (now < last + t * 1000000)
  Answers last (registers k i p m n) = bytes_eq k key ≡ false
  Answers last (unregisters k) = bytes_eq k key ≡ false
  Answers last (triggers k net now) = bytes_eq k key ≡ false
  Answers last starts = Unit
  Answers last stops = ⊥
  Answers last (sets_callback c) = ⊥

  abbrev answered : ℕ → Event → ℕ
  answered last (passes net now) = now
  answered last _ = last

  abbrev pub AllAnswer : ℕ → List Event → Type 0
  AllAnswer last [] = Unit
  AllAnswer last (e ∷ es) = Answers last e × AllAnswer (answered last e) es

  Answers-IsQuiet : (last : ℕ) (e : Event) → Answers last e → IsQuiet e
  Answers-IsQuiet last (registers k i p m n) q = tt
  Answers-IsQuiet last (unregisters k) q = tt
  Answers-IsQuiet last (triggers k net now) q = tt
  Answers-IsQuiet last (passes net now) q = tt
  Answers-IsQuiet last starts q = tt
  Answers-IsQuiet last stops q = q
  Answers-IsQuiet last (sets_callback c) q = q

  module _ (positive : 0 < t) where
    step-find :
        (last : ℕ) (e : Event) (h : Heartbeat)
        → Answers last e
        → Watched key (registered ip port t last) callback (some (registered ip port t last)) h
        → find key (apply e h).services ≡ some (registered ip port t (answered last e))
    unfolding apply register_service unregister_service start probe
    step-find last (registers k i p m n) h q w = ground (
      arith,
      find-assign k key (record { ip = i; port = p; timeout_ms = m; last_heartbeat = n })
          h.services,
    )
    step-find last (unregisters k) h q w = ground (arith, find-erase k key h.services)
    step-find last (triggers k net now) h q w = ground (arith, find-trigger k net now h key)
    step-find last (passes net now) h q w = ground (
      arith,
      find-worker_pass net now key h w.running.unique,
      timed_out-deadline ip port t last now positive,
    )
    step-find last starts h q w = ground arith
    step-find last stops h q w = absurd q
    step-find last (sets_callback c) h q w = absurd q

    run-available :
        (last : ℕ) (es : List Event) (h : Heartbeat)
        → AllAnswer last es
        → Watched key (registered ip port t last) callback (some (registered ip port t last)) h
        → is_service_available key (run es h) ≡ true
    unfolding run is_service_available
    run-available last [] h q w = ground (arith, w.there)
    run-available last (e ∷ es) h q w =
        let (running, going, kept) = flags e h (Answers-IsQuiet last e q.0) w.running in
        run-available (answered last e) es (apply e h) q.1 (record {
          running = record {
            running = running;
            going = going;
            unique = apply-UniqueKeys e h w.running.unique;
          };
          same = kept ∙ w.same;
          there = step-find last e h q.0 w;
        })

-- In a running manager that is not stopped and keeps its callback, a service with a positive limit
-- that answers every pass, where each pass comes within the limit after the one before, stays
-- available, whatever else is called on other services.
pub is_service_available-answering :
    (key ip : Bytes) (port t start : ℕ) (h : Heartbeat) (es : List Event)
    → 0 < t
    → IsRunning h
    → AllAnswer key ip port t h.callback start es
    → is_service_available key (run es (register_service key ip port (pos t) start h)) ≡ true
is_service_available-answering key ip port t start h es positive w q =
    run-available key ip port t h.callback positive start es
      (register_service key ip port (pos t) start h) q
      (registered-Watched key ip port t start h positive w)
