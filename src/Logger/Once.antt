-- ===== src/Logger/Once.antt =====
-- How often the logger of src/include/ZrpcLogger.h initialises glog and shuts it down.
use rpc_base_on_zookeeper.Base.{
  Bytes, ℕ, ◌+◌, ◌≡◌, refl, ap, Bool, true, false, ◌||◌, List, [], ◌∷◌, ◌++◌, append-nil, length,
  arith, if◌then◌else◌,
}
use rpc_base_on_zookeeper.Logger.{
  Severity, fatal, GlogEvent, init_google_logging, shutdown_google_logging, log, Logger,
  before_main, get_instance, init, write, destroy,
}

-- A call of a thread. The last one, after which the process ends, is `Fatal`.
pub data Call : Type 0 where
  inits : Bytes → Call
  asks : Call
  writes : Severity → Bytes → Call

unfoldable pub perform : Call → Logger → Logger
perform (inits argv0) l = init argv0 (get_instance l)
perform asks l = get_instance l
perform (writes severity message) l = write severity message l

abbrev pub is_fatal : Call → Bool
is_fatal (writes fatal message) = true
is_fatal c = false

-- `LOG(FATAL)` ends the process, without the destructor.
unfoldable pub process : List Call → Logger → Logger
process [] l = destroy l
process (c ∷ cs) l = if is_fatal c then perform c l else process cs (perform c l)

-- The calls that the process comes to, and whether it ends by `Fatal`.
abbrev pub reached : List Call → List Call
reached [] = []
reached (c ∷ cs) = c ∷ (if is_fatal c then [] else reached cs)

abbrev pub dies : List Call → Bool
dies [] = false
dies (c ∷ cs) = is_fatal c || dies cs

-- The first name that an Init gives, as a list of at most one.
abbrev pub first_init : List Call → List Bytes
first_init [] = []
first_init (inits argv0 ∷ cs) = argv0 ∷ []
first_init (c ∷ cs) = first_init cs

-- The messages of calls, and what of the events is about an initialisation, a message or a shutdown.
abbrev pub messages : List Call → List (Severity × Bytes)
messages [] = []
messages (writes severity message ∷ cs) = (severity, message) ∷ messages cs
messages (c ∷ cs) = messages cs

abbrev pub names : List GlogEvent → List Bytes
names [] = []
names (init_google_logging argv0 ∷ es) = argv0 ∷ names es
names (e ∷ es) = names es

abbrev pub logged : List GlogEvent → List (Severity × Bytes)
logged [] = []
logged (log severity message ∷ es) = (severity, message) ∷ logged es
logged (e ∷ es) = logged es

abbrev pub shutdowns : List GlogEvent → ℕ
shutdowns [] = 0
shutdowns (shutdown_google_logging ∷ es) = 1 + shutdowns es
shutdowns (e ∷ es) = shutdowns es

names-append : (es fs : List GlogEvent) → names (es ++ fs) ≡ names es ++ names fs
names-append [] fs = refl
names-append (init_google_logging argv0 ∷ es) fs = ap (◌∷◌ argv0) (names-append es fs)
names-append (shutdown_google_logging ∷ es) fs = names-append es fs
names-append (log severity message ∷ es) fs = names-append es fs

logged-append : (es fs : List GlogEvent) → logged (es ++ fs) ≡ logged es ++ logged fs
logged-append [] fs = refl
logged-append (init_google_logging argv0 ∷ es) fs = logged-append es fs
logged-append (shutdown_google_logging ∷ es) fs = logged-append es fs
logged-append (log severity message ∷ es) fs = ap (◌∷◌ (severity, message)) (logged-append es fs)

shutdowns-append : (es fs : List GlogEvent) → shutdowns (es ++ fs) ≡ shutdowns es + shutdowns fs
shutdowns-append [] fs = omega arith
shutdowns-append (init_google_logging argv0 ∷ es) fs = shutdowns-append es fs
shutdowns-append (shutdown_google_logging ∷ es) fs = omega (arith, shutdowns-append es fs)
shutdowns-append (log severity message ∷ es) fs = shutdowns-append es fs

-- Between two calls.
record IsSound (l : Logger) : Type 0 where
  flag : l.initialized ≡ l.init_flag
  object : l.init_flag ≡ true → l.instance_ ≡ true

perform-IsSound : (c : Call) (l : Logger) → IsSound l → IsSound (perform c l)
unfolding perform init get_instance write
perform-IsSound (inits argv0) l h = ground arith
perform-IsSound asks l h = ground arith
perform-IsSound (writes severity message) l h = ground arith

-- What the events gain until the end of the process.
record Ends (cs : List Call) (l : Logger) : Type 0 where
  init_once :
      names (process cs l).events
      ≡ names l.events ++ (if l.init_flag then [] else first_init (reached cs))
  all_logged : logged (process cs l).events ≡ logged l.events ++ messages (reached cs)
  shut_down :
      shutdowns (process cs l).events
      ≡ shutdowns l.events
        + (if dies cs then 0 else if l.init_flag then 1 else length (first_init (reached cs)))

pub write-events :
    (severity : Severity) (message : Bytes) (l : Logger)
    → let l' = write severity message l in
      (names l'.events ≡ names l.events)
      × (logged l'.events ≡ logged l.events ++ (severity, message) ∷ [])
      × (shutdowns l'.events ≡ shutdowns l.events)
      × (l'.init_flag ≡ l.init_flag)
unfolding write get_instance
write-events severity message l = ground (
  arith,
  names-append l.events (log severity message ∷ []),
  logged-append l.events (log severity message ∷ []),
  shutdowns-append l.events (log severity message ∷ []),
  append-nil (names l.events),
)

later-logged :
    (x : Severity × Bytes) (before behind : List (Severity × Bytes))
    → (before ++ x ∷ []) ++ behind ≡ before ++ x ∷ behind
later-logged x [] behind = refl
later-logged x (y ∷ ys) behind = ap (◌∷◌ y) (later-logged x ys behind)

process-Ends : (cs : List Call) (l : Logger) → IsSound l → Ends cs l
unfolding process perform init get_instance destroy
process-Ends [] l h = ground (
  arith,
  names-append l.events (shutdown_google_logging ∷ []),
  logged-append l.events (shutdown_google_logging ∷ []),
  shutdowns-append l.events (shutdown_google_logging ∷ []),
  append-nil (names l.events),
  append-nil (logged l.events),
)
process-Ends (inits argv0 ∷ cs) l h =
    let l' = init argv0 (get_instance l) in
    let rest = process-Ends cs l' (perform-IsSound (inits argv0) l h) in
    ground (
      arith,
      rest.init_once,
      rest.all_logged,
      rest.shut_down,
      names-append l.events (init_google_logging argv0 ∷ []),
      logged-append l.events (init_google_logging argv0 ∷ []),
      shutdowns-append l.events (init_google_logging argv0 ∷ []),
      append-nil (names l.events),
      append-nil (logged l.events),
      append-nil (names l.events ++ argv0 ∷ []),
    )
process-Ends (asks ∷ cs) l h =
    let rest = process-Ends cs (get_instance l) (perform-IsSound asks l h) in
    ground (arith, rest.init_once, rest.all_logged, rest.shut_down)
process-Ends (writes severity message ∷ cs) l h =
    let rest =
      process-Ends cs (write severity message l) (perform-IsSound (writes severity message) l h) in
    ground (
      arith,
      rest.init_once,
      rest.all_logged,
      rest.shut_down,
      write-events severity message l,
      later-logged (severity, message) (logged l.events) (messages (reached cs)),
      append-nil (names l.events),
    )

-- Over any calls of a process's threads, in any order, until its exit or a Fatal: glog is initialised
-- once, with the name of the first Init, or not at all if there is none; every message is logged with
-- its severity, in order; and glog is shut down as often as it was initialised, but never after a
-- Fatal.
pub process-once :
    (cs : List Call)
    → let es = (process cs before_main).events in
      (names es ≡ first_init (reached cs))
      × (logged es ≡ messages (reached cs))
      × (shutdowns es ≡ (if dies cs then 0 else length (names es)))
process-once cs =
    let ends = process-Ends cs before_main (record { flag = refl; object = λ e. cc }) in
    (ends.init_once, ends.all_logged, (ground (arith, ends.init_once, ends.shut_down)))
