-- ===== src/Logger.antt =====
-- src/include/ZrpcLogger.h: the logger, one object for the process over glog. The calls of glog are
-- a list of events. `std::call_once` lets one caller initialise while the others wait, so calls from
-- many threads are a list of calls, in the order in which they come to the logger.
pub mod Once
pub mod Concurrent
mod Runs
use rpc_base_on_zookeeper.Base.{Bytes, Bool, true, false, List, [], ◌∷◌, ◌++◌, if◌then◌else◌}

pub data Severity : Type 0 where
  info warning error fatal : Severity

pub data GlogEvent : Type 0 where
  init_google_logging : Bytes → GlogEvent
  shutdown_google_logging : GlogEvent
  log : Severity → Bytes → GlogEvent

-- `instance` says whether the static object of GetInstance is there, `init_flag` whether the flag of
-- `call_once` is taken; the two options are glog's.
pub record Logger : Type 0 where
  pub instance_ : Bool
  pub init_flag : Bool
  pub initialized : Bool
  pub colorlogtostderr : Bool
  pub logtostderr : Bool
  pub events : List GlogEvent

abbrev pub before_main : Logger
before_main = record {
  instance_ = false;
  init_flag = false;
  initialized = false;
  colorlogtostderr = false;
  logtostderr = false;
  events = [];
}

-- The constructor runs once, at the first use.
unfoldable pub get_instance : Logger → Logger
get_instance l = if l.instance_ then l else record l { instance_ = true; initialized = false }

-- `Init` on the object.
unfoldable pub init : Bytes → Logger → Logger
init argv0 l = if l.init_flag then l else record l {
  init_flag = true;
  initialized = true;
  colorlogtostderr = true;
  logtostderr = true;
  events = l.events ++ init_google_logging argv0 ∷ [];
}

unfoldable pub is_initialized : Logger → Bool
is_initialized l = l.initialized

-- `Info`, `Warning`, `ERROR` and `Fatal`; what they check before has no effect.
unfoldable pub write : Severity → Bytes → Logger → Logger
write severity message l =
    let l' = get_instance l in record l' { events = l'.events ++ log severity message ∷ [] }

-- The destructor, at the exit of the process, if there is an object.
unfoldable pub destroy : Logger → Logger
destroy l =
    if l.instance_
    then (if l.initialized
        then record l { events = l.events ++ shutdown_google_logging ∷ [] }
        else l)
    else l
