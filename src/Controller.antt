-- ===== src/Controller.antt =====
-- src/Zrpccontroller.cc: the state of one call as its caller sees it. `now` is the reading of
-- `steady_clock`, in nanoseconds, that a method makes.
pub mod Lifecycle
mod Runs
use rpc_base_on_zookeeper.Base.{
  Bytes, text, ℕ, ◌+◌, ◌/◌, ℤ, pos, negsuc, sub_ℕ, ltbℤ, Bool, true, false, not, ◌&&◌, ◌++◌, [],
  if◌then◌else◌,
}
use rpc_base_on_zookeeper.Decimal.{to_string}

pub record Controller : Type 0 where
  pub failed : Bool
  pub err_text : Bytes
  pub timeout_ms : ℤ
  pub start_time : ℕ
  pub canceled : Bool

abbrev pub new_controller : Controller
new_controller = record {
  failed = false;
  err_text = [];
  timeout_ms = pos 15000;
  start_time = 0;
  canceled = false;
}

unfoldable pub reset : Controller → Controller
reset c = record c { failed = false; err_text = []; canceled = false }

unfoldable pub set_failed : Bytes → Controller → Controller
set_failed reason c = record c { failed = true; err_text = reason }

unfoldable pub set_timeout : ℤ → Controller → Controller
set_timeout ms c = record c { timeout_ms = ms }

unfoldable pub set_start_time : ℕ → Controller → Controller
set_start_time now c = record c { start_time = now }

-- `duration_cast<milliseconds>`, which rounds towards zero.
unfoldable pub to_millis : ℤ → ℤ
to_millis (pos n) = pos (n / 1000000)
to_millis (negsuc n) = sub_ℕ 0 ((n + 1) / 1000000)

unfoldable pub is_timeout : ℕ → Controller → Bool
unfolding to_millis
is_timeout now c = not (ltbℤ (to_millis (sub_ℕ now c.start_time)) c.timeout_ms)

unfoldable pub check_timeout : ℕ → Controller → Controller
check_timeout now c =
    if is_timeout now c
    then set_failed (text "RPC call timeout after " ++ (to_string c.timeout_ms ++ text "ms")) c
    else c

unfoldable pub start_cancel : Controller → Controller
start_cancel c = set_failed (text "RPC call canceled") (record c { canceled = true })

-- Whether `callback`, null or not, is run.
unfoldable pub notify_on_cancel : Bool → Controller → Bool
notify_on_cancel callback c = c.canceled && callback
