-- ===== src/Controller/Runs.antt =====
-- Runs of the controller.
use rpc_base_on_zookeeper.Base.{◌≡◌, true, false, List, pos, [], ◌∷◌}
use rpc_base_on_zookeeper.Controller.{new_controller, notify_on_cancel}
use rpc_base_on_zookeeper.Controller.Lifecycle.{Call, cancels, limits, run, notify_on_cancel-failed}

abbrev calls : List Call
calls = limits (pos 10) ∷ cancels ∷ []

notify_on_cancel-failed_example :
    (notify_on_cancel true (run calls new_controller) ≡ true
      → (run calls new_controller).failed ≡ true)
    × ((run calls new_controller).failed ≡ false → (run calls new_controller).err_text ≡ [])
notify_on_cancel-failed_example = notify_on_cancel-failed calls
