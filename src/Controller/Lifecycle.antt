-- ===== src/Controller/Lifecycle.antt =====
-- Histories of calls on the controller of src/Zrpccontroller.cc.
use rpc_base_on_zookeeper.Base.{
  Bytes, ℕ, ◌-◌, ◌*◌, ◌≤◌, ℤ, pos, ◌≡◌, true, false, ◌||◌, List, [], ◌∷◌, leb, arith,
}
use rpc_base_on_zookeeper.Controller.{
  Controller, new_controller, reset, set_failed, set_timeout, set_start_time, is_timeout,
  check_timeout, start_cancel, notify_on_cancel,
}

pub data Call : Type 0 where
  resets cancels : Call
  fails : Bytes → Call
  limits : ℤ → Call
  starts checks : ℕ → Call

unfoldable pub apply : Call → Controller → Controller
apply resets c = reset c
apply cancels c = start_cancel c
apply (fails reason) c = set_failed reason c
apply (limits ms) c = set_timeout ms c
apply (starts now) c = set_start_time now c
apply (checks now) c = check_timeout now c

unfoldable pub run : List Call → Controller → Controller
run [] c = c
run (call ∷ calls) c = run calls (apply call c)

-- A canceled call has failed, and a call that has not failed has no error text.
pub record IsConsistent (c : Controller) : Type 0 where
  pub canceled : c.canceled ≡ true → c.failed ≡ true
  pub silent : c.failed ≡ false → c.err_text ≡ []

apply-IsConsistent : (call : Call) (c : Controller) → IsConsistent c → IsConsistent (apply call c)
unfolding apply reset set_failed set_timeout set_start_time check_timeout start_cancel
apply-IsConsistent resets c k = ground arith
apply-IsConsistent _ c k = ground arith

run-IsConsistent :
    (calls : List Call) (c : Controller) → IsConsistent c → IsConsistent (run calls c)
unfolding run
run-IsConsistent [] c k = k
run-IsConsistent (call ∷ calls) c k = run-IsConsistent calls _ (apply-IsConsistent call c k)

-- Whatever was called on a new controller, NotifyOnCancel runs its callback only if the call has
-- failed, and a call that has not failed has an empty error text.
pub notify_on_cancel-failed :
    (calls : List Call)
    → (notify_on_cancel true (run calls new_controller) ≡ true
        → (run calls new_controller).failed ≡ true)
      × ((run calls new_controller).failed ≡ false → (run calls new_controller).err_text ≡ [])
unfolding notify_on_cancel
notify_on_cancel-failed calls =
    let k : IsConsistent (run calls new_controller) =
      run-IsConsistent calls new_controller (ground arith) in
    (λ e. k.canceled (ground arith), k.silent)

abbrev pub Keeps : Call → Type 0
Keeps resets = ⊥
Keeps _ = Unit

abbrev pub NoReset : List Call → Type 0
NoReset [] = Unit
NoReset (call ∷ calls) = Keeps call × NoReset calls

apply-failed :
    (call : Call) (c : Controller) → Keeps call → c.failed ≡ true → (apply call c).failed ≡ true
unfolding apply set_failed set_timeout set_start_time check_timeout start_cancel
apply-failed resets c k e = absurd k
apply-failed _ c k e = ground arith

-- A failure stays until Reset: no later timeout check, cancellation or new limit takes it back.
pub failed-run :
    (calls : List Call) (c : Controller)
    → NoReset calls
    → c.failed ≡ true
    → (run calls c).failed ≡ true
unfolding run
failed-run [] c k e = e
failed-run (call ∷ calls) c k e = failed-run calls _ k.1 (apply-failed call c k.0 e)

-- With a limit of `t` milliseconds and a start at `s`, CheckTimeout at `now`, not before `s`, fails
-- the call exactly if it had failed before or `t` milliseconds have passed.
pub failed-check_timeout :
    (t s now : ℕ) (c : Controller)
    → s ≤ now
    → (check_timeout now (set_start_time s (set_timeout (pos t) c))).failed
      ≡ (c.failed || leb (t * 1000000) (now - s))
unfolding check_timeout is_timeout set_start_time set_timeout set_failed
failed-check_timeout t s now c h = ground arith
