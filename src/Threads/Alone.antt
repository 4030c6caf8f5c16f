-- ===== src/Threads/Alone.antt =====
-- A thread whose accesses no other thread comes between.
use rpc_base_on_zookeeper.Base.{ℕ, zero, suc, ◌≡◌, ◌∙◌, ap, refl, Option, none, some, List, [], ◌∷◌}
use rpc_base_on_zookeeper.Threads.{Prog, returns, crash, act, turn, run}
use rpc_base_on_zookeeper.Threads.Endings.{Within}

-- So many turns of the first thread.
abbrev pub first_turns : ℕ → List ℕ
first_turns zero = []
first_turns (suc n) = 0 ∷ first_turns n

module _ {S : Type 0} where
  abbrev pub alone : {A : Type 0} → Prog S A → S → Option (S × A)
  alone (returns a) s = some (s, a)
  alone crash s = none
  alone (act f g) s = alone (g s) (f s)

  run-returned :
      (n : ℕ) (s : S) (a : Unit {0}) (ts : List (Prog S Unit))
      → run (first_turns n) s (returns a ∷ ts) ≡ some (s, returns a ∷ ts)
  unfolding run turn
  run-returned zero s a ts = refl
  run-returned (suc n) s a ts = run-returned n s a ts

  -- A schedule that gives the first thread enough turns takes it from start to end.
  pub run-alone :
      (C : Type 0) (n : ℕ) (p : Prog S Unit) (s s' : S) (a : Unit {0}) (ts : List (Prog S Unit))
      → Within C n p
      → alone p s ≡ some (s', a)
      → run (first_turns n) s (p ∷ ts) ≡ some (s', returns a ∷ ts)
  unfolding run turn
  run-alone C n (returns b) s s' a ts h e =
      run-returned n s b ts
      ∙ ap (λ o. elim o [ none ↦ none | some (t, b') ↦ some (t, returns b' ∷ ts) ]) e
  run-alone C n crash s s' a ts h e = cc e
  run-alone C zero (act f g) s s' a ts h e = elim h [ ]
  run-alone C (suc n) (act f g) s s' a ts h e = run-alone C n (g s) (f s) s' a ts (h s) e
