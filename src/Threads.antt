-- ===== src/Threads.antt =====
-- Threads over one shared state, as the load client of example/caller/Zclient.cc and the logging test
-- test_concurrent_log.cpp start them. A program is a tree of atomic accesses to the state; a
-- schedule is the list of the threads' numbers in the order in which they come to their accesses.
pub mod Counting
pub mod Endings
pub mod RoundRobin
pub mod Alone
use rpc_base_on_zookeeper.Base.{ℕ, zero, suc, Option, none, some, List, [], ◌∷◌}

-- `act f g`: an access that leaves the state `f s` and goes on as `g s`, which may read the state
-- before it. A crash takes the process with it.
pub data Prog (S A : Type 0) : Type 0 where
  returns : A → Prog S A
  crash : Prog S A
  act : (S → S) → (S → Prog S A) → Prog S A

-- The state and the threads.
abbrev pub System : Type 0 → Type 0
System S = S × List (Prog S Unit)

module _ {S : Type 0} where
  infixl 5 ◌>>=◌ ◌>>◌
  abbrev pub ◌>>=◌ : {A B : Type 0} → Prog S A → (A → Prog S B) → Prog S B
  returns a >>= k = k a
  crash >>= k = crash
  act f g >>= k = act f (λ s. g s >>= k)

  abbrev pub ◌>>◌ : {A B : Type 0} → Prog S A → Prog S B → Prog S B
  p >> q = p >>= λ _. q

  -- `for (int j = 0; j < n; j++)` over a body that is given its `j`.
  unfoldable pub repeat : ℕ → ℕ → (ℕ → Prog S Unit) → Prog S Unit
  repeat zero j body = returns tt
  repeat (suc n) j body = body j >> repeat n (suc j) body

  -- Thread `i` makes its next access; a thread that has returned, and a number of no thread, does
  -- nothing. `none` is the end of the process.
  unfoldable pub turn : ℕ → S → List (Prog S Unit) → Option (System S)
  turn i s [] = some (s, [])
  turn zero s (returns a ∷ ts) = some (s, returns a ∷ ts)
  turn zero s (crash ∷ ts) = none
  turn zero s (act f g ∷ ts) = some (f s, g s ∷ ts)
  turn (suc i) s (t ∷ ts) = elim (turn i s ts) [ none ↦ none | some (s', ts') ↦ some (s', t ∷ ts') ]

  unfoldable pub run : List ℕ → S → List (Prog S Unit) → Option (System S)
  run [] s ts = some (s, ts)
  run (i ∷ is) s ts = elim (turn i s ts) [ none ↦ none | some (s', ts') ↦ run is s' ts' ]

  -- Every thread has returned, so `join` returns for each.
  abbrev pub Joined : List (Prog S Unit) → Type 0
  Joined [] = Unit
  Joined (returns a ∷ ts) = Joined ts
  Joined (_ ∷ ts) = ⊥

  -- The threads that a loop over `i` starts.
  unfoldable pub start : ℕ → ℕ → (ℕ → Prog S Unit) → List (Prog S Unit)
  start zero i body = []
  start (suc n) i body = body i ∷ start n (suc i) body
