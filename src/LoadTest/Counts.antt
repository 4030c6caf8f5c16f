-- ===== src/LoadTest/Counts.antt =====
-- How much a piece of a request of example/caller/Zclient.cc adds to the two counters together.
use rpc_base_on_zookeeper.Base.{
  ℕ, ◌+◌, ◌^◌, ◌≤◌, pos, eqbℤ, refl, Bool, true, false, Option, none, some, if◌then◌else◌, arith,
}
use rpc_base_on_zookeeper.Threads.{Prog}
use rpc_base_on_zookeeper.Threads.Counting.{Adds, Adds-le, Adds-bind}
use rpc_base_on_zookeeper.Messages.{ResultCode}
use rpc_base_on_zookeeper.LoadTest.{
  Load, change, with_channel, succeed, fail, call, call_set, call_null, came_back, delivered,
  count_result,
}

module _ {W : Type 0} where
  abbrev pub total : Load W → ℕ
  total s = s.success_count + s.fail_count

  -- An `int` holds it.
  abbrev pub Counts : {A : Type 0} → ℕ → ℕ → Prog (Load W) A → Type 0
  Counts lo hi p = Adds total (2 ^ 31) lo hi p

module _ (W : Type 0) where
  pub succeed-Counts : (n : ℕ) → Counts {W = W} n n (succeed n)
  unfolding succeed
  succeed-Counts n = λ s room. (n, omega arith, omega arith, omega arith)

  pub fail-Counts : Counts {W = W} 1 1 fail
  unfolding fail
  fail-Counts = λ s room. (1, omega arith, omega arith, omega arith)

  came_back-Counts : {A : Type 0} (b : Bool) (a : A) → Counts 0 0 (came_back {W = W} b a)
  unfolding came_back
  came_back-Counts true a = tt
  came_back-Counts false a = refl

  pub call-Counts :
      {A : Type 0} (ended : W → Bool) (f : W → W × Bool × A) → Counts 0 0 (call ended f)
  unfolding call
  call-Counts ended f =
      λ s room. (0, omega arith, omega arith, came_back-Counts (ended (f s.world).0) _)

  pub call_set-Counts : (ended : W → Bool) (f : W → W × Bool) → Counts 0 0 (call_set ended f)
  unfolding call_set
  call_set-Counts ended f =
      λ s room. (0, omega arith, omega arith, came_back-Counts (ended (f s.world).0) _)

  delivered-Counts : {A : Type 0} (o : Option A) → Counts 0 0 (delivered {W = W} o)
  unfolding delivered
  delivered-Counts none = tt
  delivered-Counts (some a) = refl

  pub call_null-Counts : {A : Type 0} (f : W → W × Option A) → Counts 0 0 (call_null f)
  unfolding call_null
  call_null-Counts f = λ s room. (0, omega arith, omega arith, delivered-Counts (f s.world).1)

  change-Counts : (f : W → W) → Counts 0 0 (change f)
  unfolding change
  change-Counts f = λ s room. (0, omega arith, omega arith, omega arith)

  pub with_channel-Counts :
      (lo hi : ℕ) (opens deletes : W → W) (p : Prog (Load W) Unit)
      → Counts lo hi p
      → Counts lo hi (with_channel opens deletes p)
  unfolding with_channel
  with_channel-Counts lo hi opens deletes p h =
      Adds-le total (2 ^ 31) (0 + (lo + 0)) lo (0 + (hi + 0)) hi _ (omega arith) (omega arith) (
        Adds-bind total (2 ^ 31) 0 0 (lo + 0) (hi + 0) _ _ (change-Counts opens)
          λ _. Adds-bind total (2 ^ 31) lo hi 0 0 p _ h (λ _. change-Counts deletes))

  pub if-Counts :
      (lo hi : ℕ) (b : Bool) (p q : Prog (Load W) Unit)
      → Counts lo hi p
      → Counts lo hi q
      → Counts lo hi (if b then p else q)
  if-Counts lo hi true p q hp hq = hp
  if-Counts lo hi false p q hp hq = hq

  pub one-Counts : (b : Bool) → Counts 1 1 (if b then succeed {W = W} 1 else fail)
  one-Counts b = if-Counts 1 1 b (succeed 1) fail (succeed-Counts 1) fail-Counts

  pub failed-Counts : (b : Bool) → Counts 1 1 (if b then fail {W = W} else succeed 1)
  failed-Counts b = if-Counts 1 1 b fail (succeed 1) fail-Counts (succeed-Counts 1)

  pub count_result-Counts :
      (failed : Bool) (result : ResultCode) → Counts 1 1 (count_result {W = W} failed result)
  unfolding count_result
  count_result-Counts failed result =
      if-Counts 1 1 failed fail _ fail-Counts (one-Counts (eqbℤ result.errcode (pos 0)))

  pub if-Counts_le :
      (lo lo' hi hi' : ℕ) (b : Bool) (p q : Prog (Load W) Unit)
      → lo' ≤ lo
      → hi' ≤ hi
      → Counts lo hi p
      → Counts lo' hi' q
      → Counts lo' hi (if b then p else q)
  if-Counts_le lo lo' hi hi' b p q l h hp hq =
      if-Counts lo' hi b p q (Adds-le total (2 ^ 31) lo lo' hi hi p l (omega arith) hp)
        (Adds-le total (2 ^ 31) lo' lo' hi' hi q (omega arith) h hq)
