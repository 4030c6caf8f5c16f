-- ===== src/Threads/Endings.antt =====
-- Programs that return after a bounded number of accesses, and schedules that let all of them return.
use rpc_base_on_zookeeper.Base.{
  ℕ, ◌⊎◌, inl, inr, zero, suc, ◌+◌, ◌*◌, ◌≤◌, ◌<◌, ◌==◌, if◌then◌else◌, ◌≡◌, refl, Option, none,
  some, List, [], ◌∷◌, arith,
}
use rpc_base_on_zookeeper.Threads.{
  Prog, returns, crash, act, ◌>>=◌, repeat, System, turn, run, Joined, start,
}

-- How often a number stands in a schedule.
abbrev pub turns : ℕ → List ℕ → ℕ
turns j [] = 0
turns j (i ∷ is) = (if i == j then 1 else 0) + turns j is

-- `C` is what a crash takes.
module _ {S : Type 0} (C : Type 0) where
  -- The program returns or crashes after at most so many accesses, whatever it reads; if it crashes, `C`
  -- holds.
  abbrev pub Within : {A : Type 0} → ℕ → Prog S A → Type 0
  Within n (returns a) = Unit
  Within n crash = C
  Within zero (act f g) = ⊥
  Within (suc n) (act f g) = (s : S) → Within n (g s)

  pub Within-le : {A : Type 0} (n m : ℕ) (p : Prog S A) → n ≤ m → Within n p → Within m p
  Within-le n m (returns a) l h = tt
  Within-le n m crash l h = h
  Within-le zero m (act f g) l h = elim h [ ]
  Within-le (suc n) zero (act f g) l h = absurd (omega arith)
  Within-le (suc n) (suc m) (act f g) l h = λ s. Within-le n m (g s) (omega arith) (h s)

  pub Within-bind :
      {A B : Type 0} (n m : ℕ) (p : Prog S A) (k : A → Prog S B)
      → Within n p
      → ((a : A) → Within m (k a))
      → Within (n + m) (p >>= k)
  Within-bind n m (returns a) k h hk = Within-le m (n + m) (k a) (omega arith) (hk a)
  Within-bind n m crash k h hk = h
  Within-bind zero m (act f g) k h hk = elim h [ ]
  Within-bind (suc n) m (act f g) k h hk =
      Within-le (suc (n + m)) (suc n + m) (act f (λ s. g s >>= k)) (omega arith)
        (λ s. Within-bind n m (g s) k (h s) hk)

  pub Within-repeat :
      (b n j : ℕ) (body : ℕ → Prog S Unit)
      → ((i : ℕ) → Within b (body i))
      → Within (n * b) (repeat n j body)
  unfolding repeat
  Within-repeat b zero j body h = tt
  Within-repeat b (suc n) j body h =
      Within-le (b + n * b) (suc n * b) (repeat (suc n) j body) (grind arith) (
        Within-bind b (n * b) (body j) (λ _. repeat n (suc j) body) (h j)
          (λ _. Within-repeat b n (suc j) body h))

  -- The same with the turn in which it crashes.
  abbrev pub Needs : ℕ → Prog S Unit → Type 0
  Needs n (returns a) = Unit
  Needs zero crash = ⊥
  Needs (suc n) crash = C
  Needs zero (act f g) = ⊥
  Needs (suc n) (act f g) = (s : S) → Needs n (g s)

  pub Within-Needs : (n : ℕ) (p : Prog S Unit) → Within n p → Needs (suc n) p
  Within-Needs n (returns a) h = tt
  Within-Needs n crash h = h
  Within-Needs zero (act f g) h = elim h [ ]
  Within-Needs (suc n) (act f g) h = λ s. Within-Needs n (g s) (h s)

  pub safe-Needs : (n : ℕ) (p : Prog S Unit) → ¬ C → Within n p → Needs n p
  safe-Needs n (returns a) safe h = tt
  safe-Needs n crash safe h = absurd (safe h)
  safe-Needs zero (act f g) safe h = elim h [ ]
  safe-Needs (suc n) (act f g) safe h = λ s. safe-Needs n (g s) safe (h s)

  Needs-le : (n m : ℕ) (p : Prog S Unit) → n ≤ m → Needs n p → Needs m p
  Needs-le n m (returns a) l h = tt
  Needs-le zero m crash l h = elim h [ ]
  Needs-le (suc n) zero crash l h = absurd (omega arith)
  Needs-le (suc n) (suc m) crash l h = h
  Needs-le zero m (act f g) l h = elim h [ ]
  Needs-le (suc n) zero (act f g) l h = absurd (omega arith)
  Needs-le (suc n) (suc m) (act f g) l h = λ s. Needs-le n m (g s) (omega arith) (h s)

  -- From thread number `i` on, each has at least as many turns before it as it needs.
  abbrev Enough : List ℕ → ℕ → List (Prog S Unit) → Type 0
  Enough is i [] = Unit
  Enough is i (t ∷ ts) = Needs (turns i is) t × Enough is (suc i) ts

  Enough-cons :
      (j : ℕ) (is : List ℕ) (i : ℕ) (ts : List (Prog S Unit))
      → Enough is i ts
      → Enough (j ∷ is) i ts
  Enough-cons j is i [] h = tt
  Enough-cons j is i (t ∷ ts) h = (
    Needs-le (turns i is) (turns i (j ∷ is)) t (omega arith) h.0,
    Enough-cons j is (suc i) ts h.1,
  )

  -- The run ends with all threads joined, or with the process.
  Joins : Option (System S) → Type 0
  Joins none = C
  Joins (some e) = Joined e.1

  Goes : List ℕ → ℕ → Option (System S) → Type 0
  Goes is i none = C
  Goes is i (some e) = Enough is i e.1

  Enough-other :
      (m : ℕ) (is : List ℕ) (i : ℕ) (ts : List (Prog S Unit))
      → m < i
      → Enough (m ∷ is) i ts
      → Enough is i ts
  Enough-other m is i [] l h = tt
  Enough-other m is i (t ∷ ts) l h =
      let same : turns i (m ∷ is) ≡ turns i is = ground arith in
      ((rw same at h.0), Enough-other m is (suc i) ts (omega arith) h.1)

  turn-Goes :
      (m j i : ℕ) (is : List ℕ) (s : S) (ts : List (Prog S Unit))
      → m ≡ i + j
      → Enough (m ∷ is) i ts
      → Goes is i (turn j s ts)
  unfolding turn Goes
  turn-Goes m j i is s [] e h = tt
  turn-Goes m zero i is s (returns a ∷ ts) e h =
      (tt, Enough-other m is (suc i) ts (omega arith) h.1)
  turn-Goes m zero i is s (crash ∷ ts) e h =
      let one : turns i (m ∷ is) ≡ suc (turns i is) = ground arith in rw one at h.0
  turn-Goes m zero i is s (act f g ∷ ts) e h =
      let one : turns i (m ∷ is) ≡ suc (turns i is) = ground arith in
      let head : Needs (suc (turns i is)) (act f g) = rw one at h.0 in
      (head s, Enough-other m is (suc i) ts (omega arith) h.1)
  turn-Goes m (suc j) i is s (t ∷ ts) e h =
      let same : turns i (m ∷ is) ≡ turns i is = ground arith in
      let head : Needs (turns i is) t = rw same at h.0 in
      elim (turn j s ts)
          as (λ o.
            Goes is (suc i) o
            → Goes is i (elim o [ none ↦ none | some (s', ts') ↦ some (s', t ∷ ts') ])) [
              | none ↦ λ f. f
              | some (s', ts') ↦ λ r. (head, r)
            ]
        (turn-Goes m j (suc i) is s ts (omega arith) h.1)

  Enough-Joined : (i : ℕ) (ts : List (Prog S Unit)) → Enough [] i ts → Joined ts
  Enough-Joined i [] h = tt
  Enough-Joined i (returns a ∷ ts) h = Enough-Joined (suc i) ts h.1
  Enough-Joined i (crash ∷ ts) h = h.0
  Enough-Joined i (act f g ∷ ts) h = h.0

  run-Joins : (is : List ℕ) (s : S) (ts : List (Prog S Unit)) → Enough is 0 ts → Joins (run is s ts)
  unfolding run Goes Joins
  run-Joins [] s ts h = Enough-Joined 0 ts h
  run-Joins (i ∷ is) s ts h =
      elim (turn i s ts)
          as (λ o. Goes is 0 o → Joins (elim o [ none ↦ none | some (s', ts') ↦ run is s' ts' ])) [
            | none ↦ λ f. f
            | some (s', ts') ↦ λ r. run-Joins is s' ts' r
          ]
        (turn-Goes i i 0 is s ts (omega arith) h)

  Joins-some :
      (o : Option (System S))
      → Joins o
      → ((s' : S) × (ts' : List (Prog S Unit)) × (o ≡ some (s', ts')) × Joined ts')
        ⊎ ((o ≡ none) × C)
  unfolding Joins
  Joins-some none h = inr (refl, h)
  Joins-some (some (s', ts')) h = inl (s', ts', refl, h)

  -- Each of `n` threads needs at most `b` turns: a schedule that gives each of them `b` turns, in
  -- whatever order, ends with all of them joined or with the process.
  pub run-joins :
      (b n : ℕ) (body : ℕ → Prog S Unit) (is : List ℕ) (s : S)
      → ((i : ℕ) → Needs b (body i))
      → ((i : ℕ) → i < n → b ≤ turns i is)
      → ((s' : S) × (ts' : List (Prog S Unit)) × (run is s (start n 0 body) ≡ some (s', ts'))
          × Joined ts')
        ⊎ ((run is s (start n 0 body) ≡ none) × C)
  unfolding start
  run-joins b n body is s h fair =
      Joins-some _ (run-Joins is s (start n 0 body) (started n 0 (λ i l. fair i (omega arith))))
    where
      started : (k i : ℕ) → ((j : ℕ) → j < i + k → b ≤ turns j is) → Enough is i (start k i body)
      started zero i f = tt
      started (suc k) i f = (
        Needs-le b (turns i is) (body i) (f i (omega arith)) (h i),
        started k (suc i) (λ j l. f j (omega arith)),
      )
