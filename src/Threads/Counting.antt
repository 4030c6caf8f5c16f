-- ===== src/Threads/Counting.antt =====
-- How far programs, and threads that run together, move a counter of the state.
use rpc_base_on_zookeeper.Base.{
  ℕ, zero, suc, ◌+◌, ◌-◌, ◌*◌, ◌≤◌, ◌<◌, ◌≡◌, refl, Option, none, some, List, [], ◌∷◌, arith,
}
use rpc_base_on_zookeeper.Threads.{
  Prog, returns, crash, act, ◌>>=◌, repeat, System, turn, run, Joined, start,
}

-- `w j + w (j + 1) + …`, so many of them.
unfoldable pub sum_from : (ℕ → ℕ) → ℕ → ℕ → ℕ
sum_from w zero j = 0
sum_from w (suc n) j = w j + sum_from w n (suc j)

module _ {S : Type 0} (total : S → ℕ) (limit : ℕ) where
  -- The program moves the counter up, by `lo` at least where it returns and by `hi` at most, as long
  -- as there is room for that below the limit.
  abbrev pub Adds : {A : Type 0} → ℕ → ℕ → Prog S A → Type 0
  Adds lo hi (returns a) = lo ≡ 0
  Adds lo hi crash = Unit
  Adds lo hi (act f g) =
      (s : S)
      → total s + hi < limit
      → (k : ℕ) × (k ≤ hi) × (total (f s) ≡ total s + k) × Adds (lo - k) (hi - k) (g s)

  pub Adds-le :
      {A : Type 0} (lo lo' hi hi' : ℕ) (p : Prog S A)
      → lo' ≤ lo
      → hi ≤ hi'
      → Adds lo hi p
      → Adds lo' hi' p
  Adds-le lo lo' hi hi' (returns a) l h e = omega arith
  Adds-le lo lo' hi hi' crash l h e = tt
  Adds-le lo lo' hi hi' (act f g) l h e = λ s room.
      let (k, fits, moved, rest) = e s (omega arith) in
      (
        k,
        omega arith,
        moved,
        Adds-le (lo - k) (lo' - k) (hi - k) (hi' - k) (g s) (omega arith) (omega arith) rest,
      )

  pub Adds-bind :
      {A B : Type 0} (lo hi lo' hi' : ℕ) (p : Prog S A) (k : A → Prog S B)
      → Adds lo hi p
      → ((a : A) → Adds lo' hi' (k a))
      → Adds (lo + lo') (hi + hi') (p >>= k)
  Adds-bind lo hi lo' hi' (returns a) k h hk =
      Adds-le lo' (lo + lo') hi' (hi + hi') (k a) (omega arith) (omega arith) (hk a)
  Adds-bind lo hi lo' hi' crash k h hk = tt
  Adds-bind lo hi lo' hi' (act f g) k h hk = λ s room.
      let (n, fits, moved, rest) = h s (omega arith) in
      (
        n,
        omega arith,
        moved,
        Adds-le (lo - n + lo') (lo + lo' - n) (hi - n + hi') (hi + hi' - n) (g s >>= k)
            (omega arith) (omega arith) (Adds-bind (lo - n) (hi - n) lo' hi' (g s) k rest hk),
      )

  pub Adds-repeat :
      (lo hi n j : ℕ) (body : ℕ → Prog S Unit)
      → ((i : ℕ) → Adds lo hi (body i))
      → Adds (n * lo) (n * hi) (repeat n j body)
  unfolding repeat
  Adds-repeat lo hi zero j body h = omega arith
  Adds-repeat lo hi (suc n) j body h =
      let more : Adds (lo + n * lo) (hi + n * hi) (repeat (suc n) j body) =
        Adds-bind lo hi (n * lo) (n * hi) (body j) (λ _. repeat n (suc j) body) (h j)
          (λ _. Adds-repeat lo hi n (suc j) body h) in
      Adds-le (lo + n * lo) (suc n * lo) (hi + n * hi) (suc n * hi) (repeat (suc n) j body)
        (grind arith) (grind arith) more

  pub Adds-repeat_sum :
      (w : ℕ → ℕ) (n j : ℕ) (body : ℕ → Prog S Unit)
      → ((i : ℕ) → Adds (w i) (w i) (body i))
      → Adds (sum_from w n j) (sum_from w n j) (repeat n j body)
  unfolding repeat sum_from
  Adds-repeat_sum w zero j body h = refl
  Adds-repeat_sum w (suc n) j body h =
      Adds-bind (w j) (w j) (sum_from w n (suc j)) (sum_from w n (suc j)) (body j) _ (h j)
        (λ _. Adds-repeat_sum w n (suc j) body h)

  -- The threads together; `lo` and `hi` are the sums over the threads.
  abbrev pub AllAdd : ℕ → ℕ → List (Prog S Unit) → Type 0
  AllAdd lo hi [] = lo ≡ 0
  AllAdd lo hi (t ∷ ts) = (a b c d : ℕ) × (lo ≤ a + c) × (b + d ≤ hi) × Adds a b t × AllAdd c d ts

  -- After some accesses that have moved the counter up by `k`.
  abbrev Moved : ℕ → ℕ → S → System S → Type 0
  Moved lo hi s (s', ts) =
      (k : ℕ) × (k ≤ hi) × (total s' ≡ total s + k) × AllAdd (lo - k) (hi - k) ts

  Moved-after :
      (lo hi : ℕ) (s : S) (t : Prog S Unit) (a b c d : ℕ)
      → lo ≤ a + c
      → b + d ≤ hi
      → Adds a b t
      → (e : System S) → Moved c d s e
      → Moved lo hi s (e.0, t ∷ e.1)
  Moved-after lo hi s t a b c d l h head (s', ts) (k, fits, moved, rest) =
      (k, omega arith, moved, (a, b, c - k, d - k, omega arith, omega arith, head, rest))

  sub_zero : (n : ℕ) → n - 0 ≡ n
  sub_zero n = omega arith

  Unmoved : (lo hi : ℕ) (s : S) (ts : List (Prog S Unit)) → AllAdd lo hi ts → Moved lo hi s (s, ts)
  Unmoved lo hi s ts h = (0, omega arith, omega arith, rw (sub_zero lo, sub_zero hi) h)

  OnSome : (System S → Type 0) → Option (System S) → Type 0
  OnSome P none = Unit
  OnSome P (some e) = P e

  turn-Moved :
      (lo hi i : ℕ) (s : S) (ts : List (Prog S Unit))
      → total s + hi < limit
      → AllAdd lo hi ts
      → OnSome (Moved lo hi s) (turn i s ts)
  unfolding turn OnSome
  turn-Moved lo hi i s [] room h = Unmoved lo hi s [] h
  turn-Moved lo hi zero s (returns u ∷ ts) room h = Unmoved lo hi s (returns u ∷ ts) h
  turn-Moved lo hi zero s (crash ∷ ts) room h = tt
  turn-Moved lo hi zero s (act f g ∷ ts) room (a, b, c, d, l, h, head, rest) =
      let (k, fits, moved, head') = head s (omega arith) in
      (k, omega arith, moved, (a - k, b - k, c, d, omega arith, omega arith, head', rest))
  turn-Moved lo hi (suc i) s (t ∷ ts) room (a, b, c, d, l, h, head, rest) =
      let later = turn-Moved c d i s ts (omega arith) rest in
      elim (turn i s ts)
          as (λ o.
            OnSome (Moved c d s) o
            → OnSome (Moved lo hi s)
                (elim o [ none ↦ none | some (s', ts') ↦ some (s', t ∷ ts') ])) [
                  | none ↦ λ _. tt
                  | some e ↦ λ m. Moved-after lo hi s t a b c d l h head e m
                ]
        later

  sub-add : (n k m : ℕ) → n - k - m ≡ n - (k + m)
  sub-add n k m = omega arith

  Moved-later :
      (lo hi k : ℕ) (s s' : S)
      → k ≤ hi
      → total s' ≡ total s + k
      → (o : Option (System S)) → OnSome (Moved (lo - k) (hi - k) s') o
      → OnSome (Moved lo hi s) o
  unfolding OnSome
  Moved-later lo hi k s s' fits moved none h = tt
  Moved-later lo hi k s s' fits moved (some (s'', ts)) (m, fits', moved', rest) =
      (k + m, omega arith, omega arith, rw (← sub-add lo k m, ← sub-add hi k m) rest)

  run-Moved :
      (lo hi : ℕ) (is : List ℕ) (s : S) (ts : List (Prog S Unit))
      → total s + hi < limit
      → AllAdd lo hi ts
      → OnSome (Moved lo hi s) (run is s ts)
  unfolding run OnSome
  run-Moved lo hi [] s ts room h = Unmoved lo hi s ts h
  run-Moved lo hi (i ∷ is) s ts room h =
      elim (turn i s ts)
          as (λ o.
            OnSome (Moved lo hi s) o
            → OnSome (Moved lo hi s) (elim o [ none ↦ none | some (s', ts') ↦ run is s' ts' ])) [
              | none ↦ λ _. tt
              | some (s', ts') ↦ λ m.
                  Moved-later lo hi m.0 s s' m.1 m.2 (run is s' ts')
                    (run-Moved (lo - m.0) (hi - m.0) is s' ts' (omega (arith, m.1, m.2)) m.3)
            ]
        (turn-Moved lo hi i s ts room h)

  Joined-AllAdd : (lo hi : ℕ) (ts : List (Prog S Unit)) → Joined ts → AllAdd lo hi ts → lo ≡ 0
  Joined-AllAdd lo hi [] j h = h
  Joined-AllAdd lo hi (returns u ∷ ts) j (a, b, c, d, l, h, head, rest) =
      omega (arith, Joined-AllAdd c d ts j rest)
  Joined-AllAdd lo hi (crash ∷ ts) j h = elim j [ ]
  Joined-AllAdd lo hi (act f g ∷ ts) j h = elim j [ ]

  -- Threads that add at least `lo` and at most `hi` together have done so, in whatever order they
  -- came to their accesses, when all have returned.
  pub run-total :
      (lo hi : ℕ) (is : List ℕ) (s s' : S) (ts ts' : List (Prog S Unit))
      → AllAdd lo hi ts
      → total s + hi < limit
      → run is s ts ≡ some (s', ts')
      → Joined ts'
      → (total s + lo ≤ total s') × (total s' ≤ total s + hi)
  unfolding OnSome
  run-total lo hi is s s' ts ts' h room e j =
      let m : OnSome (Moved lo hi s) (some (s', ts')) = rw e at (run-Moved lo hi is s ts room h) in
      let (k, fits, moved, rest) = m in
      let none_left = Joined-AllAdd (lo - k) (hi - k) ts' j rest in (omega arith, omega arith)

  pub start-AllAdd :
      (lo hi n i : ℕ) (body : ℕ → Prog S Unit)
      → ((j : ℕ) → Adds lo hi (body j))
      → AllAdd (n * lo) (n * hi) (start n i body)
  unfolding start
  start-AllAdd lo hi zero i body h = omega arith
  start-AllAdd lo hi (suc n) i body h =
      (lo, hi, n * lo, n * hi, grind arith, grind arith, h i, start-AllAdd lo hi n (suc i) body h)
