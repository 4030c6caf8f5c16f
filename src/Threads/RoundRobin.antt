-- ===== src/Threads/RoundRobin.antt =====
-- A schedule that takes ten threads in turn, as both tests of the repository start ten.
use rpc_base_on_zookeeper.Base.{ℕ, zero, suc, ◌<◌, ◌≡◌, List, [], ◌∷◌, arith}
use rpc_base_on_zookeeper.Threads.Endings.{turns}

abbrev pub round_robin : ℕ → List ℕ
round_robin zero = []
round_robin (suc n) = 0 ∷ 1 ∷ 2 ∷ 3 ∷ 4 ∷ 5 ∷ 6 ∷ 7 ∷ 8 ∷ 9 ∷ round_robin n

pub turns-round_robin : (i n : ℕ) → i < 10 → turns i (round_robin n) ≡ n
turns-round_robin i zero h = omega arith
turns-round_robin i (suc n) h = ground (arith, turns-round_robin i n h)
