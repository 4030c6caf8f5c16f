-- ===== src/Logger/Runs.antt =====
-- A run of the concurrent logging test.
use rpc_base_on_zookeeper.Base.{ℕ, ◌+◌, ◌*◌, ◌≤◌, ◌<◌, ◌≡◌, some, List, [], ◌∷◌, arith}
use rpc_base_on_zookeeper.Threads.{Prog, Joined}
use rpc_base_on_zookeeper.Threads.Endings.{turns}
use rpc_base_on_zookeeper.Threads.RoundRobin.{round_robin, turns-round_robin}
use rpc_base_on_zookeeper.Logger.{info, warning, fatal, before_main}
use rpc_base_on_zookeeper.Logger.Once.{
  Call, inits, writes, process, names, logged, shutdowns, process-once,
}
use rpc_base_on_zookeeper.Logger.Concurrent.{
  Test, num_threads, logs_per_thread, concurrent_log_test, count_of, share,
  concurrent_log_test-joins, concurrent_log_test-counts,
}

often : (i : ℕ) → i < num_threads → logs_per_thread + 1 ≤ turns i (round_robin 1001)
often i l = omega (arith, turns-round_robin i 1001 l)

abbrev joined :
    (s : Test) × (ts : List (Prog Test Unit)) × (concurrent_log_test (round_robin 1001)
      ≡ some (s, ts))
    × Joined ts
joined = concurrent_log_test-joins (round_robin 1001) (λ i l. often i l)

concurrent_log_test-counts_example :
    (count_of warning (logged joined.0.logger.events) ≡ num_threads * share warning)
    × (joined.0.completed_threads ≡ num_threads)
concurrent_log_test-counts_example =
    concurrent_log_test-counts (round_robin 1001) joined.0 joined.1 warning joined.2 joined.3

-- A second Init, and a call behind a Fatal.
abbrev calls_made : List Call
calls_made =
    writes info (b'a' ∷ [])
    ∷ inits (b'n' ∷ [])
    ∷ inits (b'm' ∷ [])
    ∷ writes fatal (b'b' ∷ [])
    ∷ writes info (b'c' ∷ [])
    ∷ []

process-once_example :
    let es = (process calls_made before_main).events in
    (names es ≡ (b'n' ∷ []) ∷ [])
    × (logged es ≡ (info, b'a' ∷ []) ∷ (fatal, b'b' ∷ []) ∷ [])
    × (shutdowns es ≡ 0)
process-once_example = process-once calls_made
