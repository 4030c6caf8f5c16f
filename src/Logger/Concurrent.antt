-- ===== src/Logger/Concurrent.antt =====
-- test_concurrent_log.cpp: ten threads that log a thousand messages each, with the logger of
-- src/include/ZrpcLogger.h in the place of the one that the file names. The time that it takes is
-- left out.
use rpc_base_on_zookeeper.Base.{
  Bytes, inl, inr, text, ℕ, ◌+◌, ◌*◌, ◌%◌, ◌^◌, ◌<◌, ◌≤◌, ◌≡◌, ◌∙◌, refl, pos, Option, some, List,
  [], ◌∷◌, ◌++◌, ◌==◌, if◌then◌else◌, arith,
}
use rpc_base_on_zookeeper.Decimal.{to_string}
use rpc_base_on_zookeeper.Threads.{Prog, returns, act, ◌>>◌, repeat, System, run, Joined, start}
use rpc_base_on_zookeeper.Threads.Counting.{
  sum_from, Adds, Adds-bind, Adds-repeat, Adds-repeat_sum, start-AllAdd, run-total,
}
use rpc_base_on_zookeeper.Threads.Endings.{
  turns, Within, Within-bind, Within-repeat, safe-Needs, run-joins,
}
use rpc_base_on_zookeeper.Logger.{
  Severity, info, warning, error, fatal, Logger, before_main, get_instance, init, write,
}
use rpc_base_on_zookeeper.Logger.Once.{logged, write-events}

pub record Test : Type 0 where
  pub logger : Logger
  pub completed_threads : ℕ

abbrev pub num_threads : ℕ
num_threads = 10

abbrev pub logs_per_thread : ℕ
logs_per_thread = 1000

-- The `switch` on `j % 4`.
unfoldable pub severity_of : ℕ → Severity
severity_of j =
    let r = j % 4 in
    if r == 0 then info else if r == 1 then warning else if r == 2 then error else info

unfoldable pub level_text : Severity → Bytes
level_text info = text " Info log "
level_text warning = text " Warning log "
level_text _ = text " Error log "

unfoldable pub log_once : ℕ → ℕ → Prog Test Unit
log_once i j =
    let severity = severity_of j in
    let message =
      text "Thread " ++ (to_string (pos i) ++ (level_text severity ++ to_string (pos j))) in
    act (λ s. record s { logger = write severity message s.logger }) (λ s. returns tt)

unfoldable pub complete : Prog Test Unit
complete =
    act (λ s. record s { completed_threads = (s.completed_threads + 1) % 2 ^ 32 }) (λ s. returns tt)

unfoldable pub log_thread : ℕ → Prog Test Unit
log_thread i = do repeat logs_per_thread 0 (log_once i); complete

abbrev initialized_test : Test
initialized_test = record {
  logger = init (text "ConcurrentLogTest") (get_instance before_main);
  completed_threads = 0;
}

-- `main` and `concurrent_log_test`, under a schedule.
unfoldable pub concurrent_log_test : List ℕ → Option (System Test)
concurrent_log_test is = run is initialized_test (start num_threads 0 log_thread)

abbrev level : Severity → ℕ
level info = 0
level warning = 1
level error = 2
level fatal = 3

-- How many messages of a severity have been logged.
abbrev pub count_of : Severity → List (Severity × Bytes) → ℕ
count_of severity [] = 0
count_of severity ((other, message) ∷ ms) =
    (if level severity == level other then 1 else 0) + count_of severity ms

abbrev lines : Severity → Test → ℕ
lines severity s = count_of severity (logged s.logger.events)

abbrev weight : Severity → ℕ → ℕ
weight severity j = if level severity == level (severity_of j) then 1 else 0

count_of-append :
    (severity : Severity) (xs ys : List (Severity × Bytes))
    → count_of severity (xs ++ ys) ≡ count_of severity xs + count_of severity ys
count_of-append severity [] ys = omega arith
count_of-append severity ((other, message) ∷ xs) ys = omega (arith, count_of-append severity xs ys)

log_once-Adds :
    (severity : Severity) (i j : ℕ)
    → Adds (lines severity) (2 ^ 32) (weight severity j) (weight severity j) (log_once i j)
unfolding log_once
log_once-Adds severity i j = λ s room.
    let message =
      text "Thread " ++ (to_string (pos i) ++ (level_text (severity_of j) ++ to_string (pos j))) in
    let (_, one_more, _, _) = write-events (severity_of j) message s.logger in
    (
      weight severity j,
      omega arith,
      rw one_more (
          count_of-append severity (logged s.logger.events) ((severity_of j, message) ∷ [])
          ∙ omega arith),
      omega arith,
    )

complete-Adds : (severity : Severity) → Adds (lines severity) (2 ^ 32) 0 0 complete
unfolding complete
complete-Adds severity = λ s room. (0, omega arith, omega arith, refl)

add-zero : (n : ℕ) → n + 0 ≡ n
add-zero n = omega arith

-- What one thread logs of each severity.
abbrev pub share : Severity → ℕ
share info = 500
share warning = 250
share error = 250
share fatal = 0

sum-weight : (severity : Severity) → sum_from (weight severity) 1000 0 ≡ share severity
unfolding sum_from severity_of
sum-weight info = refl
sum-weight warning = refl
sum-weight error = refl
sum-weight fatal = refl

log_thread-Adds :
    (severity : Severity) (i : ℕ)
    → Adds (lines severity) (2 ^ 32) (share severity) (share severity) (log_thread i)
unfolding log_thread
log_thread-Adds severity i =
    let n = sum_from (weight severity) 1000 0 in
    let all : Adds (lines severity) (2 ^ 32) (n + 0) (n + 0) (log_thread i) =
      Adds-bind (lines severity) (2 ^ 32) n n 0 0 (repeat 1000 0 (log_once i)) (λ _. complete)
        (Adds-repeat_sum (lines severity) (2 ^ 32) (weight severity) 1000 0 (log_once i)
          (log_once-Adds severity i))
        (λ _. complete-Adds severity) in
    rw (add-zero n, sum-weight severity) at all

completed-Adds : (i : ℕ) → Adds (λ s. s.completed_threads) (2 ^ 32) 1 1 (log_thread i)
unfolding log_thread log_once complete
completed-Adds i =
    Adds-bind (λ s. s.completed_threads) (2 ^ 32) 0 0 1 1 (repeat 1000 0 (log_once i))
      (λ _. complete)
      (Adds-repeat (λ s. s.completed_threads) (2 ^ 32) 0 0 1000 0 (log_once i)
        (λ j s room. (0, omega arith, omega arith, refl)))
      (λ _ s room. (1, omega arith, omega arith, refl))

-- The test ends on every schedule that gives each thread a turn for each of its messages and one more,
-- in whatever order.
pub concurrent_log_test-joins :
    (is : List ℕ)
    → ((i : ℕ) → i < num_threads → logs_per_thread + 1 ≤ turns i is)
    → (s : Test) × (ts : List (Prog Test Unit)) × (concurrent_log_test is ≡ some (s, ts))
      × Joined ts
unfolding concurrent_log_test log_thread log_once complete
concurrent_log_test-joins is fair =
    elim (run-joins ⊥ 1001 10 log_thread is initialized_test
      (λ i. safe-Needs ⊥ 1001 _ (λ e. e) (log_thread-Within i)) fair) [
        | inl joined ↦ joined
        | inr (stopped, e) ↦ absurd e
      ]
  where
    log_thread-Within : (i : ℕ) → Within ⊥ 1001 (log_thread i)
    log_thread-Within i =
        Within-bind ⊥ 1000 1 (repeat 1000 0 (log_once i)) (λ _. complete)
          (Within-repeat ⊥ 1 1000 0 (log_once i) (λ j s. tt)) (λ _ s. tt)

-- However the threads interleave, when all have returned no message is lost: there are five thousand
-- messages of severity INFO, two thousand and five hundred WARNINGs, as many ERRORs and no FATAL, and
-- every thread is counted as completed.
pub concurrent_log_test-counts :
    (is : List ℕ) (s : Test) (ts : List (Prog Test Unit)) (severity : Severity)
    → concurrent_log_test is ≡ some (s, ts)
    → Joined ts
    → (count_of severity (logged s.logger.events) ≡ num_threads * share severity)
      × (s.completed_threads ≡ num_threads)
unfolding concurrent_log_test init get_instance
concurrent_log_test-counts is s ts severity e j =
    let (at_least, at_most) =
      run-total (lines severity) (2 ^ 32) (10 * share severity) (10 * share severity) is
        initialized_test s _ ts
        (start-AllAdd (lines severity) (2 ^ 32) (share severity) (share severity) 10 0 log_thread
          (log_thread-Adds severity))
        (omega (arith, room severity)) e j in
    let (ten, no_more) =
      run-total (λ (t : Test). t.completed_threads) (2 ^ 32) 10 10 is initialized_test s _ ts
        (start-AllAdd (λ (t : Test). t.completed_threads) (2 ^ 32) 1 1 10 0 log_thread
          completed-Adds)
        (omega arith) e j in
    (omega arith, omega arith)
  where
    room : (severity : Severity) → 10 * share severity < 2 ^ 32
    room info = omega arith
    room warning = omega arith
    room error = omega arith
    room fatal = omega arith
