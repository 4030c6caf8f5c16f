-- ===== src/LoadTest/Runs.antt =====
-- Runs of the load client, over the cache service and the user service.
use rpc_base_on_zookeeper.Base.{
  Bytes, ◌⊎◌, inl, inr, none, text, bytes_eq, ℕ, ◌+◌, ◌*◌, ◌^◌, ◌≤◌, ◌<◌, ℤ, pos, ◌≡◌, refl, true,
  Option, some, List, [], ◌∷◌, if◌then◌else◌, ◌==◌, arith,
}
use rpc_base_on_zookeeper.Table.{Table}
use rpc_base_on_zookeeper.Threads.{Prog, returns, run, Joined}
use rpc_base_on_zookeeper.Threads.Endings.{turns}
use rpc_base_on_zookeeper.Threads.RoundRobin.{round_robin, turns-round_robin}
use rpc_base_on_zookeeper.Messages.{
  RegisterResponse, default_login, default_register, default_profile, default_result,
}
use rpc_base_on_zookeeper.Application.{Opt, config_option, unknown_option, init}
use rpc_base_on_zookeeper.Application.Start.{init-print}
use rpc_base_on_zookeeper.Config.Files.{print}
use rpc_base_on_zookeeper.Cache.{Cache, empty_cache}
use rpc_base_on_zookeeper.Client.{UserStub}
use rpc_base_on_zookeeper.LoadTest.{
  Load, report, send_request, integrated_mode, mode_of, test_mode, main, thread_count,
  requests_per_thread,
}
use rpc_base_on_zookeeper.LoadTest.Modes.{GetoptLaws, test_mode-integrated}
use rpc_base_on_zookeeper.LoadTest.Totals.{least, most, main-totals}
use rpc_base_on_zookeeper.LoadTest.Endings.{accesses, Stopped, main-joins}
use rpc_base_on_zookeeper.LoadTest.Register.{run-send_request}
use rpc_base_on_zookeeper.LoadTest.Model.{cache_now, users_now, channels_now, register_now}

-- `getopt` for "i:", as far as the arguments are options with their values apart.
abbrev getopt_from : List Bytes → List Opt
getopt_from ((b ∷ c ∷ d ∷ s) ∷ args) =
    if b == b'-' then (if c == b'-' then unknown_option ∷ [] else []) else []
getopt_from ((b ∷ c ∷ []) ∷ path ∷ args) =
    let rest = getopt_from args in
    if b == b'-'
    then (if c == b'i' then config_option path ∷ rest else unknown_option ∷ rest)
    else []
getopt_from args = []

abbrev getopt : List Bytes → List Opt
getopt [] = []
getopt (command ∷ args) = getopt_from args

getopt_laws : GetoptLaws getopt
getopt_laws = record { unknown = λ command c s args. ([], refl) }

abbrev arguments : List Bytes
arguments = (b'c' ∷ []) ∷ (b'-' ∷ b'i' ∷ []) ∷ (b'f' ∷ []) ∷ []

-- A configuration file without a line.
abbrev files : Bytes → Option Bytes
files path = some (print [])

abbrev now : ℕ
now = 7

abbrev time : Cache → ℤ
time c = pos now

started : (m : Table Bytes) × (init getopt files arguments [] ≡ some m)
started =
    let (m, e, _) = init-print getopt files arguments (b'f' ∷ []) [] (omega arith) refl refl tt in
    (m, e)

often :
    (i : ℕ)
    → i < thread_count
    → requests_per_thread * accesses (test_mode arguments) < turns i (round_robin 301)
unfolding test_mode mode_of bytes_eq text
often i l = omega (arith, turns-round_robin i 301 l)

main-joins_example :
    let x =
      main
        (users_now now)
        (register_now now)
        (cache_now now)
        channels_now
        time
        getopt
        files
        arguments
        []
        (round_robin 301)
        empty_cache in
    ((s : Load Cache) × (ts : List (Prog (Load Cache) Unit)) × (x ≡ some (s, ts)) × Joined ts)
    ⊎ ((x ≡ none) × Stopped channels_now.ended (register_now now))
main-joins_example =
    main-joins (users_now now) (register_now now) (cache_now now) channels_now time getopt files
      arguments [] started.0 (round_robin 301) empty_cache started.1 (λ i l. often i l)

not-Stopped : ¬ Stopped channels_now.ended (register_now now)
unfolding register_now
not-Stopped (inl (w, e)) = cc e
not-Stopped (inr (r, w, e)) = cc e

-- What main-joins gives, with the counters and the threads.
joined :
    (s : Load Cache) × (ts : List (Prog (Load Cache) Unit)) × (main
        (users_now now)
        (register_now now)
        (cache_now now)
        channels_now
        time
        getopt
        files
        arguments
        []
        (round_robin 301)
        empty_cache
      ≡ some (s, ts))
    × Joined ts
joined =
    elim (main-joins (users_now now) (register_now now) (cache_now now) channels_now time getopt
      files arguments [] started.0 (round_robin 301) empty_cache started.1 (λ i l. often i l)) [
        | inl j ↦ j
        | inr (ended, e) ↦ absurd (not-Stopped e)
      ]

main-totals_example :
    let r = report joined.0 in
    (r.total_requests * least (test_mode arguments) ≤ r.successes + r.failures)
    × (r.successes + r.failures ≤ r.total_requests * most (test_mode arguments))
    × (r.successes < 2 ^ 31)
    × (r.failures < 2 ^ 31)
main-totals_example =
    main-totals (users_now now) (register_now now) (cache_now now) channels_now time getopt files
      arguments [] (round_robin 301) empty_cache joined.0 joined.1 joined.2 joined.3

test_mode-integrated_example : test_mode arguments ≡ integrated_mode
test_mode-integrated_example =
    test_mode-integrated getopt getopt_laws files [] arguments started.0 started.1

-- A user service that cannot be reached.
abbrev unreachable : UserStub Cache
unreachable = record {
  login_call = λ r c. (c, true, default_login);
  register_call = λ r c. (c, true, default_register);
  profile_call = λ id c. (c, true, default_profile);
}

abbrev admitted : RegisterResponse
admitted = record { result = default_result; success = true }

abbrev initial : Load Cache
initial = record { world = empty_cache; success_count = 0; fail_count = 0 }

run-send_request_example :
    run (0 ∷ 0 ∷ 0 ∷ 0 ∷ 0 ∷ 0 ∷ []) initial (
      send_request unreachable (λ r c. (c, some admitted)) (cache_now now) channels_now time 0 ∷ [])
    ≡ some (record { world = empty_cache; success_count = 0; fail_count = 2 }, returns tt ∷ [])
run-send_request_example =
    run-send_request unreachable (λ r c. (c, some admitted)) (cache_now now) channels_now time 0
      initial []
