-- ===== src/LoadTest/Totals.antt =====
-- How many successes and failures the load client of example/caller/Zclient.cc counts.
use rpc_base_on_zookeeper.Base.{
  Bytes, ℕ, ◌+◌, ◌*◌, ◌^◌, ◌≤◌, ◌<◌, ℤ, ◌≡◌, refl, Bool, not, ◌&&◌, Option, some, Option-cases, inl,
  inr, List, if◌then◌else◌, arith,
}
use rpc_base_on_zookeeper.Threads.{Prog, run, Joined}
use rpc_base_on_zookeeper.Threads.Counting.{
  Adds-le, AllAdd, Adds-bind, Adds-repeat, start-AllAdd, run-total,
}
use rpc_base_on_zookeeper.Messages.{RegisterRequest, RegisterResponse}
use rpc_base_on_zookeeper.Table.{Table}
use rpc_base_on_zookeeper.Application.{Opt, init}
use rpc_base_on_zookeeper.User.{Stub}
use rpc_base_on_zookeeper.Client.{UserStub}
use rpc_base_on_zookeeper.LoadTest.{
  Channels, Load, succeed, fail, send_request, test_set, test_get, test_exists, test_cache_service,
  store, read_time, login_and_store, query_and_store, test_session, test_profile,
  test_integrated_business, Mode, cache_mode, user_mode, integrated_mode, test_mode, request,
  thread, threads, report, main,
}
use rpc_base_on_zookeeper.LoadTest.Counts.{
  total, Counts, succeed-Counts, fail-Counts, call-Counts, call_set-Counts, call_null-Counts,
  with_channel-Counts, if-Counts, one-Counts, failed-Counts, count_result-Counts, if-Counts_le,
}

-- What one request counts.
abbrev pub least : Mode → ℕ
least cache_mode = 3
least user_mode = 2
least integrated_mode = 2

abbrev pub most : Mode → ℕ
most cache_mode = 3
most user_mode = 2
most integrated_mode = 4

most-le : (mode : Mode) → most mode ≤ 4
most-le cache_mode = omega arith
most-le user_mode = omega arith
most-le integrated_mode = omega arith

times : (n : ℕ) → 200 * n ≡ 10 * (20 * n)
times n = omega arith

module _ {W : Type 0} (users : UserStub W)
    (register_null : RegisterRequest → W → W × Option RegisterResponse) (cache : Stub W)
    (channels : Channels W) (time : W → ℤ) where
  send_request-Counts :
      (i : ℕ) → Counts 2 2 (send_request users register_null cache channels time i)
  unfolding send_request
  send_request-Counts i = with_channel-Counts W 2 2 _ _ _ (
      Adds-bind total (2 ^ 31) 0 0 2 2 _ _ (call-Counts W _ _) λ login.
        Adds-bind total (2 ^ 31) 1 1 1 1 _ _ (count_result-Counts W _ _) λ _.
          Adds-bind total (2 ^ 31) 0 0 1 1 _ _ (call_null-Counts W _)
            λ rsp. count_result-Counts W _ _)

  test_cache_service-Counts :
      (i : ℕ) → Counts 3 3 (test_cache_service users register_null cache channels time i)
  unfolding test_cache_service test_set test_get test_exists
  test_cache_service-Counts i = with_channel-Counts W 3 3 _ _ _ (
      Adds-bind total (2 ^ 31) 1 1 2 2 _ _
        (Adds-bind total (2 ^ 31) 0 0 1 1 _ _ (call_set-Counts W _ _)
          λ failed. failed-Counts W failed)
        λ _.
          Adds-bind total (2 ^ 31) 1 1 1 1 _ _
            (Adds-bind total (2 ^ 31) 0 0 1 1 _ _ (call-Counts W _ _)
              λ got. if-Counts W 1 1 got.0 fail _ (fail-Counts W) (one-Counts W got.1.exists))
            λ _.
              Adds-bind total (2 ^ 31) 0 0 1 1 _ _ (call-Counts W _ _)
                λ there. failed-Counts W there.0)

  store-Counts :
      (key value : Bytes) (expire : ℤ)
      → Counts 2 2 (store users register_null cache channels time key value expire)
  unfolding store
  store-Counts key value expire =
      Adds-bind total (2 ^ 31) 0 0 2 2 _ _ (call_set-Counts W _ _) λ failed.
        if-Counts W 2 2 failed _ _
          (Adds-bind total (2 ^ 31) 1 1 1 1 _ _ (succeed-Counts W 1) (λ _. fail-Counts W))
          (succeed-Counts W 2)

  read_time-Counts : Counts 0 0 (read_time users register_null cache channels time)
  unfolding read_time
  read_time-Counts = λ s room. (0, omega arith, omega arith, refl)

  login_and_store-Counts :
      (username session_key : Bytes)
      → Counts 1 2 (login_and_store users register_null cache channels time username session_key)
  unfolding login_and_store
  login_and_store-Counts username session_key =
      Adds-bind total (2 ^ 31) 0 0 1 2 _ _ (call-Counts W _ _) λ login.
        if-Counts_le W 2 1 2 1 (not login.0 && login.1.success) _ _ (omega arith) (omega arith)
          (Adds-bind total (2 ^ 31) 0 0 2 2 _ _ read_time-Counts
            λ now. store-Counts session_key _ _)
          (fail-Counts W)

  query_and_store-Counts :
      (user_id : ℕ) (profile_key : Bytes)
      → Counts 1 2 (query_and_store users register_null cache channels time user_id profile_key)
  unfolding query_and_store
  query_and_store-Counts user_id profile_key =
      Adds-bind total (2 ^ 31) 0 0 1 2 _ _ (call-Counts W _ _) λ profile.
        if-Counts_le W 2 1 2 1 _ _ _ (omega arith) (omega arith) (store-Counts profile_key _ _)
          (fail-Counts W)

  found-Counts :
      (b : Bool) (p : Prog (Load W) Unit) → Counts 1 2 p → Counts 1 2 (if b then succeed 1 else p)
  found-Counts b p h =
      if-Counts W 1 2 b (succeed 1) p
        (Adds-le total (2 ^ 31) 1 1 1 2 _ (omega arith) (omega arith) (succeed-Counts W 1)) h

  test_integrated_business-Counts :
      (i : ℕ) → Counts 2 4 (test_integrated_business users register_null cache channels time i)
  unfolding test_integrated_business test_session test_profile
  test_integrated_business-Counts i = with_channel-Counts W 2 4 _ _ _ (
      with_channel-Counts W 2 4 _ _ _ (
        Adds-bind total (2 ^ 31) 1 2 1 2 _ _
          (Adds-bind total (2 ^ 31) 0 0 1 2 _ _ (call-Counts W _ _)
            λ session. found-Counts _ _ (login_and_store-Counts _ _))
          λ _.
            Adds-bind total (2 ^ 31) 0 0 1 2 _ _ (call-Counts W _ _)
              λ profile. found-Counts _ _ (query_and_store-Counts _ _)))

  request-Counts :
      (mode : Mode) (i : ℕ)
      → Counts (least mode) (most mode) (request users register_null cache channels time mode i)
  unfolding request
  request-Counts cache_mode i = test_cache_service-Counts i
  request-Counts user_mode i = send_request-Counts i
  request-Counts integrated_mode i = test_integrated_business-Counts i

  threads-AllAdd :
      (mode : Mode)
      → AllAdd total
          (2 ^ 31)
          (200 * least mode)
          (200 * most mode)
          (threads users register_null cache channels time mode)
  unfolding threads thread
  threads-AllAdd mode =
      rw (times (least mode), times (most mode))
        (start-AllAdd total (2 ^ 31) (20 * least mode) (20 * most mode) 10 0 _ (λ i.
          Adds-repeat total (2 ^ 31) (least mode) (most mode) 20 0 _ (λ j. request-Counts mode i)))

  -- However the accesses of the threads fall, when all have returned the successes and the failures
  -- are together at least the reported number of requests times what one request counts at least,
  -- and at most times what it counts at most: three in the cache test, two in the user test, and two
  -- to four in the integrated test. No counter overflows.
  pub main-totals :
      (getopt : List Bytes → List Opt) (files : Bytes → Option Bytes) (argv : List Bytes)
      (m : Table Bytes) (is : List ℕ) (w : W) (s : Load W) (ts : List (Prog (Load W) Unit))
      → main users register_null cache channels time getopt files argv m is w ≡ some (s, ts)
      → Joined ts
      → let r = report s in
        (r.total_requests * least (test_mode argv) ≤ r.successes + r.failures)
        × (r.successes + r.failures ≤ r.total_requests * most (test_mode argv))
        × (r.successes < 2 ^ 31)
        × (r.failures < 2 ^ 31)
  unfolding main report
  main-totals getopt files argv m is w s ts e j = elim (Option-cases (init getopt files argv m)) [
    | inl stopped ↦ absurd (ground (arith, e, stopped))
    | inr (m', started) ↦
        let mode = test_mode argv in
        let s₀ : Load W = record { world = w; success_count = 0; fail_count = 0 } in
        let ran : run is s₀ (threads users register_null cache channels time mode) ≡ some (s, ts) =
          ground (arith, e, started) in
        let (least_le, le_most) =
          run-total total (2 ^ 31) (200 * least mode) (200 * most mode) is s₀ s _ ts
            (threads-AllAdd mode) (omega (arith, most-le mode)) ran j in
        (omega arith, omega arith, omega (arith, most-le mode), omega (arith, most-le mode))
  ]
