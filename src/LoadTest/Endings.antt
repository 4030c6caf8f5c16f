-- ===== src/LoadTest/Endings.antt =====
-- The threads of the load client of example/caller/Zclient.cc come to their ends.
use rpc_base_on_zookeeper.Base.{
  Bytes, ◌⊎◌, inl, inr, suc, ℕ, ◌+◌, ◌*◌, ◌≤◌, ◌<◌, ℤ, pos, eqbℤ, ◌≡◌, refl, Bool, true, false, not,
  ◌&&◌, Option, none, some, List, if◌then◌else◌, arith,
}
use rpc_base_on_zookeeper.Threads.{Prog, Joined}
use rpc_base_on_zookeeper.Threads.Endings.{
  turns, Within, Within-le, Within-bind, Within-repeat, Within-Needs, run-joins,
}
use rpc_base_on_zookeeper.Messages.{ResultCode, RegisterRequest, RegisterResponse}
use rpc_base_on_zookeeper.Table.{Table}
use rpc_base_on_zookeeper.Application.{Opt, init}
use rpc_base_on_zookeeper.User.{Stub}
use rpc_base_on_zookeeper.Client.{UserStub}
use rpc_base_on_zookeeper.LoadTest.{
  Channels, Load, change, with_channel, succeed, fail, call, call_set, call_null, came_back,
  delivered, count_result, send_request, test_set, test_get, test_exists, test_cache_service, store,
  read_time, login_and_store, query_and_store, test_session, test_profile, test_integrated_business,
  Mode, cache_mode, user_mode, integrated_mode, test_mode, request, thread, threads, thread_count,
  requests_per_thread, main,
}

-- The accesses of one request.
abbrev pub accesses : Mode → ℕ
accesses cache_mode = 8
accesses user_mode = 6
accesses integrated_mode = 15

-- A call has ended the process: one with a controller, or Register without one.
abbrev pub Stopped :
    {W : Type 0} → (W → Bool) → (RegisterRequest → W → W × Option RegisterResponse) → Type 0
Stopped {W} ended register_null =
    ((w : W) × (ended w ≡ true))
    ⊎ ((r : RegisterRequest) × (w : W) × ((register_null r w).1 ≡ none))

module _ (W C : Type 0) where
  succeed-Within : (n : ℕ) → Within C 1 (succeed {W = W} n)
  unfolding succeed
  succeed-Within n = λ s. tt

  fail-Within : Within C 1 (fail {W = W})
  unfolding fail
  fail-Within = λ s. tt

  came_back-Within :
      {A : Type 0} (b : Bool) (a : A) → (b ≡ true → C) → Within C 0 (came_back {W = W} b a)
  unfolding came_back
  came_back-Within true a h = h refl
  came_back-Within false a h = tt

  call-Within :
      {A : Type 0} (ended : W → Bool) (f : W → W × Bool × A)
      → ((w : W) → ended w ≡ true → C)
      → Within C 1 (call ended f)
  unfolding call
  call-Within ended f h = λ s. came_back-Within (ended (f s.world).0) _ (h (f s.world).0)

  call_set-Within :
      (ended : W → Bool) (f : W → W × Bool)
      → ((w : W) → ended w ≡ true → C)
      → Within C 1 (call_set ended f)
  unfolding call_set
  call_set-Within ended f h = λ s. came_back-Within (ended (f s.world).0) _ (h (f s.world).0)

  delivered-Within : {A : Type 0} (o : Option A) → (o ≡ none → C) → Within C 0 (delivered {W = W} o)
  unfolding delivered
  delivered-Within none h = h refl
  delivered-Within (some a) h = tt

  call_null-Within :
      {A : Type 0} (f : W → W × Option A)
      → ((w : W) → (f w).1 ≡ none → C)
      → Within C 1 (call_null f)
  unfolding call_null
  call_null-Within f h = λ s. delivered-Within (f s.world).1 (h s.world)

  change-Within : (f : W → W) → Within C 1 (change f)
  unfolding change
  change-Within f = λ s. tt

  with_channel-Within :
      (n : ℕ) (opens deletes : W → W) (p : Prog (Load W) Unit)
      → Within C n p
      → Within C (n + 2) (with_channel opens deletes p)
  unfolding with_channel
  with_channel-Within n opens deletes p h = Within-le C (1 + (n + 1)) (n + 2) _ (omega arith) (
      Within-bind C 1 (n + 1) _ _ (change-Within opens)
        λ _. Within-bind C n 1 p _ h (λ _. change-Within deletes))

  if-Within :
      (n : ℕ) (b : Bool) (p q : Prog (Load W) Unit)
      → Within C n p
      → Within C n q
      → Within C n (if b then p else q)
  if-Within n true p q hp hq = hp
  if-Within n false p q hp hq = hq

  one-Within : (b : Bool) → Within C 1 (if b then succeed {W = W} 1 else fail)
  one-Within b = if-Within 1 b (succeed 1) fail (succeed-Within 1) fail-Within

  failed-Within : (b : Bool) → Within C 1 (if b then fail {W = W} else succeed 1)
  failed-Within b = if-Within 1 b fail (succeed 1) fail-Within (succeed-Within 1)

  count_result-Within :
      (failed : Bool) (result : ResultCode) → Within C 1 (count_result {W = W} failed result)
  unfolding count_result
  count_result-Within failed result =
      if-Within 1 failed fail _ fail-Within (one-Within (eqbℤ result.errcode (pos 0)))

module _ {W : Type 0} (users : UserStub W)
    (register_null : RegisterRequest → W → W × Option RegisterResponse) (cache : Stub W)
    (channels : Channels W) (time : W → ℤ) where
  abbrev Stops : Type 0
  Stops = Stopped channels.ended register_null

  by_call : (w : W) → channels.ended w ≡ true → Stops
  by_call w e = inl (w, e)

  by_register : {r : RegisterRequest} (w : W) → (register_null r w).1 ≡ none → Stops
  by_register {r} w e = inr (r, w, e)

  send_request-Within :
      (i : ℕ) → Within Stops 6 (send_request users register_null cache channels time i)
  unfolding send_request
  send_request-Within i = with_channel-Within W Stops 4 _ _ _ (
      Within-bind Stops 1 3 _ _ (call-Within W Stops _ _ by_call) λ login.
        Within-bind Stops 1 2 _ _ (count_result-Within W Stops _ _) λ _.
          Within-bind Stops 1 1 _ _ (call_null-Within W Stops _ by_register)
            λ rsp. count_result-Within W Stops _ _)

  test_cache_service-Within :
      (i : ℕ) → Within Stops 8 (test_cache_service users register_null cache channels time i)
  unfolding test_cache_service test_set test_get test_exists
  test_cache_service-Within i = with_channel-Within W Stops 6 _ _ _ (
      Within-bind Stops 2 4 _ _
        (Within-bind Stops 1 1 _ _ (call_set-Within W Stops _ _ by_call)
          λ failed. failed-Within W Stops failed)
        λ _.
          Within-bind Stops 2 2 _ _
            (Within-bind Stops 1 1 _ _ (call-Within W Stops _ _ by_call) λ got.
              if-Within W Stops 1 got.0 fail _ (fail-Within W Stops)
                (one-Within W Stops got.1.exists))
            λ _.
              Within-bind Stops 1 1 _ _ (call-Within W Stops _ _ by_call)
                λ there. failed-Within W Stops there.0)

  store-Within :
      (key value : Bytes) (expire : ℤ)
      → Within Stops 3 (store users register_null cache channels time key value expire)
  unfolding store
  store-Within key value expire =
      Within-bind Stops 1 2 _ _ (call_set-Within W Stops _ _ by_call) λ failed.
        if-Within W Stops 2 failed _ _
          (Within-bind Stops 1 1 _ _ (succeed-Within W Stops 1) (λ _. fail-Within W Stops))
          (Within-le Stops 1 2 _ (omega arith) (succeed-Within W Stops 2))

  read_time-Within : Within Stops 1 (read_time users register_null cache channels time)
  unfolding read_time
  read_time-Within = λ s. tt

  login_and_store-Within :
      (username session_key : Bytes)
      → Within Stops 5
          (login_and_store users register_null cache channels time username session_key)
  unfolding login_and_store
  login_and_store-Within username session_key =
      Within-bind Stops 1 4 _ _ (call-Within W Stops _ _ by_call) λ login.
        if-Within W Stops 4 (not login.0 && login.1.success) _ _
          (Within-bind Stops 1 3 _ _ read_time-Within λ now. store-Within session_key _ _)
          (Within-le Stops 1 4 _ (omega arith) (fail-Within W Stops))

  query_and_store-Within :
      (user_id : ℕ) (profile_key : Bytes)
      → Within Stops 4 (query_and_store users register_null cache channels time user_id profile_key)
  unfolding query_and_store
  query_and_store-Within user_id profile_key =
      Within-bind Stops 1 3 _ _ (call-Within W Stops _ _ by_call) λ profile.
        if-Within W Stops 3 (not profile.0 && eqbℤ profile.1.result.errcode (pos 0)) _ _
          (store-Within profile_key profile.1.profile_data (pos 600))
          (Within-le Stops 1 3 _ (omega arith) (fail-Within W Stops))

  found-Within :
      (n : ℕ) (b : Bool) (p : Prog (Load W) Unit)
      → 1 ≤ n
      → Within Stops n p
      → Within Stops n (if b then succeed 1 else p)
  found-Within n b p l h =
      if-Within W Stops n b (succeed 1) p (Within-le Stops 1 n _ l (succeed-Within W Stops 1)) h

  pub test_integrated_business-Within :
      (i : ℕ) → Within Stops 15 (test_integrated_business users register_null cache channels time i)
  unfolding test_integrated_business test_session test_profile
  test_integrated_business-Within i = with_channel-Within W Stops 13 _ _ _ (
      with_channel-Within W Stops 11 _ _ _ (
        Within-bind Stops 6 5 _ _
          (Within-bind Stops 1 5 _ _ (call-Within W Stops _ _ by_call)
            λ session. found-Within 5 _ _ (omega arith) (login_and_store-Within _ _))
          λ _.
            Within-bind Stops 1 4 _ _ (call-Within W Stops _ _ by_call)
              λ profile. found-Within 4 _ _ (omega arith) (query_and_store-Within _ _)))

  request-Within :
      (mode : Mode) (i : ℕ)
      → Within Stops (accesses mode) (request users register_null cache channels time mode i)
  unfolding request
  request-Within cache_mode i = test_cache_service-Within i
  request-Within user_mode i = send_request-Within i
  request-Within integrated_mode i = test_integrated_business-Within i

  -- If Init lets the process go on: a schedule that gives each thread its turn often enough, in
  -- whatever order, ends with all threads joined, or with the end of the process by a call, and then
  -- there is a state in which a call has ended the process, or a call of Register without a
  -- controller that does. Often enough is, for each of a thread's requests, eight times in the cache
  -- test, six in the user test and fifteen in the integrated test, and one time more.
  pub main-joins :
      (getopt : List Bytes → List Opt) (files : Bytes → Option Bytes) (argv : List Bytes)
      (m m' : Table Bytes) (is : List ℕ) (w : W)
      → init getopt files argv m ≡ some m'
      → ((i : ℕ) → i < thread_count → requests_per_thread * accesses (test_mode argv) < turns i is)
      → let x = main users register_null cache channels time getopt files argv m is w in
        ((s : Load W) × (ts : List (Prog (Load W) Unit)) × (x ≡ some (s, ts)) × Joined ts)
        ⊎ ((x ≡ none) × Stopped channels.ended register_null)
  unfolding main threads thread
  main-joins getopt files argv m m' is w started fair =
      let mode = test_mode argv in
      rw (started, main)
        (run-joins Stops (suc (20 * accesses mode)) 10 _ is _
          (λ i.
            Within-Needs Stops _ _
              (Within-repeat Stops (accesses mode) 20 0 _ (λ j. request-Within mode i)))
          fair)
