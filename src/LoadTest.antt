-- ===== src/LoadTest.antt =====
-- example/caller/Zclient.cc: the load client, ten threads that call both services and count what
-- succeeds and what fails. A call and a change of a counter are one access each. The stubs are
-- parameters, over one state of everything behind them. Logging, printing and the time that the test
-- took are left out.
pub mod Modes
pub mod Counts
pub mod Totals
pub mod Endings
pub mod Register
pub mod Refused
pub mod Linked
mod LinkedRuns
pub mod Model
mod Runs
use rpc_base_on_zookeeper.Base.{
  Bytes, text, bytes_eq, ℕ, ◌+◌, ◌*◌, ◌%◌, ◌^◌, ℤ, pos, eqbℤ, Bool, true, false, not, ◌&&◌, Option,
  none, some, List, [], ◌∷◌, ◌++◌, if◌then◌else◌,
}
use rpc_base_on_zookeeper.Decimal.{to_string}
use rpc_base_on_zookeeper.Table.{Table}
use rpc_base_on_zookeeper.Threads.{
  Prog, returns, crash, act, ◌>>=◌, ◌>>◌, repeat, System, run, start,
}
use rpc_base_on_zookeeper.Messages.{
  ResultCode, CacheSetRequest, LoginRequest, RegisterRequest, RegisterResponse,
}
use rpc_base_on_zookeeper.Application.{Opt, init}
use rpc_base_on_zookeeper.User.{Stub}
use rpc_base_on_zookeeper.Client.{UserStub}

-- What the threads share: the two `std::atomic<int>`, as patterns of 32 bits.
pub record Load (W : Type 0) : Type 0 where
  pub world : W
  pub success_count : ℕ
  pub fail_count : ℕ

-- A new channel of each stub with its heartbeat on, and the `delete` of one; and whether a call has ended
-- the process, as CallMethod does when it throws.
pub record Channels (W : Type 0) : Type 0 where
  pub open_user : W → W
  pub open_cache : W → W
  pub delete_user : W → W
  pub delete_cache : W → W
  pub ended : W → Bool

module _ {W : Type 0} where
  unfoldable pub succeed : ℕ → Prog (Load W) Unit
  succeed n =
      act (λ s. record s { success_count = (s.success_count + n) % 2 ^ 32 }) (λ s. returns tt)

  unfoldable pub fail : Prog (Load W) Unit
  fail = act (λ s. record s { fail_count = (s.fail_count + 1) % 2 ^ 32 }) (λ s. returns tt)

  -- Behind a call: an exception out of it ends the process.
  came_back : {A : Type 0} → Bool → A → Prog (Load W) A
  came_back true a = crash
  came_back false a = returns a

  -- A call with a controller: whether the controller has failed, and the response.
  unfoldable pub call : {A : Type 0} → (W → Bool) → (W → W × Bool × A) → Prog (Load W) (Bool × A)
  unfolding came_back
  call ended f =
      act (λ s. record s { world = (f s.world).0 })
        (λ s. let (w, failed, response) = f s.world in came_back (ended w) (failed, response))

  unfoldable pub call_set : (W → Bool) → (W → W × Bool) → Prog (Load W) Bool
  unfolding came_back
  call_set ended f =
      act (λ s. record s { world = (f s.world).0 })
        (λ s. let (w, failed) = f s.world in came_back (ended w) failed)

  unfoldable pub change : (W → W) → Prog (Load W) Unit
  change f = act (λ s. record s { world = f s.world }) (λ s. returns tt)

  -- A function of the client, between the making of a channel and the `delete` of one.
  unfoldable pub with_channel : (W → W) → (W → W) → Prog (Load W) Unit → Prog (Load W) Unit
  with_channel opens deletes body = do change opens; body; change deletes

  delivered : {A : Type 0} → Option A → Prog (Load W) A
  delivered none = crash
  delivered (some response) = returns response

  -- A call without a controller; `none` is the end of the process: CallMethod throws, or crashes where
  -- it would report a failure to its controller.
  unfoldable pub call_null : {A : Type 0} → (W → W × Option A) → Prog (Load W) A
  unfolding delivered
  call_null f = act (λ s. record s { world = (f s.world).0 }) (λ s. delivered (f s.world).1)

  -- The check behind a call of the user service.
  unfoldable pub count_result : Bool → ResultCode → Prog (Load W) Unit
  count_result failed result =
      if failed then fail else if eqbℤ result.errcode (pos 0) then succeed 1 else fail

unfoldable pub user_key : ℕ → Bytes
user_key thread_id = text "user:thread_" ++ to_string (pos thread_id)

unfoldable pub user_value : ℕ → Bytes
user_value thread_id =
    let id = to_string (pos thread_id) in
    text "{\"name\":\"TestUser" ++ (id ++ (text "\",\"thread\":" ++ (id ++ text "}")))

pub data Mode : Type 0 where
  cache_mode user_mode integrated_mode : Mode

unfoldable pub mode_of : Bytes → Mode
mode_of arg =
    if bytes_eq arg (text "--cache")
    then cache_mode
    else if bytes_eq arg (text "--user")
    then user_mode
    else integrated_mode

unfoldable pub test_mode : List Bytes → Mode
test_mode [] = integrated_mode
test_mode (command ∷ []) = integrated_mode
test_mode (command ∷ arg ∷ args) = mode_of arg

abbrev pub thread_count : ℕ
thread_count = 10

abbrev pub requests_per_thread : ℕ
requests_per_thread = 20

pub record Report : Type 0 where
  pub total_requests : ℕ
  pub successes : ℕ
  pub failures : ℕ

unfoldable pub report : {W : Type 0} → Load W → Report
report s = record {
  total_requests = thread_count * requests_per_thread;
  successes = s.success_count;
  failures = s.fail_count;
}

-- `register_null` is Register with a null controller; `time` is `time(nullptr)`.
module _ {W : Type 0} (users : UserStub W)
    (register_null : RegisterRequest → W → W × Option RegisterResponse) (cache : Stub W)
    (channels : Channels W) (time : W → ℤ) where
  -- The second check asks the controller of the first call.
  unfoldable pub send_request : ℕ → Prog (Load W) Unit
  send_request thread_id = with_channel channels.open_user channels.delete_user do
    login ←
        call channels.ended
          (users.login_call (record { name = text "zhangsan"; pwd = text "123456" }))
    count_result login.0 login.1.result
    rsp ←
        call_null (register_null (record { id = 100000; name = text "Zrpc"; pwd = text "1111111" }))
    count_result login.0 rsp.result

  unfoldable pub test_set : ℕ → Prog (Load W) Unit
  test_set thread_id = do
    failed ← call_set channels.ended (
        cache.set_call (record {
          key = user_key thread_id;
          value = user_value thread_id;
          expire_seconds = pos 300;
        }))
    if failed then fail else succeed 1

  unfoldable pub test_get : ℕ → Prog (Load W) Unit
  test_get thread_id = do
    got ← call channels.ended (cache.get_call (user_key thread_id))
    if got.0 then fail else if got.1.exists then succeed 1 else fail

  unfoldable pub test_exists : ℕ → Prog (Load W) Unit
  test_exists thread_id = do
    there ← call channels.ended (cache.exists_call (user_key thread_id))
    if there.0 then fail else succeed 1

  unfoldable pub test_cache_service : ℕ → Prog (Load W) Unit
  test_cache_service thread_id =
      with_channel channels.open_cache channels.delete_cache
        do test_set thread_id; test_get thread_id; test_exists thread_id

  -- The store of a session or a profile behind a call that succeeded.
  unfoldable pub store : Bytes → Bytes → ℤ → Prog (Load W) Unit
  store key value expire_seconds = do
    failed ←
        call_set channels.ended
          (cache.set_call (record { key = key; value = value; expire_seconds = expire_seconds }))
    if failed then succeed 1 >> fail else succeed 2

  unfoldable pub read_time : Prog (Load W) ℤ
  read_time = act (λ s. s) (λ s. returns (time s.world))

  unfoldable pub login_and_store : Bytes → Bytes → Prog (Load W) Unit
  login_and_store username session_key = do
    login ←
        call channels.ended
          (users.login_call (record { name = username; pwd = text "password123" }))
    if not login.0 && login.1.success
        then (do
          now ← read_time
          store session_key (text "token_" ++ (username ++ (text "_" ++ to_string now))) (pos 1800))
        else fail

  unfoldable pub query_and_store : ℕ → Bytes → Prog (Load W) Unit
  query_and_store user_id profile_key = do
    profile ← call channels.ended (users.profile_call user_id)
    if not profile.0 && eqbℤ profile.1.result.errcode (pos 0)
        then store profile_key profile.1.profile_data (pos 600)
        else fail

  unfoldable pub test_session : Bytes → Bytes → Prog (Load W) Unit
  test_session username session_key = do
    session ← call channels.ended (cache.exists_call session_key)
    if not session.0 && session.1.exists then succeed 1 else login_and_store username session_key

  unfoldable pub test_profile : ℕ → Bytes → Prog (Load W) Unit
  test_profile user_id profile_key = do
    profile ← call channels.ended (cache.get_call profile_key)
    if not profile.0 && profile.1.exists then succeed 1 else query_and_store user_id profile_key

  unfoldable pub test_integrated_business : ℕ → Prog (Load W) Unit
  test_integrated_business thread_id = with_channel channels.open_user channels.delete_cache (
      with_channel channels.open_cache channels.delete_user do
        let username = text "user_" ++ to_string (pos thread_id)
        test_session username (text "session:" ++ username)
        let user_id = (1000 + thread_id) % 2 ^ 32
        test_profile user_id (text "profile:" ++ to_string (pos user_id)))

  unfoldable pub request : Mode → ℕ → Prog (Load W) Unit
  request cache_mode i = test_cache_service i
  request user_mode i = send_request i
  request integrated_mode i = test_integrated_business i

  unfoldable pub thread : Mode → ℕ → Prog (Load W) Unit
  thread mode i = repeat requests_per_thread 0 (λ j. request mode i)

  unfoldable pub threads : Mode → List (Prog (Load W) Unit)
  threads mode = start thread_count 0 (thread mode)

  -- `main`, under a schedule, from the counters 0; `none` is the end of the process, by Init or by a
  -- thread. `report` is what it prints when `join` has returned for each thread.
  unfoldable pub main :
      (List Bytes → List Opt)
      → (Bytes → Option Bytes)
      → List Bytes
      → Table Bytes
      → List ℕ
      → W
      → Option (System (Load W))
  main getopt files argv m is w = elim (init getopt files argv m) [
    | none ↦ none
    | some m' ↦
        run is (record { world = w; success_count = 0; fail_count = 0 }) (threads (test_mode argv))
  ]
