-- ===== src/LoadTest/Linked.antt =====
-- The integrated test of example/caller/Zclient.cc over the channels that it makes (src/Zrpcchannel.cc), as
-- Client.Channels has them: the destructor of a channel is empty.
use rpc_base_on_zookeeper.Base.{
  Bytes, arith, ℕ, ◌+◌, ◌%◌, ◌^◌, ℤ, pos, ◌≡◌, refl, ap, ◌∙◌, true, false, Option, some, List, ◌∷◌,
}
use rpc_base_on_zookeeper.Threads.{Prog, returns, run}
use rpc_base_on_zookeeper.Threads.Alone.{first_turns, run-alone}
use rpc_base_on_zookeeper.Messages.{
  CacheExistsResponse, CacheStatsResponse, LoginResponse, RegisterRequest, RegisterResponse,
  default_exists, default_login, default_register, default_profile,
}
use rpc_base_on_zookeeper.Wire.{Runtime}
use rpc_base_on_zookeeper.Channel.{Connect, new_channel, enable_heartbeat}
use rpc_base_on_zookeeper.Channel.Call.{World}
use rpc_base_on_zookeeper.Server.{Asked, asks_exists, logs_in, registers, asks_profile, Codec}
use rpc_base_on_zookeeper.Client.{UserStub}
use rpc_base_on_zookeeper.Client.Refused.{Refuse}
use rpc_base_on_zookeeper.Client.Channels.{Reads, Link, noticed, ask_user, cache_stub, stats_call}
use rpc_base_on_zookeeper.Client.Channels.Used.{AllUsed, ask_user-used, stubs-Refuse}
use rpc_base_on_zookeeper.Client.Channels.First.{Serves, both-AllUsed}
use rpc_base_on_zookeeper.LoadTest.{Channels, Load, test_integrated_business}
use rpc_base_on_zookeeper.LoadTest.Endings.{test_integrated_business-Within}
use rpc_base_on_zookeeper.LoadTest.Refused.{session_of, login_of, alone-test_integrated_business}

module _ (port : ℕ) (nets : ℕ → Connect) where
  unfoldable pub open_user : Link → Link
  open_user s =
      let (c, h) = enable_heartbeat true (new_channel false port nets).0 s.heartbeat in
      record s { user_channel = c; heartbeat = h }

  unfoldable pub open_cache : Link → Link
  open_cache s =
      let (c, h) = enable_heartbeat true (new_channel false port nets).0 s.heartbeat in
      record s { cache_channel = c; heartbeat = h }

  abbrev pub own_channels : Channels Link
  own_channels = record {
    open_user = open_user;
    open_cache = open_cache;
    delete_user = λ s. s;
    delete_cache = λ s. s;
    ended = λ s. s.ended;
  }

module _ (r : Runtime) (codec : Codec) (meets : ℕ → World) (reads : Reads) where
  -- The calls of the user service with the timeouts of this test.
  abbrev pub users_in_time : UserStub Link
  users_in_time = record {
    login_call = λ q. ask_user r codec meets reads.read_login default_login (pos 5000) (logs_in q);
    register_call =
        λ q. ask_user r codec meets reads.read_register default_register (pos 5000) (registers q);
    profile_call = λ id.
        ask_user r codec meets reads.read_profile default_profile (pos 5000) (asks_profile id);
  }

  in_time-Refuse :
      (default : CacheStatsResponse)
      → Refuse users_in_time
          (cache_stub r codec meets reads)
          (stats_call r codec meets reads default)
          (AllUsed r codec meets)
  in_time-Refuse default =
      let cache_refuses = stubs-Refuse r codec meets reads default in
      record {
        exists_refused = cache_refuses.exists_refused;
        get_refused = cache_refuses.get_refused;
        set_refused = cache_refuses.set_refused;
        stats_refused = cache_refuses.stats_refused;
        login_refused = λ q s used.
            ask_user-used r codec meets reads.read_login default_login (pos 5000) (logs_in q) s
              used;
        register_refused = λ q s used.
            ask_user-used r codec meets reads.read_register default_register (pos 5000)
              (registers q) s used;
        profile_refused = λ id s used.
            ask_user-used r codec meets reads.read_profile default_profile (pos 5000)
              (asks_profile id) s used;
      }

  -- A call behind which the process goes on has not found it ended.
  ask_user-up :
      {R : Type 0} (parses : Bytes → Option R) (default : R) (timeout_ms : ℤ) (q : Asked) (s : Link)
      → (ask_user r codec meets parses default timeout_ms q s).0.ended ≡ false
      → s.ended ≡ false
  unfolding ask_user noticed
  ask_user-up parses default timeout_ms q s e = ground (arith, e)

  -- One request of the default test of the load client, for a thread that no other comes between, in
  -- a process where nothing else opens descriptors. Where the first call of each channel finds its
  -- service, connects and is answered, the session is not there, and the login succeeds, the
  -- request ends and counts one success and two failures, whatever the services and the network do
  -- in its other calls, since they go over the closed descriptors of the first ones.
  pub run-test_integrated_business :
      (port : ℕ) (nets : ℕ → Connect)
      (register_null : RegisterRequest → Link → Link × Option RegisterResponse) (time : Link → ℤ)
      (i : ℕ) (s : Load Link) (ts : List (Prog (Load Link) Unit)) (there : CacheExistsResponse)
      (login : LoginResponse)
      → s.world.ended ≡ false
      → Serves r reads.read_exists
          (pos 3000)
          (asks_exists (session_of i))
          there
          (meets s.world.calls)
      → Serves r reads.read_login
          (pos 5000)
          (logs_in (login_of i))
          login
          (meets (s.world.calls + 1))
      → there.exists ≡ false
      → login.success ≡ true
      → (w : Link) × (run (first_turns 15) s (
            test_integrated_business users_in_time register_null
              (cache_stub r codec meets reads)
              (own_channels port nets)
              time
              i
            ∷ ts)
          ≡ some (
            record {
              world = w;
              success_count = (s.success_count + 1) % 2 ^ 32;
              fail_count = ((s.fail_count + 1) % 2 ^ 32 + 1) % 2 ^ 32;
            },
            returns tt ∷ ts,
          ))
  unfolding open_user open_cache new_channel enable_heartbeat
  run-test_integrated_business port nets register_null time i s ts there login up asked logged
        missing success =
      let cache = cache_stub r codec meets reads in
      let channels = own_channels port nets in
      let default : CacheStatsResponse = record {
        result = default_exists.result;
        total_keys = pos 0;
        memory_usage = pos 0;
        hit_count = pos 0;
        miss_count = pos 0;
        hit_rate = (pos 0, pos 1);
      } in
      let (told, answered, told', answered', used) =
        both-AllUsed r codec meets reads.read_exists reads.read_login default_exists default_login
          (pos 3000) (pos 5000) (asks_exists (session_of i)) (logs_in (login_of i)) there login
          (open_cache port nets (open_user port nets s.world)) refl refl up asked logged in
      let (w, ran) =
        alone-test_integrated_business users_in_time register_null cache channels time
          (stats_call r codec meets reads default) (AllUsed r codec meets) (in_time-Refuse default)
          (λ w all. all.2) i s
          (ask_user-up reads.read_login default_login (pos 5000) (logs_in (login_of i)) _ used.2)
          told (ap (λ a. a.exists) answered ∙ missing) told'
          (ap (λ a. a.success) answered' ∙ success) used in
      (
        w,
        run-alone _ 15 _ s _ tt ts
            (test_integrated_business-Within users_in_time register_null cache channels time i) ran,
      )
