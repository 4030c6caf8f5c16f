-- ===== src/Client/Channels/Told.antt =====
-- What `main` of example/caller/integrated_client.cc is told over its two channels.
use rpc_base_on_zookeeper.Base.{
  Bytes, text, ℕ, ℤ, pos, ◌≡◌, refl, ap, ◌∙◌, true, false, none, [], ◌++◌,
}
use rpc_base_on_zookeeper.Messages.{
  LoginRequest, LoginResponse, CacheExistsResponse, CacheStatsResponse, default_exists,
  default_login,
}
use rpc_base_on_zookeeper.Decimal.{to_string}
use rpc_base_on_zookeeper.Heartbeat.{Heartbeat}
use rpc_base_on_zookeeper.Wire.{Runtime}
use rpc_base_on_zookeeper.Channel.{Connect, new_channel, enable_heartbeat}
use rpc_base_on_zookeeper.Channel.Call.{World}
use rpc_base_on_zookeeper.Server.{asks_exists, logs_in, Codec}
use rpc_base_on_zookeeper.Client.{has_user_session, login_by_call, login_with_cache}
use rpc_base_on_zookeeper.Client.Sessions.{talk}
use rpc_base_on_zookeeper.Client.Refused.{only_first, talk-refused, keep_user_session-refused}
use rpc_base_on_zookeeper.Client.Channels.{Reads, new_client, cache_stub, user_stub, stats_call}
use rpc_base_on_zookeeper.Client.Channels.Used.{AllUsed, stubs-Refuse}
use rpc_base_on_zookeeper.Client.Channels.First.{Serves, both-AllUsed}

abbrev pub session_key : Bytes
session_key = text "session:" ++ text "zhangsan"

abbrev pub credentials : LoginRequest
credentials = record { name = text "zhangsan"; pwd = text "123456" }

module _ (r : Runtime) (codec : Codec) (meets : ℕ → World) (reads : Reads)
    (default : CacheStatsResponse) (port : ℕ) (nets : ℕ → Connect) (h : Heartbeat)
    (there : CacheExistsResponse) (login : LoginResponse) where
  login_with_cache-first :
      (now : ℤ)
      → Serves r reads.read_exists (pos 3000) (asks_exists session_key) there (meets 0)
      → Serves r reads.read_login (pos 10000) (logs_in credentials) login (meets 1)
      → there.exists ≡ false
      → login.result.errcode ≡ pos 0
      → login.success ≡ true
      → let (s, success) =
          login_with_cache
            (user_stub r codec meets reads)
            (cache_stub r codec meets reads)
            (text "zhangsan")
            (text "123456")
            now
            (new_client port nets h) in
        (success ≡ true) × AllUsed r codec meets s
  unfolding login_with_cache has_user_session login_by_call new_client new_channel enable_heartbeat
  login_with_cache-first now asked logged missing right success =
      let s₀ = new_client port nets h in
      let (told, answered, told', answered', used) =
        both-AllUsed r codec meets reads.read_exists reads.read_login default_exists default_login
          (pos 3000) (pos 10000) (asks_exists session_key) (logs_in credentials) there login s₀ refl
          refl refl asked logged in
      let token : Bytes = text "token_" ++ (text "zhangsan" ++ (text "_" ++ to_string now)) in
      simp (told, answered, missing, told', answered', right, success)
        (
          refl,
          keep_user_session-refused (user_stub r codec meets reads) (cache_stub r codec meets reads)
              (stats_call r codec meets reads default) _ (stubs-Refuse r codec meets reads default)
              session_key token (pos 1800) _ used,
        )

  -- The integrated client, over channels as its constructor makes them, in a process where nothing
  -- else opens descriptors. Where the first call of each channel finds its service, connects and is
  -- answered, the session is not there, and the login succeeds, every later call fails, whatever
  -- the services and the network do, since it is sent over the closed descriptor of the first call:
  -- the second login fails, both profiles are empty, the registration fails, and no figures of the
  -- cache are shown.
  pub talk-told :
      (now later : ℤ)
      → Serves r reads.read_exists (pos 3000) (asks_exists session_key) there (meets 0)
      → Serves r reads.read_login (pos 10000) (logs_in credentials) login (meets 1)
      → there.exists ≡ false
      → login.result.errcode ≡ pos 0
      → login.success ≡ true
      → (talk
          (user_stub r codec meets reads)
          (cache_stub r codec meets reads)
          (stats_call r codec meets reads default)
          now
          later
          (new_client port nets h)).1
        ≡ record {
          first_login = true;
          second_login = false;
          first_profile = [];
          second_profile = [];
          registration = false;
          statistics = none;
        }
  talk-told now later asked logged missing right success =
      let (ok, used) = login_with_cache-first now asked logged missing right success in
      talk-refused (user_stub r codec meets reads) (cache_stub r codec meets reads)
        (stats_call r codec meets reads default) (AllUsed r codec meets)
        (stubs-Refuse r codec meets reads default) now later (new_client port nets h) used
      ∙ ap only_first ok
