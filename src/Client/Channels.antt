-- ===== src/Client/Channels.antt =====
-- The stubs of example/caller/integrated_client.cc over its two channels (src/Zrpcchannel.cc): every call
-- makes a controller, and goes over the channel of its stub. What the network does in each call is a
-- parameter, but that send fails on a descriptor that is not open. Descriptors that others in the
-- process open are left out.
pub mod Used
pub mod First
pub mod Told
pub mod Model
mod Runs
use rpc_base_on_zookeeper.Base.{
  Bytes, ℕ, ◌+◌, ℤ, pos, eqbℤ, Bool, true, false, not, ◌&&◌, ◌||◌, Option, none, some, List,
}
use rpc_base_on_zookeeper.Messages.{
  ResultCode, default_result, CacheGetResponse, default_get, CacheExistsResponse, default_exists,
  CacheStatsResponse, LoginResponse, default_login, RegisterResponse, default_register,
  GetUserProfileResponse, default_profile,
}
use rpc_base_on_zookeeper.Controller.{new_controller, set_timeout}
use rpc_base_on_zookeeper.Heartbeat.{Heartbeat}
use rpc_base_on_zookeeper.Wire.{Runtime}
use rpc_base_on_zookeeper.Channel.{Channel, Connect, no_fd, new_channel, enable_heartbeat}
use rpc_base_on_zookeeper.Channel.Call.{
  World, Outcome, returned, threw, crashed, Result, call_method,
}
use rpc_base_on_zookeeper.Channel.Closed.{after}
use rpc_base_on_zookeeper.Channel.Reports.{is_failed}
use rpc_base_on_zookeeper.Server.{
  Asked, sets, gets, deletes, asks_exists, asks_stats, logs_in, registers, asks_profile, Codec,
}
use rpc_base_on_zookeeper.Server.Requests.{service_of, name_of}
use rpc_base_on_zookeeper.User.{Stub}
use rpc_base_on_zookeeper.Client.{UserStub}

-- The responses' ParseFromArray.
pub record Reads : Type 0 where
  pub read_result : Bytes → Option ResultCode
  pub read_get : Bytes → Option CacheGetResponse
  pub read_exists : Bytes → Option CacheExistsResponse
  pub read_stats : Bytes → Option CacheStatsResponse
  pub read_login : Bytes → Option LoginResponse
  pub read_register : Bytes → Option RegisterResponse
  pub read_profile : Bytes → Option GetUserProfileResponse

-- `calls` counts the calls so far; `ended` says that one of them has ended the process.
pub record Link : Type 0 where
  pub user_channel : Channel
  pub cache_channel : Channel
  pub heartbeat : Heartbeat
  pub is_open : ℤ → Bool
  pub calls : ℕ
  pub ended : Bool

-- The constructor of IntegratedClient, at the start of the process.
unfoldable pub new_client : ℕ → (ℕ → Connect) → Heartbeat → Link
new_client port nets h =
    let (user_channel, h') = enable_heartbeat true (new_channel false port nets).0 h in
    let (cache_channel, h'') = enable_heartbeat true (new_channel false port nets).0 h' in
    record {
      user_channel = user_channel;
      cache_channel = cache_channel;
      heartbeat = h'';
      is_open = λ fd. false;
      calls = 0;
      ended = false;
    }

ends : Outcome → Bool
ends returned = false
ends threw = true
ends crashed = true

-- A response that the call has not read keeps its defaults.
abbrev pub read_or : {R : Type 0} → R → Option R → R
read_or default none = default
read_or default (some response) = response

module _ (r : Runtime) (codec : Codec) (meets : ℕ → World) where
  unfoldable pub met : Channel → Link → World
  met c s =
      let w = meets s.calls in
      record w { sends = (eqbℤ no_fd c.clientfd || s.is_open c.clientfd) && w.sends }

  unfoldable pub ask : {R : Type 0} → (Bytes → Option R) → ℤ → Asked → Channel → Link → Result R
  ask parses timeout_ms q c s =
      call_method r parses (met c s) (record { service = (service_of q).name; name = name_of q })
        (some (set_timeout timeout_ms new_controller)) (some (codec.serialize_request q)) c
        s.heartbeat

  unfoldable pub noticed : {R : Type 0} → Result R → Link → Link
  unfolding ends
  noticed x s = record s {
    heartbeat = x.heartbeat;
    is_open = after x.events s.is_open;
    calls = s.calls + 1;
    ended = s.ended || ends x.outcome;
  }

  unfoldable pub ask_cache :
      {R : Type 0} → (Bytes → Option R) → R → ℤ → Asked → Link → Link × Bool × R
  ask_cache parses default timeout_ms q s =
      let x = ask parses timeout_ms q s.cache_channel s in
      (
        record (noticed x s) { cache_channel = x.channel },
        is_failed x.controller,
        read_or default x.response,
      )

  unfoldable pub ask_user :
      {R : Type 0} → (Bytes → Option R) → R → ℤ → Asked → Link → Link × Bool × R
  ask_user parses default timeout_ms q s =
      let x = ask parses timeout_ms q s.user_channel s in
      (
        record (noticed x s) { user_channel = x.channel },
        is_failed x.controller,
        read_or default x.response,
      )

  abbrev without_result : Link × Bool × ResultCode → Link × Bool
  without_result (s, failed, result) = (s, failed)

  module _ (reads : Reads) where
    abbrev pub cache_stub : Stub Link
    cache_stub = record {
      get_call = λ k. ask_cache reads.read_get default_get (pos 3000) (gets k);
      set_call =
          λ q s. without_result (ask_cache reads.read_result default_result (pos 3000) (sets q) s);
      exists_call = λ k. ask_cache reads.read_exists default_exists (pos 3000) (asks_exists k);
      delete_call = λ k s.
          without_result (ask_cache reads.read_result default_result (pos 3000) (deletes k) s);
    }

    abbrev pub user_stub : UserStub Link
    user_stub = record {
      login_call = λ q. ask_user reads.read_login default_login (pos 10000) (logs_in q);
      register_call = λ q. ask_user reads.read_register default_register (pos 10000) (registers q);
      profile_call = λ id. ask_user reads.read_profile default_profile (pos 5000) (asks_profile id);
    }

    abbrev pub stats_call : CacheStatsResponse → Link → Link × Bool × CacheStatsResponse
    stats_call default = ask_cache reads.read_stats default (pos 5000) asks_stats
