-- ===== src/Server.antt =====
-- example/callee/Zserver.cc: a server with the cache service and the user service, from the bytes of
-- a request to the bytes of its response. The generated classes of example/user.proto choose the
-- handler of a method; how messages are read and written is a parameter (Codec). `W` is everything
-- that requests change: the cache of this process and what stands behind the user service's stub.
pub mod Requests
pub mod Nodes
pub mod Calls
pub mod Model
mod Runs
mod NodeRuns
use rpc_base_on_zookeeper.Base.{
  Bytes, text, ℕ, ℤ, Bool, true, false, Option, none, some, is_some, List, [], ◌∷◌, ◌++◌,
}
use rpc_base_on_zookeeper.Table.{Table}
use rpc_base_on_zookeeper.Messages.{
  ResultCode, CacheSetRequest, CacheGetResponse, CacheExistsResponse, CacheBatchGetResponse,
  CacheStatsResponse, LoginRequest, LoginResponse, RegisterRequest, RegisterResponse,
  SumToNResponse, GetUserProfileResponse,
}
use rpc_base_on_zookeeper.Application.{Opt, init}
use rpc_base_on_zookeeper.Wire.{Runtime}
use rpc_base_on_zookeeper.ZkClient.{ZooKeeper, Run, exits}
use rpc_base_on_zookeeper.Provider.{
  Service, ServiceInfo, Reaction, calls, notify_service, run, on_message, send_rpc_response,
}
use rpc_base_on_zookeeper.Cache.{Cache, set, get, delete, exists, batch_get, get_stats}
use rpc_base_on_zookeeper.User.{Stub, login, register, sum_to_n, get_user_profile}

pub data Method : Type 0 where
  set_method get_method delete_method exists_method batch_get_method get_stats_method : Method
  login_method register_method sum_method profile_method : Method

unfoldable pub cache_service : Service Method
cache_service = record {
  name = text "CacheServiceRpc";
  methods =
      (text "Set", set_method)
      ∷ (text "Get", get_method)
      ∷ (text "Delete", delete_method)
      ∷ (text "Exists", exists_method)
      ∷ (text "BatchGet", batch_get_method)
      ∷ (text "GetStats", get_stats_method)
      ∷ [];
}

unfoldable pub user_service : Service Method
user_service = record {
  name = text "UserServiceRpc";
  methods =
      (text "Login", login_method)
      ∷ (text "Register", register_method)
      ∷ (text "SumtoN", sum_method)
      ∷ (text "GetUserProfile", profile_method)
      ∷ [];
}

-- The registrations of `main`.
unfoldable pub service_map : Table (ServiceInfo Method)
service_map = notify_service user_service (notify_service cache_service [])

-- `main`: Init, the registrations, and Run up to its event loop. `none` is the exit of Init.
unfoldable pub main :
    {Z : Type 0}
    → ZooKeeper Z
    → (List Bytes → List Opt)
    → (Bytes → Option Bytes)
    → List Bytes
    → Table Bytes
    → Z
    → Option (Run Z)
main zk getopt files argv m z = elim (init getopt files argv m) [
  | none ↦ none
  | some config ↦ some (run zk config service_map z)
]

-- A request with its method, and a response.
pub data Asked : Type 0 where
  sets : CacheSetRequest → Asked
  gets deletes asks_exists : Bytes → Asked
  gets_batch : List Bytes → Asked
  asks_stats : Asked
  logs_in : LoginRequest → Asked
  registers : RegisterRequest → Asked
  sums : ℤ → Asked
  asks_profile : ℕ → Asked

pub data Answered : Type 0 where
  done : ResultCode → Answered
  got : CacheGetResponse → Answered
  there : CacheExistsResponse → Answered
  batch : CacheBatchGetResponse → Answered
  stats : CacheStatsResponse → Answered
  admitted : LoginResponse → Answered
  registered : RegisterResponse → Answered
  summed : SumToNResponse → Answered
  profiled : GetUserProfileResponse → Answered

abbrev pub method_of : Asked → Method
method_of (sets r) = set_method
method_of (gets k) = get_method
method_of (deletes k) = delete_method
method_of (asks_exists k) = exists_method
method_of (gets_batch ks) = batch_get_method
method_of asks_stats = get_stats_method
method_of (logs_in r) = login_method
method_of (registers r) = register_method
method_of (sums n) = sum_method
method_of (asks_profile id) = profile_method

-- The messages' ParseFromString and SerializeToString.
pub record Codec : Type 0 where
  pub serialize_request : Asked → Bytes
  pub parse_request : Method → Bytes → Option Asked
  pub serialize_response : Answered → Option Bytes

abbrev pub parses : Codec → Method → Bytes → Bool
parses codec m args = is_some (codec.parse_request m args)

-- The readings of the clocks while a request is served.
pub record Moment : Type 0 where
  pub steady : ℕ → ℕ
  pub time : ℤ

module _ {W : Type 0} (cache_of : W → Cache) (put_cache : Cache → W → W) (stub : Stub W)
    (enabled : Bool) (entry_size : ℕ) where
  abbrev on_cache : {R : Type 0} → (Cache → Cache × R) → W → W × R
  on_cache f w = let (c, response) = f (cache_of w) in (put_cache c w, response)

  -- The handler of the request's method.
  unfoldable pub handle : Asked → Moment → W → W × Answered
  handle (sets r) t w = let (w', a) = on_cache (set r (t.steady 0)) w in (w', done a)
  handle (gets k) t w = let (w', a) = on_cache (get k (t.steady 0)) w in (w', got a)
  handle (deletes k) t w = let (w', a) = on_cache (delete k) w in (w', done a)
  handle (asks_exists k) t w = let (w', a) = on_cache (exists k (t.steady 0)) w in (w', there a)
  handle (gets_batch ks) t w = let (w', a) = on_cache (batch_get ks t.steady) w in (w', batch a)
  handle asks_stats t w = let (w', a) = on_cache (get_stats entry_size) w in (w', stats a)
  handle (logs_in r) t w = let (w', a) = login stub enabled r t.time w in (w', admitted a)
  handle (registers r) t w = let (w', a) = register stub enabled r w in (w', registered a)
  handle (sums n) t w = let (w', a) = sum_to_n stub enabled n w in (w', summed a)
  handle (asks_profile id) t w =
      let (w', a) = get_user_profile stub enabled id w in (w', profiled a)

  module _ (r : Runtime) (codec : Codec) where
    -- The generated CallMethod and its callback.
    unfoldable pub call_handler : Option Asked → Moment → W → W × List Bytes
    call_handler none t w = (w, [])
    call_handler (some q) t w =
        let (w', a) = handle q t w in (w', send_rpc_response (codec.serialize_response a))

    unfoldable pub react : Reaction Method → Moment → W → W × List Bytes
    react (calls service method args) t w = call_handler (codec.parse_request method args) t w
    react _ t w = (w, [])

    -- What the server sends back for what has arrived.
    unfoldable pub serve : Bytes → Moment → W → W × List Bytes
    serve recv_buf t w = react (on_message r (parses codec) recv_buf service_map) t w

    unfoldable pub serve_all : List (Bytes × Moment) → W → W × List Bytes
    serve_all [] w = (w, [])
    serve_all ((recv_buf, t) ∷ more) w =
        let (w', out) = serve recv_buf t w in
        let (w'', out') = serve_all more w' in (w'', out ++ out')
