-- ===== src/Client.antt =====
-- example/caller/integrated_client.cc: a client of the user service that keeps what it learns in the
-- cache service. Both stubs are parameters, over one state of everything behind them. Logging is
-- left out.
pub mod Answers
pub mod Model
pub mod Sessions
pub mod Refused
pub mod Channels
mod Runs
use rpc_base_on_zookeeper.Base.{
  Bytes, text, ℕ, ℤ, pos, eqbℤ, Bool, true, false, not, ◌&&◌, [], ◌∷◌, ◌++◌, if◌then◌else◌,
}
use rpc_base_on_zookeeper.Decimal.{to_string}
use rpc_base_on_zookeeper.Messages.{
  CacheSetRequest, LoginRequest, LoginResponse, RegisterRequest, RegisterResponse,
  GetUserProfileResponse,
}
use rpc_base_on_zookeeper.User.{Stub}

-- The stub of the user service: whether the controller has failed, and the response.
pub record UserStub (W : Type 0) : Type 0 where
  pub login_call : LoginRequest → W → W × Bool × LoginResponse
  pub register_call : RegisterRequest → W → W × Bool × RegisterResponse
  pub profile_call : ℕ → W → W × Bool × GetUserProfileResponse

module _ {W : Type 0} (users : UserStub W) (cache : Stub W) where
  unfoldable pub has_user_session : Bytes → W → W × Bool
  has_user_session session_key w =
      let (w', failed, response) = cache.exists_call session_key w in
      (w', not failed && response.exists)

  unfoldable pub keep_user_session : Bytes → Bytes → ℤ → W → W
  keep_user_session key token expire_seconds w =
      (cache.set_call (record { key = key; value = token; expire_seconds = expire_seconds }) w).0

  unfoldable pub get_from_cache : Bytes → W → W × Bytes
  get_from_cache key w =
      let (w', failed, response) = cache.get_call key w in
      (w', if not failed && response.exists then response.value else [])

  unfoldable pub set_to_cache : Bytes → Bytes → ℤ → W → W
  set_to_cache key value expire_seconds w =
      (cache.set_call (record { key = key; value = value; expire_seconds = expire_seconds }) w).0

  unfoldable pub delete_from_cache : Bytes → W → W
  delete_from_cache key w = (cache.delete_call key w).0

  -- The part of LoginWithCache behind a session that is not there; `now` is `time(nullptr)`.
  unfoldable pub login_by_call : Bytes → Bytes → ℤ → W → W × Bool
  login_by_call username password now w =
      let (w', failed, response) =
        users.login_call (record { name = username; pwd = password }) w in
      let session_token = text "token_" ++ (username ++ (text "_" ++ to_string now)) in
      if failed
      then (w', false)
      else if eqbℤ response.result.errcode (pos 0) && response.success
      then (keep_user_session (text "session:" ++ username) session_token (pos 1800) w', true)
      else (w', false)

  unfoldable pub login_with_cache : Bytes → Bytes → ℤ → W → W × Bool
  login_with_cache username password now w =
      let (w', there) = has_user_session (text "session:" ++ username) w in
      if there then (w', true) else login_by_call username password now w'

  -- The part of GetUserProfileWithCache behind a miss.
  unfoldable pub profile_by_call : ℕ → W → W × Bytes
  profile_by_call user_id w =
      let (w', failed, response) = users.profile_call user_id w in
      let profile = response.profile_data in
      if failed
      then (w', [])
      else if eqbℤ response.result.errcode (pos 0)
      then (set_to_cache (text "profile:" ++ to_string (pos user_id)) profile (pos 600) w', profile)
      else (w', [])

  unfoldable pub profile_known : Bytes → ℕ → W → W × Bytes
  profile_known [] user_id w = profile_by_call user_id w
  profile_known (c ∷ t) user_id w = (w, c ∷ t)

  unfoldable pub get_user_profile_with_cache : ℕ → W → W × Bytes
  get_user_profile_with_cache user_id w =
      let (w', cached_profile) = get_from_cache (text "profile:" ++ to_string (pos user_id)) w in
      profile_known cached_profile user_id w'

  unfoldable pub register_with_cache_invalidation : ℕ → Bytes → Bytes → W → W × Bool
  register_with_cache_invalidation user_id username password w =
      let (w', failed, response) =
        users.register_call (record { id = user_id; name = username; pwd = password }) w in
      if failed
      then (w', false)
      else if eqbℤ response.result.errcode (pos 0) && response.success
      then (delete_from_cache (text "profile:" ++ to_string (pos user_id)) w', true)
      else (w', false)
