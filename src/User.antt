-- ===== src/User.antt =====
-- example/callee/UserService.cc and UserService.h: the user service, which keeps sessions, sums and
-- profiles in the cache service. The generated stub of the cache service is a parameter: each call
-- gives the stub's new state, whether the controller of the call has failed, and the response.
-- Logging, printing and the simulated delay are left out.
pub mod Sums
pub mod Keys
pub mod Answers
pub mod Model
mod Runs
use rpc_base_on_zookeeper.Base.{
  Bytes, text, ℕ, zero, suc, ◌+◌, ◌-◌, ◌%◌, ◌^◌, ℤ, pos, negsuc, Bool, true, false, not, ◌&&◌, [],
  ◌∷◌, ◌++◌, ltb, if◌then◌else◌,
}
use rpc_base_on_zookeeper.Decimal.{to_string, atoi}
use rpc_base_on_zookeeper.Messages.{
  ResultCode, CacheSetRequest, CacheGetResponse, CacheExistsResponse, LoginRequest, LoginResponse,
  RegisterRequest, RegisterResponse, SumToNResponse, GetUserProfileResponse,
}

pub record Stub (S : Type 0) : Type 0 where
  pub get_call : Bytes → S → S × Bool × CacheGetResponse
  pub set_call : CacheSetRequest → S → S × Bool
  pub exists_call : Bytes → S → S × Bool × CacheExistsResponse
  pub delete_call : Bytes → S → S × Bool

unfoldable pub make_session_key : Bytes → Bytes
make_session_key username = text "session:" ++ username

unfoldable pub make_profile_key : ℕ → Bytes
make_profile_key user_id = text "profile:" ++ to_string (pos user_id)

unfoldable pub sum_key : ℤ → Bytes
sum_key n = text "sum_1_to_" ++ to_string n

-- The local methods.
unfoldable pub local_login : Bytes → Bytes → Bool
local_login name pwd = true

unfoldable pub local_register : ℕ → Bytes → Bytes → Bool
local_register id name pwd = true

-- A pattern of 32 bits as an `int`.
unfoldable pub int32 : ℕ → ℤ
int32 x = if ltb x (2 ^ 31) then pos x else negsuc (2 ^ 32 - 1 - x)

-- The loop over `i`, so many rounds of it. A sum that is too large wraps, as compilers do it; the
-- language leaves it open.
unfoldable pub sum_loop : ℕ → ℕ → ℕ → ℕ
sum_loop zero i sum = sum
sum_loop (suc rounds) i sum = sum_loop rounds (suc i) ((sum + i) % 2 ^ 32)

unfoldable pub local_sum_to_n : ℤ → ℤ
local_sum_to_n (pos n) = int32 (sum_loop n 1 0)
local_sum_to_n (negsuc n) = pos 0

unfoldable pub local_get_user_profile : ℕ → Bytes
local_get_user_profile user_id =
    let id = to_string (pos user_id) in
    text "{\"id\":"
    ++ (id
        ++ (text ",\"name\":\"User"
            ++ (id ++ (text "\",\"age\":25,\"email\":\"user" ++ (id ++ text "@example.com\"}")))))

unfoldable pub create_login_session : Bytes → Bytes → Bool
create_login_session username token = true

abbrev result_of : Bytes → ResultCode
result_of errmsg = record { errcode = pos 0; errmsg = errmsg }

-- `enabled` is `cache_enabled_`.
module _ {S : Type 0} (stub : Stub S) (enabled : Bool) where
  unfoldable pub check_user_session : Bytes → S → S × Bool
  check_user_session username s =
      if not enabled
      then (s, false)
      else (let (s', failed, response) = stub.exists_call (make_session_key username) s in
          (s', not failed && response.exists))

  unfoldable pub cache_user_session : Bytes → Bytes → ℤ → S → S
  cache_user_session username token expire_seconds s =
      if not enabled
      then s
      else (stub.set_call
          (record {
            key = make_session_key username;
            value = token;
            expire_seconds = expire_seconds;
          })
          s).0

  unfoldable pub get_user_profile_from_cache : ℕ → S → S × Bytes
  get_user_profile_from_cache user_id s =
      if not enabled
      then (s, [])
      else (let (s', failed, response) = stub.get_call (make_profile_key user_id) s in
          (s', if not failed && response.exists then response.value else []))

  unfoldable pub cache_user_profile : ℕ → Bytes → ℤ → S → S
  cache_user_profile user_id profile_data expire_seconds s =
      if not enabled
      then s
      else (stub.set_call
          (record {
            key = make_profile_key user_id;
            value = profile_data;
            expire_seconds = expire_seconds;
          })
          s).0

  unfoldable pub invalidate_user_cache : ℕ → S → S
  invalidate_user_cache user_id s =
      if not enabled then s else (stub.delete_call (make_profile_key user_id) s).0

  -- The part of Login behind a session that is not there; `now` is `time(nullptr)`.
  unfoldable pub login_afresh : LoginRequest → ℤ → S → S × LoginResponse
  login_afresh request now s =
      let login_result = local_login request.name request.pwd in
      let session_token = text "session_" ++ (request.name ++ (text "_" ++ to_string now)) in
      (
        if login_result && enabled
            then cache_user_session request.name session_token (pos 1800) s
            else s,
        record { result = result_of []; success = login_result },
      )

  unfoldable pub login : LoginRequest → ℤ → S → S × LoginResponse
  login request now s =
      let (s', there) = if enabled then check_user_session request.name s else (s, false) in
      if there
      then (s', record { result = result_of (text "Login from cached session"); success = true })
      else login_afresh request now s'

  unfoldable pub register : RegisterRequest → S → S × RegisterResponse
  register request s =
      let register_result = local_register request.id request.name request.pwd in
      (
        if register_result && enabled then invalidate_user_cache request.id s else s,
        record { result = result_of []; success = register_result },
      )

  -- The part of SumtoN behind a miss.
  unfoldable pub sum_afresh : ℤ → S → S × SumToNResponse
  sum_afresh n s =
      let sum_result = local_sum_to_n n in
      (
        if enabled
            then (stub.set_call
                (record {
                  key = sum_key n;
                  value = to_string sum_result;
                  expire_seconds = pos 3600;
                })
                s).0
            else s,
        record { result = result_of []; sum = sum_result },
      )

  unfoldable pub sum_to_n : ℤ → S → S × SumToNResponse
  sum_to_n n s =
      let (s', failed, response) = stub.get_call (sum_key n) s in
      if not enabled
      then sum_afresh n s
      else if not failed && response.exists
      then (s', record { result = result_of (text "Result from cache"); sum = atoi response.value })
      else sum_afresh n s'

  unfoldable pub profile_afresh : ℕ → S → S × GetUserProfileResponse
  profile_afresh user_id s =
      let profile_data = local_get_user_profile user_id in
      (
        if enabled then cache_user_profile user_id profile_data (pos 600) s else s,
        record { result = result_of []; profile_data = profile_data; from_cache = false },
      )

  -- A text from the cache counts if it is not empty.
  unfoldable pub profile_found : Bytes → ℕ → S → S × GetUserProfileResponse
  profile_found [] user_id s = profile_afresh user_id s
  profile_found (c ∷ t) user_id s = (
    s,
    record {
      result = result_of (text "Profile from cache");
      profile_data = c ∷ t;
      from_cache = true;
    },
  )

  unfoldable pub get_user_profile : ℕ → S → S × GetUserProfileResponse
  get_user_profile user_id s =
      let (s', cached_profile) = get_user_profile_from_cache user_id s in
      profile_found cached_profile user_id s'
