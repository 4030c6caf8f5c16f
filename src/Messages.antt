-- ===== src/Messages.antt =====
-- The messages of example/user.proto, as the generated classes hold them: a field that a handler
-- does not set keeps its proto3 default, and a request is a plain record of its fields.
use rpc_base_on_zookeeper.Base.{Bytes, ℕ, ℤ, pos, Bool, false, List, []}

pub record ResultCode : Type 0 where
  pub errcode : ℤ
  pub errmsg : Bytes

abbrev pub default_result : ResultCode
default_result = record { errcode = pos 0; errmsg = [] }

pub record CacheSetRequest : Type 0 where
  pub key : Bytes
  pub value : Bytes
  pub expire_seconds : ℤ

pub record CacheGetResponse : Type 0 where
  pub result : ResultCode
  pub value : Bytes
  pub exists : Bool
  pub expire_time : ℤ

abbrev pub default_get : CacheGetResponse
default_get = record { result = default_result; value = []; exists = false; expire_time = pos 0 }

pub record CacheExistsResponse : Type 0 where
  pub result : ResultCode
  pub exists : Bool

abbrev pub default_exists : CacheExistsResponse
default_exists = record { result = default_result; exists = false }

pub record CacheItem : Type 0 where
  pub key : Bytes
  pub value : Bytes
  pub exists : Bool

pub record CacheBatchGetResponse : Type 0 where
  pub result : ResultCode
  pub items : List CacheItem

-- `hit_rate` is the quotient before its rounding to a double: numerator and denominator.
pub record CacheStatsResponse : Type 0 where
  pub result : ResultCode
  pub total_keys : ℤ
  pub memory_usage : ℤ
  pub hit_count : ℤ
  pub miss_count : ℤ
  pub hit_rate : ℤ × ℤ

pub record LoginRequest : Type 0 where
  pub name : Bytes
  pub pwd : Bytes

pub record LoginResponse : Type 0 where
  pub result : ResultCode
  pub success : Bool

abbrev pub default_login : LoginResponse
default_login = record { result = default_result; success = false }

pub record RegisterRequest : Type 0 where
  pub id : ℕ
  pub name : Bytes
  pub pwd : Bytes

pub record RegisterResponse : Type 0 where
  pub result : ResultCode
  pub success : Bool

abbrev pub default_register : RegisterResponse
default_register = record { result = default_result; success = false }

pub record SumToNResponse : Type 0 where
  pub result : ResultCode
  pub sum : ℤ

pub record GetUserProfileResponse : Type 0 where
  pub result : ResultCode
  pub profile_data : Bytes
  pub from_cache : Bool

abbrev pub default_profile : GetUserProfileResponse
default_profile = record { result = default_result; profile_data = []; from_cache = false }
