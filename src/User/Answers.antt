-- ===== src/User/Answers.antt =====
-- The answers of example/callee/UserService.cc with a cache against its local methods.
use rpc_base_on_zookeeper.Base.{
  Bytes, ℕ, ℤ, pos, ◌≡◌, refl, ap, ◌∙◌, Bool, true, false, not, ◌&&◌, List, [], ◌∷◌, arith,
  Bool-cases, ◌⊎◌, inl, inr,
}
use rpc_base_on_zookeeper.Decimal.{atoi, atoi-to_string}
use rpc_base_on_zookeeper.Messages.{CacheSetRequest, LoginRequest, RegisterRequest}
use rpc_base_on_zookeeper.User.{
  Stub, login, register, sum_to_n, get_user_profile, local_login, local_register, local_sum_to_n,
  local_get_user_profile, check_user_session, login_afresh, cache_user_session,
  invalidate_user_cache, sum_afresh, profile_afresh, profile_found, cache_user_profile,
  get_user_profile_from_cache, make_session_key, make_profile_key, sum_key,
}
use rpc_base_on_zookeeper.User.Keys.{IsRight, session-IsRight, sum-IsRight, profile-IsRight}

-- What the service relies on of the cache behind the stub: in terms of "each value that it may yet
-- give is right", a call may fail or miss, a value that it gives is right, and a right value that is
-- stored leaves it so.
pub record StubLaws {S : Type 0} (stub : Stub S) (Holds : (Bytes → Bytes → Type 0) → S → Type 0)
    : Type 1 where
  pub get_keeps :
      (P : Bytes → Bytes → Type 0) (k : Bytes) (s : S) → Holds P s → Holds P (stub.get_call k s).0
  pub get_right :
      (P : Bytes → Bytes → Type 0) (k : Bytes) (s : S)
      → Holds P s
      → (stub.get_call k s).1 ≡ false
      → (stub.get_call k s).2.exists ≡ true
      → P k (stub.get_call k s).2.value
  pub set_keeps :
      (P : Bytes → Bytes → Type 0) (r : CacheSetRequest) (s : S)
      → Holds P s
      → P r.key r.value
      → Holds P (stub.set_call r s).0
  pub exists_keeps :
      (P : Bytes → Bytes → Type 0) (k : Bytes) (s : S)
      → Holds P s
      → Holds P (stub.exists_call k s).0
  pub delete_keeps :
      (P : Bytes → Bytes → Type 0) (k : Bytes) (s : S)
      → Holds P s
      → Holds P (stub.delete_call k s).0

-- A request to the service; a login with the time at which it comes.
pub data UserRequest : Type 0 where
  logs_in : LoginRequest → ℤ → UserRequest
  registers : RegisterRequest → UserRequest
  sums : ℤ → UserRequest
  asks_profile : ℕ → UserRequest

-- What a client learns, but for the notes on whether the cache was used.
pub data UserAnswer : Type 0 where
  admitted : Bool → UserAnswer
  summed : ℤ → UserAnswer
  profiled : Bytes → UserAnswer

-- The local methods alone.
unfoldable pub local_answer : UserRequest → UserAnswer
local_answer (logs_in r now) = admitted (local_login r.name r.pwd)
local_answer (registers r) = admitted (local_register r.id r.name r.pwd)
local_answer (sums n) = summed (local_sum_to_n n)
local_answer (asks_profile id) = profiled (local_get_user_profile id)

module _ {S : Type 0} (stub : Stub S) (enabled : Bool) where
  unfoldable pub user_answer : UserRequest → S → S × UserAnswer
  user_answer (logs_in r now) s =
      let (s', a) = login stub enabled r now s in (s', admitted a.success)
  user_answer (registers r) s = let (s', a) = register stub enabled r s in (s', admitted a.success)
  user_answer (sums n) s = let (s', a) = sum_to_n stub enabled n s in (s', summed a.sum)
  user_answer (asks_profile id) s =
      let (s', a) = get_user_profile stub enabled id s in (s', profiled a.profile_data)

  unfoldable pub user_answers : List UserRequest → S → List UserAnswer
  user_answers [] s = []
  user_answers (r ∷ rs) s = let (s', a) = user_answer r s in a ∷ user_answers rs s'

pub local_answers : List UserRequest → List UserAnswer
local_answers [] = []
local_answers (r ∷ rs) = local_answer r ∷ local_answers rs

module _ {S : Type 0} (stub : Stub S) (Holds : (Bytes → Bytes → Type 0) → S → Type 0)
    (laws : StubLaws stub Holds) where
  cache_user_session-Holds :
      (enabled : Bool) (u token : Bytes) (seconds : ℤ) (s : S)
      → Holds IsRight s
      → Holds IsRight (cache_user_session stub enabled u token seconds s)
  unfolding cache_user_session
  cache_user_session-Holds true u token seconds s h =
      laws.set_keeps IsRight _ s h (session-IsRight u token)
  cache_user_session-Holds false u token seconds s h = h

  login_afresh-Holds :
      (enabled : Bool) (r : LoginRequest) (now : ℤ) (s : S)
      → Holds IsRight s
      → let (s', a) = login_afresh stub enabled r now s in
        Holds IsRight s' × (a.success ≡ local_login r.name r.pwd)
  unfolding login_afresh local_login
  login_afresh-Holds true r now s h = (cache_user_session-Holds true r.name _ (pos 1800) s h, refl)
  login_afresh-Holds false r now s h = (h, refl)

  pub login-Holds :
      (enabled : Bool) (r : LoginRequest) (now : ℤ) (s : S)
      → Holds IsRight s
      → let (s', a) = login stub enabled r now s in
        Holds IsRight s' × (a.success ≡ local_login r.name r.pwd)
  unfolding login check_user_session local_login
  login-Holds false r now s h = login_afresh-Holds false r now s h
  login-Holds true r now s h =
      let key = make_session_key r.name in
      let kept = laws.exists_keeps IsRight key s h in
      let (s', failed, response) = stub.exists_call key s in
      elim (Bool-cases (not failed && response.exists)) [
        | inl there ↦ rw there (kept, refl)
        | inr missing ↦ rw missing (login_afresh-Holds true r now s' kept)
      ]

  pub register-Holds :
      (enabled : Bool) (r : RegisterRequest) (s : S)
      → Holds IsRight s
      → let (s', a) = register stub enabled r s in
        Holds IsRight s' × (a.success ≡ local_register r.id r.name r.pwd)
  unfolding register invalidate_user_cache local_register
  register-Holds true r s h = (laws.delete_keeps IsRight (make_profile_key r.id) s h, refl)
  register-Holds false r s h = (h, refl)

  sum_afresh-Holds :
      (enabled : Bool) (n : ℤ) (s : S)
      → Holds IsRight s
      → let (s', a) = sum_afresh stub enabled n s in Holds IsRight s' × (a.sum ≡ local_sum_to_n n)
  unfolding sum_afresh
  sum_afresh-Holds true n s h = (laws.set_keeps IsRight _ s h (sum-IsRight n), refl)
  sum_afresh-Holds false n s h = (h, refl)

  sum_to_n-Holds :
      (enabled : Bool) (n : ℤ) (s : S)
      → Holds IsRight s
      → let (s', a) = sum_to_n stub enabled n s in Holds IsRight s' × (a.sum ≡ local_sum_to_n n)
  unfolding sum_to_n
  sum_to_n-Holds false n s h = sum_afresh-Holds false n s h
  sum_to_n-Holds true n s h =
      let kept = laws.get_keeps IsRight (sum_key n) s h in
      let (s', failed, response) = stub.get_call (sum_key n) s in
      elim (Bool-cases (not failed && response.exists)) [
        | inl hit ↦
            let right =
              laws.get_right IsRight (sum_key n) s h (ground (arith, hit)) (ground (arith, hit)) in
            rw hit (kept, ap atoi (right.sum n refl) ∙ atoi-to_string (local_sum_to_n n))
        | inr miss ↦ rw miss (sum_afresh-Holds true n s' kept)
      ]

  profile_afresh-Holds :
      (enabled : Bool) (id : ℕ) (s : S)
      → Holds IsRight s
      → let (s', a) = profile_afresh stub enabled id s in
        Holds IsRight s' × (a.profile_data ≡ local_get_user_profile id)
  unfolding profile_afresh cache_user_profile
  profile_afresh-Holds true id s h = (laws.set_keeps IsRight _ s h (profile-IsRight id), refl)
  profile_afresh-Holds false id s h = (h, refl)

  profile_found-Holds :
      (enabled : Bool) (cached : Bytes) (id : ℕ) (s : S)
      → Holds IsRight s
      → (cached ≡ []) ⊎ (cached ≡ local_get_user_profile id)
      → let (s', a) = profile_found stub enabled cached id s in
        Holds IsRight s' × (a.profile_data ≡ local_get_user_profile id)
  unfolding profile_found
  profile_found-Holds enabled [] id s h c = profile_afresh-Holds enabled id s h
  profile_found-Holds enabled (b ∷ t) id s h (inl e) = cc
  profile_found-Holds enabled (b ∷ t) id s h (inr e) = (h, e)

  pub get_user_profile-Holds :
      (enabled : Bool) (id : ℕ) (s : S)
      → Holds IsRight s
      → let (s', a) = get_user_profile stub enabled id s in
        Holds IsRight s' × (a.profile_data ≡ local_get_user_profile id)
  unfolding get_user_profile get_user_profile_from_cache
  get_user_profile-Holds false id s h = profile_found-Holds false [] id s h (inl refl)
  get_user_profile-Holds true id s h =
      let key = make_profile_key id in
      let kept = laws.get_keeps IsRight key s h in
      let (s', failed, response) = stub.get_call key s in
      elim (Bool-cases (not failed && response.exists)) [
        | inl hit ↦
            let right =
              laws.get_right IsRight key s h (ground (arith, hit)) (ground (arith, hit)) in
            rw hit
              (profile_found-Holds true response.value id s' kept (inr (right.profile id refl)))
        | inr miss ↦ rw miss (profile_found-Holds true [] id s' kept (inl refl))
      ]

  user_answer-Holds :
      (enabled : Bool) (r : UserRequest) (s : S)
      → Holds IsRight s
      → let (s', a) = user_answer stub enabled r s in Holds IsRight s' × (a ≡ local_answer r)
  unfolding user_answer local_answer
  user_answer-Holds enabled (logs_in r now) s h =
      let (kept, e) = login-Holds enabled r now s h in (kept, ap admitted e)
  user_answer-Holds enabled (registers r) s h =
      let (kept, e) = register-Holds enabled r s h in (kept, ap admitted e)
  user_answer-Holds enabled (sums n) s h =
      let (kept, e) = sum_to_n-Holds enabled n s h in (kept, ap summed e)
  user_answer-Holds enabled (asks_profile id) s h =
      let (kept, e) = get_user_profile-Holds enabled id s h in (kept, ap profiled e)

  -- With a cache that gives nothing but values that were stored under their keys, and may at any time
  -- fail or forget, or without a cache, the user service gives over any history of requests the
  -- answers of its local methods.
  pub user_answers-local :
      (enabled : Bool) (rs : List UserRequest) (s : S)
      → Holds IsRight s
      → user_answers stub enabled rs s ≡ local_answers rs
  unfolding user_answers local_answers
  user_answers-local enabled [] s h = refl
  user_answers-local enabled (r ∷ rs) s h =
      let (kept, e) = user_answer-Holds enabled r s h in
      cc (e, user_answers-local enabled rs (user_answer stub enabled r s).0 kept)
