-- ===== src/Client/Refused.antt =====
-- The integrated client of example/caller/integrated_client.cc over stubs whose calls all fail.
use rpc_base_on_zookeeper.Base.{
  Bytes, text, ℕ, ℤ, pos, ◌≡◌, refl, Bool, true, false, none, [], ◌++◌,
}
use rpc_base_on_zookeeper.Decimal.{to_string}
use rpc_base_on_zookeeper.Messages.{
  CacheSetRequest, CacheStatsResponse, LoginRequest, RegisterRequest,
}
use rpc_base_on_zookeeper.User.{Stub}
use rpc_base_on_zookeeper.Client.{
  UserStub, has_user_session, keep_user_session, get_from_cache, login_by_call, login_with_cache,
  profile_by_call, profile_known, get_user_profile_with_cache, register_with_cache_invalidation,
}
use rpc_base_on_zookeeper.Client.Sessions.{Said, show_cache_stats, talk}

-- From a state with `P` on, every call fails.
pub record Refuse {W : Type 0} (users : UserStub W) (cache : Stub W)
    (stats_call : W → W × Bool × CacheStatsResponse) (P : W → Type 0) : Type 0 where
  pub exists_refused :
      (k : Bytes) (w : W) → P w → ((cache.exists_call k w).1 ≡ true) × P (cache.exists_call k w).0
  pub get_refused :
      (k : Bytes) (w : W) → P w → ((cache.get_call k w).1 ≡ true) × P (cache.get_call k w).0
  pub set_refused :
      (q : CacheSetRequest) (w : W)
      → P w
      → ((cache.set_call q w).1 ≡ true) × P (cache.set_call q w).0
  pub stats_refused : (w : W) → P w → ((stats_call w).1 ≡ true) × P (stats_call w).0
  pub login_refused :
      (q : LoginRequest) (w : W)
      → P w
      → ((users.login_call q w).1 ≡ true) × P (users.login_call q w).0
  pub register_refused :
      (q : RegisterRequest) (w : W)
      → P w
      → ((users.register_call q w).1 ≡ true) × P (users.register_call q w).0
  pub profile_refused :
      (id : ℕ) (w : W) → P w → ((users.profile_call id w).1 ≡ true) × P (users.profile_call id w).0

-- What `main` is told if only its first login gets an answer.
abbrev pub only_first : Bool → Said
only_first success = record {
  first_login = success;
  second_login = false;
  first_profile = [];
  second_profile = [];
  registration = false;
  statistics = none;
}

module _ {W : Type 0} (users : UserStub W) (cache : Stub W)
    (stats_call : W → W × Bool × CacheStatsResponse) (P : W → Type 0)
    (h : Refuse users cache stats_call P) where
  pub keep_user_session-refused :
      (key token : Bytes) (expire : ℤ) (w : W)
      → P w
      → P (keep_user_session users cache key token expire w)
  unfolding keep_user_session
  keep_user_session-refused key token expire w p = (h.set_refused _ w p).1

  pub login_with_cache-refused :
      (name pwd : Bytes) (now : ℤ) (w : W)
      → P w
      → let (w', success) = login_with_cache users cache name pwd now w in (success ≡ false) × P w'
  unfolding login_with_cache has_user_session login_by_call
  login_with_cache-refused name pwd now w p =
      let (unknown, p') = h.exists_refused (text "session:" ++ name) w p in
      let w' = (cache.exists_call (text "session:" ++ name) w).0 in
      let (failed, p'') = h.login_refused (record { name = name; pwd = pwd }) w' p' in
      rw (unknown, failed) (refl, p'')

  pub get_user_profile_with_cache-refused :
      (user_id : ℕ) (w : W)
      → P w
      → let (w', profile) = get_user_profile_with_cache users cache user_id w in
        (profile ≡ []) × P w'
  unfolding get_user_profile_with_cache get_from_cache profile_known profile_by_call
  get_user_profile_with_cache-refused user_id w p =
      let key : Bytes = text "profile:" ++ to_string (pos user_id) in
      let (unknown, p') = h.get_refused key w p in
      let (failed, p'') = h.profile_refused user_id (cache.get_call key w).0 p' in
      rw (unknown, failed) (refl, p'')

  pub register_with_cache_invalidation-refused :
      (user_id : ℕ) (name pwd : Bytes) (w : W)
      → P w
      → let (w', success) = register_with_cache_invalidation users cache user_id name pwd w in
        (success ≡ false) × P w'
  unfolding register_with_cache_invalidation
  register_with_cache_invalidation-refused user_id name pwd w p =
      let (failed, p') = h.register_refused (record { id = user_id; name = name; pwd = pwd }) w p in
      rw failed (refl, p')

  pub show_cache_stats-refused :
      (w : W)
      → P w
      → let (w', shown) = show_cache_stats users cache stats_call w in (shown ≡ none) × P w'
  unfolding show_cache_stats
  show_cache_stats-refused w p = let (failed, p') = h.stats_refused w p in rw failed (refl, p')

  -- What `main` is told if every call behind its first login fails.
  pub talk-refused :
      (now later : ℤ) (w : W)
      → let (w', success) = login_with_cache users cache (text "zhangsan") (text "123456") now w in
        P w' → (talk users cache stats_call now later w).1 ≡ only_first success
  unfolding talk
  talk-refused now later w p₁ =
      let w₁ = (login_with_cache users cache (text "zhangsan") (text "123456") now w).0 in
      let (a, p₂) = login_with_cache-refused (text "zhangsan") (text "123456") later w₁ p₁ in
      let w₂ = (login_with_cache users cache (text "zhangsan") (text "123456") later w₁).0 in
      let (b, p₃) = get_user_profile_with_cache-refused 1001 w₂ p₂ in
      let w₃ = (get_user_profile_with_cache users cache 1001 w₂).0 in
      let (c, p₄) = get_user_profile_with_cache-refused 1001 w₃ p₃ in
      let w₄ = (get_user_profile_with_cache users cache 1001 w₃).0 in
      let (d, p₅) =
        register_with_cache_invalidation-refused 1002 (text "lisi") (text "654321") w₄ p₄ in
      let w₅ =
        (register_with_cache_invalidation users cache 1002 (text "lisi") (text "654321") w₄).0 in
      let (e, p₆) = show_cache_stats-refused w₅ p₅ in simp (a, b, c, d, e) refl
