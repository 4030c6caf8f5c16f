-- ===== src/LoadTest/Refused.antt =====
-- The integrated test of example/caller/Zclient.cc, where every call behind its login fails.
use rpc_base_on_zookeeper.Base.{
  Bytes, text, ℕ, ◌+◌, ◌%◌, ◌^◌, ℤ, pos, ◌≡◌, Bool, true, false, Option, some, ◌++◌, arith,
}
use rpc_base_on_zookeeper.Decimal.{to_string}
use rpc_base_on_zookeeper.Threads.Alone.{alone}
use rpc_base_on_zookeeper.Messages.{
  CacheSetRequest, CacheStatsResponse, LoginRequest, RegisterRequest, RegisterResponse,
}
use rpc_base_on_zookeeper.User.{Stub}
use rpc_base_on_zookeeper.Client.{UserStub}
use rpc_base_on_zookeeper.Client.Refused.{Refuse}
use rpc_base_on_zookeeper.LoadTest.{
  Channels, Load, change, with_channel, succeed, fail, call, call_set, came_back, store, read_time,
  login_and_store, query_and_store, test_session, test_profile, test_integrated_business,
}

abbrev pub username_of : ℕ → Bytes
username_of i = text "user_" ++ to_string (pos i)

abbrev pub session_of : ℕ → Bytes
session_of i = text "session:" ++ username_of i

abbrev pub login_of : ℕ → LoginRequest
login_of i = record { name = username_of i; pwd = text "password123" }

module _ {W : Type 0} (users : UserStub W)
    (register_null : RegisterRequest → W → W × Option RegisterResponse) (cache : Stub W)
    (channels : Channels W) (time : W → ℤ) (stats_call : W → W × Bool × CacheStatsResponse)
    (P : W → Type 0) (h : Refuse users cache stats_call P)
    (up : (w : W) → P w → channels.ended w ≡ false) where
  -- The session is not there, the login succeeds, and from then on every call fails: one success
  -- and two failures are counted.
  pub alone-test_integrated_business :
      (i : ℕ) (s : Load W)
      → let (w₁, unasked, session) =
          cache.exists_call (session_of i) (channels.open_cache (channels.open_user s.world)) in
        let (w₂, unlogged, login) = users.login_call (login_of i) w₁ in
        channels.ended w₁ ≡ false
        → unasked ≡ false
        → session.exists ≡ false
        → unlogged ≡ false
        → login.success ≡ true
        → P w₂
        → (w : W) × (alone (test_integrated_business users register_null cache channels time i) s
            ≡ some (
              record {
                world = w;
                success_count = (s.success_count + 1) % 2 ^ 32;
                fail_count = ((s.fail_count + 1) % 2 ^ 32 + 1) % 2 ^ 32;
              },
              tt,
            ))
  unfolding test_integrated_business with_channel change test_session test_profile call call_set
      came_back succeed fail store read_time login_and_store query_and_store
  alone-test_integrated_business i s back asked missing logged success p =
      let w₁ =
        (cache.exists_call (session_of i) (channels.open_cache (channels.open_user s.world))).0 in
      let w₂ = (users.login_call (login_of i) w₁).0 in
      let token = text "token_" ++ (username_of i ++ (text "_" ++ to_string (time w₂))) in
      let r : CacheSetRequest = record {
        key = session_of i;
        value = token;
        expire_seconds = pos 1800;
      } in
      let w₃ = (cache.set_call r w₂).0 in
      let (unset, p₃) = h.set_refused r w₂ p in
      let id = (1000 + i) % 2 ^ 32 in
      let key : Bytes = text "profile:" ++ to_string (pos id) in
      let w₄ = (cache.get_call key w₃).0 in
      let (unknown, p₄) = h.get_refused key w₃ p₃ in
      let w₅ = (users.profile_call id w₄).0 in
      let (unread, p₅) = h.profile_refused id w₄ p₄ in
      (
        channels.delete_cache (channels.delete_user w₅),
        ground (
          arith,
          back,
          asked,
          missing,
          logged,
          success,
          unset,
          unknown,
          unread,
          up w₂ p,
          up w₃ p₃,
          up w₄ p₄,
          up w₅ p₅,
        ),
      )
