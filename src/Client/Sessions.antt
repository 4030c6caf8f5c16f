-- ===== src/Client/Sessions.antt =====
-- `main` and ShowCacheStats of example/caller/integrated_client.cc. What is printed is a result.
use rpc_base_on_zookeeper.Base.{Bytes, text, ℤ, Bool, Option, none, some, List, if◌then◌else◌}
use rpc_base_on_zookeeper.Table.{Table}
use rpc_base_on_zookeeper.Messages.{CacheStatsResponse}
use rpc_base_on_zookeeper.Application.{Opt, init}
use rpc_base_on_zookeeper.User.{Stub}
use rpc_base_on_zookeeper.Client.{
  UserStub, login_with_cache, get_user_profile_with_cache, register_with_cache_invalidation,
}

-- What a run of `main` says: two logins, two profiles, a registration, and the statistics.
pub record Said : Type 0 where
  pub first_login : Bool
  pub second_login : Bool
  pub first_profile : Bytes
  pub second_profile : Bytes
  pub registration : Bool
  pub statistics : Option CacheStatsResponse

module _ {W : Type 0} (users : UserStub W) (cache : Stub W)
    (stats_call : W → W × Bool × CacheStatsResponse) where
  -- ShowCacheStats: nothing is shown if the call fails.
  unfoldable pub show_cache_stats : W → W × Option CacheStatsResponse
  show_cache_stats w =
      let (w', failed, response) = stats_call w in (w', if failed then none else some response)

  -- `main` behind Init; the two readings of `time(nullptr)` are `now` and `later`.
  unfoldable pub talk : ℤ → ℤ → W → W × Said
  talk now later w =
      let (w₁, a) = login_with_cache users cache (text "zhangsan") (text "123456") now w in
      let (w₂, b) = login_with_cache users cache (text "zhangsan") (text "123456") later w₁ in
      let (w₃, p) = get_user_profile_with_cache users cache 1001 w₂ in
      let (w₄, q) = get_user_profile_with_cache users cache 1001 w₃ in
      let (w₅, c) =
        register_with_cache_invalidation users cache 1002 (text "lisi") (text "654321") w₄ in
      let (w₆, s) = show_cache_stats w₅ in
      (
        w₆,
        record {
          first_login = a;
          second_login = b;
          first_profile = p;
          second_profile = q;
          registration = c;
          statistics = s;
        },
      )

  -- `main`; `none` is the exit of Init.
  unfoldable pub main :
      (List Bytes → List Opt)
      → (Bytes → Option Bytes)
      → List Bytes
      → Table Bytes
      → ℤ
      → ℤ
      → W
      → Option (W × Said)
  main getopt files argv m now later w = elim (init getopt files argv m) [
    | none ↦ none
    | some config ↦ some (talk now later w)
  ]
