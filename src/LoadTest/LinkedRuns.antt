-- ===== src/LoadTest/LinkedRuns.antt =====
-- A run of the default test of the load client over its own channels.
use rpc_base_on_zookeeper.Base.{false, ◌+◌, ℤ, pos, ◌≡◌, refl, none, some, [], ◌∷◌}
use rpc_base_on_zookeeper.Threads.{returns, run}
use rpc_base_on_zookeeper.Threads.Alone.{first_turns}
use rpc_base_on_zookeeper.Messages.{default_exists}
use rpc_base_on_zookeeper.Heartbeat.{new_heartbeat}
use rpc_base_on_zookeeper.Wire.Varint.{runtime}
use rpc_base_on_zookeeper.Server.Model.{codec}
use rpc_base_on_zookeeper.Client.Channels.{Link, new_client, cache_stub}
use rpc_base_on_zookeeper.Client.Channels.Model.{
  good, meets, admitted, reads, exists-Serves, login-Serves,
}
use rpc_base_on_zookeeper.LoadTest.{Load, test_integrated_business}
use rpc_base_on_zookeeper.LoadTest.Refused.{session_of, login_of}
use rpc_base_on_zookeeper.LoadTest.Linked.{
  own_channels, users_in_time, run-test_integrated_business,
}

abbrev initial : Load Link
initial = record {
  world = new_client 0 (λ n. good) new_heartbeat;
  success_count = 0;
  fail_count = 0;
}

abbrev time : Link → ℤ
time s = pos 7

up : initial.world.ended ≡ false
unfolding new_client
up = refl

run-test_integrated_business_example :
    (w : Link) × (run (first_turns 15) initial (
        test_integrated_business
          (users_in_time runtime codec meets reads)
          (λ q s. (s, none))
          (cache_stub runtime codec meets reads)
          (own_channels 0 (λ n. good))
          time
          3
        ∷ [])
      ≡ some (record { world = w; success_count = 1; fail_count = 2 }, returns tt ∷ []))
run-test_integrated_business_example =
    run-test_integrated_business runtime codec meets reads 0 (λ n. good) (λ q s. (s, none)) time 3
      initial [] default_exists admitted up
      (exists-Serves initial.world.calls (pos 3000) (session_of 3))
      (login-Serves (initial.world.calls + 1) (pos 5000) (login_of 3)) refl refl
