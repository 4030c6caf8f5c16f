-- ===== src/Client/Channels/Runs.antt =====
-- A run of the integrated client over its two channels.
use rpc_base_on_zookeeper.Base.{pos, ◌≡◌, refl, true, false, none, []}
use rpc_base_on_zookeeper.Messages.{default_exists}
use rpc_base_on_zookeeper.Heartbeat.{new_heartbeat}
use rpc_base_on_zookeeper.Wire.Varint.{runtime}
use rpc_base_on_zookeeper.Server.Model.{codec}
use rpc_base_on_zookeeper.Client.Sessions.{talk}
use rpc_base_on_zookeeper.Client.Channels.{new_client, cache_stub, user_stub, stats_call}
use rpc_base_on_zookeeper.Client.Channels.Told.{session_key, credentials, talk-told}
use rpc_base_on_zookeeper.Client.Channels.Model.{
  good, meets, admitted, no_stats, reads, exists-Serves, login-Serves,
}

talk-told_example :
    (talk
      (user_stub runtime codec meets reads)
      (cache_stub runtime codec meets reads)
      (stats_call runtime codec meets reads no_stats)
      (pos 7)
      (pos 8)
      (new_client 0 (λ n. good) new_heartbeat)).1
    ≡ record {
      first_login = true;
      second_login = false;
      first_profile = [];
      second_profile = [];
      registration = false;
      statistics = none;
    }
talk-told_example =
    talk-told runtime codec meets reads no_stats 0 (λ n. good) new_heartbeat default_exists admitted
      (pos 7) (pos 8) (exists-Serves 0 (pos 3000) session_key)
      (login-Serves 1 (pos 10000) credentials) refl refl refl
