-- ===== src/Client/Runs.antt =====
-- Runs of the client, over the user service and the cache service.
use rpc_base_on_zookeeper.Base.{pos, List, [], ◌∷◌}
use rpc_base_on_zookeeper.Table.{find}
use rpc_base_on_zookeeper.Cache.{empty_cache}
use rpc_base_on_zookeeper.User.Keys.{IsRight}
use rpc_base_on_zookeeper.User.Model.{Served, Stored, cache_stub, cache_stub-laws}
use rpc_base_on_zookeeper.Client.Answers.{
  Use, logs_in, registers, asks_profile, use_all, AllHonest, use_all-AllHonest,
}
use rpc_base_on_zookeeper.Client.Model.{user_stub, user_stub-laws}

-- The uses of `main`.
abbrev uses : List Use
uses =
    logs_in (b'z' ∷ []) (b'1' ∷ []) (pos 7)
    ∷ logs_in (b'z' ∷ []) (b'1' ∷ []) (pos 7)
    ∷ asks_profile 1001
    ∷ asks_profile 1001
    ∷ registers 1002 (b'l' ∷ []) (b'6' ∷ [])
    ∷ []

abbrev empty : Served
empty = (empty_cache, 0)

empty-Stored : Stored IsRight empty
unfolding find
empty-Stored k e f = cc

use_all-AllHonest_example : AllHonest uses (use_all user_stub cache_stub uses empty)
use_all-AllHonest_example =
    use_all-AllHonest user_stub cache_stub Stored user_stub-laws cache_stub-laws uses empty
      empty-Stored
