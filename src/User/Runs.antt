-- ===== src/User/Runs.antt =====
-- Runs of the user service, over the cache service.
use rpc_base_on_zookeeper.Base.{Bytes, ◌+◌, ◌*◌, ◌/◌, ◌≡◌, true, List, [], ◌∷◌, arith, pos}
use rpc_base_on_zookeeper.Table.{find}
use rpc_base_on_zookeeper.Cache.{empty_cache}
use rpc_base_on_zookeeper.User.{local_sum_to_n}
use rpc_base_on_zookeeper.User.Sums.{local_sum_to_n-triangle}
use rpc_base_on_zookeeper.User.Keys.{IsRight}
use rpc_base_on_zookeeper.User.Answers.{
  UserRequest, logs_in, registers, sums, asks_profile, user_answers, local_answers,
  user_answers-local,
}
use rpc_base_on_zookeeper.User.Model.{Served, Stored, cache_stub, cache_stub-laws}

abbrev ann : Bytes
ann = b'A' ∷ []

abbrev requests : List UserRequest
requests =
    logs_in (record { name = ann; pwd = [] }) (pos 7)
    ∷ sums (pos 4)
    ∷ sums (pos 4)
    ∷ asks_profile 1
    ∷ registers (record { id = 1; name = ann; pwd = [] })
    ∷ asks_profile 1
    ∷ logs_in (record { name = ann; pwd = [] }) (pos 9)
    ∷ []

abbrev empty : Served
empty = (empty_cache, 0)

empty-Stored : Stored IsRight empty
unfolding find
empty-Stored k e f = cc

user_answers-local_example : user_answers cache_stub true requests empty ≡ local_answers requests
user_answers-local_example =
    user_answers-local cache_stub Stored cache_stub-laws true requests empty empty-Stored

local_sum_to_n-triangle_example : local_sum_to_n (pos 100) ≡ pos (100 * (100 + 1) / 2)
local_sum_to_n-triangle_example = local_sum_to_n-triangle 100 (omega arith)
