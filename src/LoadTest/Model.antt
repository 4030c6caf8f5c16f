-- ===== src/LoadTest/Model.antt =====
-- The cache service and the user service of example/callee behind the stubs of the load client, over
-- one cache, while the clock stands at one time, with a transport that does not fail.
use rpc_base_on_zookeeper.Base.{ℕ, pos, true, false, Option, some}
use rpc_base_on_zookeeper.Messages.{RegisterRequest, RegisterResponse}
use rpc_base_on_zookeeper.Cache.{Cache, get, set, exists, delete}
use rpc_base_on_zookeeper.User.{Stub, login, register, get_user_profile}
use rpc_base_on_zookeeper.Client.{UserStub}
use rpc_base_on_zookeeper.LoadTest.{Channels}

-- The heartbeat of a channel touches no key.
abbrev pub channels_now : Channels Cache
channels_now = record {
  open_user = λ c. c;
  open_cache = λ c. c;
  delete_user = λ c. c;
  delete_cache = λ c. c;
  ended = λ c. false;
}

module _ (now : ℕ) where
  unfoldable pub cache_now : Stub Cache
  cache_now = record {
    get_call = λ k c. let (c', a) = get k now c in (c', false, a);
    set_call = λ r c. let (c', a) = set r now c in (c', false);
    exists_call = λ k c. let (c', a) = exists k now c in (c', false, a);
    delete_call = λ k c. let (c', a) = delete k c in (c', false);
  }

  unfoldable pub users_now : UserStub Cache
  users_now = record {
    login_call = λ r c. let (c', a) = login cache_now true r (pos now) c in (c', false, a);
    register_call = λ r c. let (c', a) = register cache_now true r c in (c', false, a);
    profile_call = λ id c. let (c', a) = get_user_profile cache_now true id c in (c', false, a);
  }

  unfoldable pub register_now : RegisterRequest → Cache → Cache × Option RegisterResponse
  register_now r c = let (c', a) = register cache_now true r c in (c', some a)
