-- ===== src/Client/Model.antt =====
-- The user service of example/callee/UserService.cc behind the client's stub, over the same cache that
-- the client uses itself, with a transport that does not fail.
use rpc_base_on_zookeeper.Base.{pos, true, false}
use rpc_base_on_zookeeper.User.{login, register, get_user_profile}
use rpc_base_on_zookeeper.User.Answers.{login-Holds, register-Holds, get_user_profile-Holds}
use rpc_base_on_zookeeper.User.Model.{Served, Stored, cache_stub, cache_stub-laws}
use rpc_base_on_zookeeper.Client.{UserStub}
use rpc_base_on_zookeeper.Client.Answers.{UserStubLaws}

unfoldable pub user_stub : UserStub Served
user_stub = record {
  login_call = λ r w. let (w', a) = login cache_stub true r (pos w.1) w in (w', false, a);
  register_call = λ r w. let (w', a) = register cache_stub true r w in (w', false, a);
  profile_call = λ id w. let (w', a) = get_user_profile cache_stub true id w in (w', false, a);
}

pub user_stub-laws : UserStubLaws user_stub Stored
unfolding user_stub
user_stub-laws = record {
  login_keeps = λ r w h. (login-Holds cache_stub Stored cache_stub-laws true r (pos w.1) w h).0;
  register_keeps = λ r w h. (register-Holds cache_stub Stored cache_stub-laws true r w h).0;
  profile_keeps =
      λ id w h. (get_user_profile-Holds cache_stub Stored cache_stub-laws true id w h).0;
  profile_right =
      λ id w h ok e. (get_user_profile-Holds cache_stub Stored cache_stub-laws true id w h).1;
}
