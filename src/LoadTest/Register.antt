-- ===== src/LoadTest/Register.antt =====
-- Register without a controller in `send_request` of example/caller/Zclient.cc.
use rpc_base_on_zookeeper.Base.{
  text, ℕ, ◌+◌, ◌%◌, ◌^◌, ℤ, pos, eqbℤ, not, ◌&&◌, ◌≡◌, Bool, true, false, Option, none, some, List,
  if◌then◌else◌, [], ◌∷◌, arith,
}
use rpc_base_on_zookeeper.Threads.{Prog, returns, run, turn}
use rpc_base_on_zookeeper.Messages.{LoginRequest, RegisterRequest, RegisterResponse}
use rpc_base_on_zookeeper.User.{Stub}
use rpc_base_on_zookeeper.Client.{UserStub}
use rpc_base_on_zookeeper.LoadTest.{
  Channels, Load, change, with_channel, succeed, fail, call, call_null, came_back, delivered,
  count_result, send_request,
}

module _ {W : Type 0} (users : UserStub W)
    (register_null : RegisterRequest → W → W × Option RegisterResponse) (cache : Stub W)
    (channels : Channels W) (time : W → ℤ) where
  abbrev pub zhangsan : LoginRequest
  zhangsan = record { name = text "zhangsan"; pwd = text "123456" }

  abbrev pub zrpc : RegisterRequest
  zrpc = record { id = 100000; name = text "Zrpc"; pwd = text "1111111" }

  -- One more success or one more failure.
  abbrev pub tally : Bool → Load W → Load W
  tally true s = record s { success_count = (s.success_count + 1) % 2 ^ 32 }
  tally false s = record s { fail_count = (s.fail_count + 1) % 2 ^ 32 }

  -- A thread that runs send_request alone, whatever the services answer: if Login ends the process,
  -- that is all. Otherwise Register comes after it, and if it fails the process ends, since it has
  -- no controller. If it answers, the request ends with its channel deleted, and two outcomes
  -- counted: Login's, by its controller and the error code of its response, and Register's, by the
  -- error code of its response but by the controller of Login.
  pub run-send_request :
      (i : ℕ) (s : Load W) (ts : List (Prog (Load W) Unit))
      → let (w, failed, login) = users.login_call zhangsan (channels.open_user s.world) in
        run
          (0 ∷ 0 ∷ 0 ∷ 0 ∷ 0 ∷ 0 ∷ [])
          s
          (send_request users register_null cache channels time i ∷ ts)
        ≡ (if channels.ended w then none else elim (register_null zrpc w).1 [
          | none ↦ none
          | some rsp ↦
              let t = record s { world = channels.delete_user (register_null zrpc w).0 } in
              some (
                tally
                    (not failed && eqbℤ rsp.result.errcode (pos 0))
                    (tally (not failed && eqbℤ login.result.errcode (pos 0)) t),
                returns tt ∷ ts,
              )
        ])
  unfolding run turn send_request with_channel change call call_null came_back delivered
      count_result succeed fail
  run-send_request i s ts = ground arith
