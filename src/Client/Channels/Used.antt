-- ===== src/Client/Channels/Used.antt =====
-- The integrated client of example/caller/integrated_client.cc once its channels are used.
use rpc_base_on_zookeeper.Base.{
  Bytes, ℕ, ℤ, pos, ◌≡◌, ◌≢◌, refl, Bool, true, false, Option, none, arith,
}
use rpc_base_on_zookeeper.Messages.{
  CacheStatsResponse, default_result, default_get, default_exists, default_login, default_register,
  default_profile,
}
use rpc_base_on_zookeeper.Controller.{new_controller, set_timeout}
use rpc_base_on_zookeeper.Wire.{Runtime}
use rpc_base_on_zookeeper.Channel.{Channel, no_fd}
use rpc_base_on_zookeeper.Channel.Call.{World, Result, returned}
use rpc_base_on_zookeeper.Channel.Closed.{after, call_method-closed}
use rpc_base_on_zookeeper.Channel.Reports.{is_failed}
use rpc_base_on_zookeeper.Server.{
  Asked, sets, gets, asks_exists, asks_stats, logs_in, registers, asks_profile, Codec,
}
use rpc_base_on_zookeeper.Client.Refused.{Refuse}
use rpc_base_on_zookeeper.Client.Channels.{
  Reads, Link, ends, met, ask, noticed, ask_cache, ask_user, cache_stub, user_stub, stats_call,
}

-- The channel holds the number of a descriptor that is closed.
abbrev pub IsUsed : Channel → Link → Type 0
IsUsed c s = (c.clientfd ≢ no_fd) × (s.is_open c.clientfd ≡ false)

module _ (r : Runtime) (codec : Codec) (meets : ℕ → World) where
  -- What a call over a used channel comes to.
  abbrev Refused : {R : Type 0} → Result R → Channel → Link → Type 0
  Refused x c s =
      (is_failed x.controller ≡ true)
      × (x.response ≡ none)
      × (x.outcome ≡ returned)
      × (x.channel ≡ c)
      × ((is_open : ℤ → Bool) (fd : ℤ) → is_open fd ≡ false → after x.events is_open fd ≡ false)

  ask-Refused :
      {R : Type 0} (parses : Bytes → Option R) (timeout_ms : ℤ) (q : Asked) (c : Channel) (s : Link)
      → IsUsed c s
      → Refused (ask r codec meets parses timeout_ms q c s) c s
  unfolding ask met
  ask-Refused parses timeout_ms q c s (held, shut) =
      call_method-closed r parses (met r codec meets c s) _ (set_timeout timeout_ms new_controller)
        _ c s.heartbeat held (ground (arith, held, shut))

  abbrev pub AllUsed : Link → Type 0
  AllUsed s = (IsUsed s.user_channel s) × (IsUsed s.cache_channel s) × (s.ended ≡ false)

  ask_cache-used :
      {R : Type 0} (parses : Bytes → Option R) (default : R) (timeout_ms : ℤ) (q : Asked) (s : Link)
      → AllUsed s
      → let (s', failed, response) = ask_cache r codec meets parses default timeout_ms q s in
        (failed ≡ true) × AllUsed s'
  unfolding ask_cache noticed ends
  ask_cache-used parses default timeout_ms q s ((user_held, user_shut), (held, shut), up) =
      let x = ask r codec meets parses timeout_ms q s.cache_channel s in
      let (failed, unread, back, same, kept) =
        ask-Refused parses timeout_ms q s.cache_channel s (held, shut) in
      simp (failed, back, same, up)
        (
          refl,
          (
            (user_held, kept s.is_open s.user_channel.clientfd user_shut),
            (held, kept s.is_open s.cache_channel.clientfd shut),
            refl,
          ),
        )

  pub ask_user-used :
      {R : Type 0} (parses : Bytes → Option R) (default : R) (timeout_ms : ℤ) (q : Asked) (s : Link)
      → AllUsed s
      → let (s', failed, response) = ask_user r codec meets parses default timeout_ms q s in
        (failed ≡ true) × AllUsed s'
  unfolding ask_user noticed ends
  ask_user-used parses default timeout_ms q s ((held, shut), (cache_held, cache_shut), up) =
      let x = ask r codec meets parses timeout_ms q s.user_channel s in
      let (failed, unread, back, same, kept) =
        ask-Refused parses timeout_ms q s.user_channel s (held, shut) in
      simp (failed, back, same, up)
        (
          refl,
          (
            (held, kept s.is_open s.user_channel.clientfd shut),
            (cache_held, kept s.is_open s.cache_channel.clientfd cache_shut),
            refl,
          ),
        )

  pub stubs-Refuse :
      (reads : Reads) (default : CacheStatsResponse)
      → Refuse
          (user_stub r codec meets reads)
          (cache_stub r codec meets reads)
          (stats_call r codec meets reads default)
          AllUsed
  stubs-Refuse reads default = record {
    exists_refused = λ k s used.
        ask_cache-used reads.read_exists default_exists (pos 3000) (asks_exists k) s used;
    get_refused = λ k s used. ask_cache-used reads.read_get default_get (pos 3000) (gets k) s used;
    set_refused =
        λ q s used. ask_cache-used reads.read_result default_result (pos 3000) (sets q) s used;
    stats_refused = λ s used. ask_cache-used reads.read_stats default (pos 5000) asks_stats s used;
    login_refused =
        λ q s used. ask_user-used reads.read_login default_login (pos 10000) (logs_in q) s used;
    register_refused = λ q s used.
        ask_user-used reads.read_register default_register (pos 10000) (registers q) s used;
    profile_refused = λ id s used.
        ask_user-used reads.read_profile default_profile (pos 5000) (asks_profile id) s used;
  }
