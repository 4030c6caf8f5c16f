-- ===== src/Channel/Connecting.antt =====
-- The descriptors that the connection code of src/Zrpcchannel.cc opens and closes.
use rpc_base_on_zookeeper.Base.{
  ℕ, zero, suc, ◌+◌, ◌≤◌, ℤ, pos, eqbℤ, ◌≡◌, refl, Bool, true, false, List, [], ◌∷◌, ◌++◌, arith,
  if◌then◌else◌, not, ◌&&◌, ◌∙◌,
}
use rpc_base_on_zookeeper.Channel.{
  Channel, Event, opened, closed, received, sent, Connect, no_fd, new_connect_with_timeout, retry,
  new_channel,
}
use rpc_base_on_zookeeper.Channel.Closed.{after}

abbrev pub opens : List Event → ℕ
opens [] = 0
opens (opened fd ∷ es) = suc (opens es)
opens (e ∷ es) = opens es

abbrev pub closes : List Event → ℕ
closes [] = 0
closes (closed fd ∷ es) = suc (closes es)
closes (e ∷ es) = closes es

opens-append : (es fs : List Event) → opens (es ++ fs) ≡ opens es + opens fs
opens-append [] fs = omega arith
opens-append (opened fd ∷ es) fs = omega (arith, opens-append es fs)
opens-append (closed fd ∷ es) fs = opens-append es fs
opens-append (received fd ∷ es) fs = opens-append es fs
opens-append (sent fd b ∷ es) fs = opens-append es fs

closes-append : (es fs : List Event) → closes (es ++ fs) ≡ closes es + closes fs
closes-append [] fs = omega arith
closes-append (closed fd ∷ es) fs = omega (arith, closes-append es fs)
closes-append (opened fd ∷ es) fs = closes-append es fs
closes-append (received fd ∷ es) fs = closes-append es fs
closes-append (sent fd b ∷ es) fs = closes-append es fs

-- How many descriptors a channel holds.
abbrev pub holds : Channel → ℕ
holds c = if eqbℤ c.clientfd no_fd then 0 else 1

-- A result says whether the channel is connected, and what was opened is closed or held.
abbrev Settles : Channel × List Event × Bool → Type 0
Settles (c, es, rt) =
    (opens es ≡ closes es + holds c) × (opens es ≤ 1) × (rt ≡ false → c.clientfd ≡ no_fd)

attempt-Settles :
    (net : Connect) (timeout_ms : ℤ) (c : Channel)
    → c.clientfd ≡ no_fd
    → Settles (new_connect_with_timeout net timeout_ms c)
unfolding new_connect_with_timeout
attempt-Settles net timeout_ms c e = ground arith

empty-handed : (c : Channel) → c.clientfd ≡ no_fd → holds c ≡ 0
empty-handed c e = ground arith

retry-settles :
    (count : ℕ) (nets : ℕ → Connect) (n : ℕ) (rt : Bool) (c : Channel)
    → (rt ≡ false → c.clientfd ≡ no_fd)
    → let (c', es) = retry count nets n rt c in
      (opens es + holds c ≡ closes es + holds c') × (opens es ≤ count)
unfolding retry
retry-settles zero nets n rt c e = omega arith
retry-settles (suc count) nets n true c e = omega arith
retry-settles (suc count) nets n false c e =
    let (c', es, rt) = new_connect_with_timeout (nets n) (pos 15000) c in
    let (counted, few, free) = attempt-Settles (nets n) (pos 15000) c (e refl) in
    let (settled, bounded) = retry-settles count nets (suc n) rt c' free in
    let (c'', es') = retry count nets (suc n) rt c' in
    (
      omega (arith, opens-append es es', closes-append es es', empty-handed c (e refl)),
      omega (arith, opens-append es es'),
    )

-- Is it the descriptor that the channel holds?
abbrev pub is_held : Channel → ℤ → Bool
is_held c fd = eqbℤ c.clientfd fd && not (eqbℤ c.clientfd no_fd)

after-append :
    (es fs : List Event) (is_open : ℤ → Bool)
    → after (es ++ fs) is_open ≡ after fs (after es is_open)
after-append [] fs is_open = refl
after-append (opened d ∷ es) fs is_open = after-append es fs _
after-append (closed d ∷ es) fs is_open = after-append es fs _
after-append (received d ∷ es) fs is_open = after-append es fs is_open
after-append (sent d b ∷ es) fs is_open = after-append es fs is_open

attempt-held :
    (net : Connect) (timeout_ms : ℤ) (c : Channel) (is_open : ℤ → Bool) (fd : ℤ)
    → c.clientfd ≡ no_fd
    → is_open fd ≡ false
    → let (c', es, rt) = new_connect_with_timeout net timeout_ms c in
      after es is_open fd ≡ is_held c' fd
unfolding new_connect_with_timeout
attempt-held net timeout_ms c is_open fd e shut = ground (arith, e, shut)

retry-held :
    (count : ℕ) (nets : ℕ → Connect) (n : ℕ) (rt : Bool) (c : Channel) (is_open : ℤ → Bool) (fd : ℤ)
    → (rt ≡ false → c.clientfd ≡ no_fd)
    → is_open fd ≡ is_held c fd
    → let (c', es) = retry count nets n rt c in after es is_open fd ≡ is_held c' fd
unfolding retry
retry-held zero nets n rt c is_open fd e h = h
retry-held (suc count) nets n true c is_open fd e h = h
retry-held (suc count) nets n false c is_open fd e h =
    let (c', es, rt) = new_connect_with_timeout (nets n) (pos 15000) c in
    let (counted, few, free) = attempt-Settles (nets n) (pos 15000) c (e refl) in
    let (c'', es') = retry count nets (suc n) rt c' in
    let shut : is_open fd ≡ false = h ∙ ground (arith, e refl) in
    let held = attempt-held (nets n) (pos 15000) c is_open fd (e refl) shut in
    rw (after-append es es' is_open)
      (retry-held count nets (suc n) rt c' (after es is_open) fd free held)

-- A new channel has opened at most four descriptors. Of these the one that it holds is open, if it is
-- connected, and every other one is closed.
pub new_channel-settles :
    (connect_now : Bool) (port : ℕ) (nets : ℕ → Connect)
    → let (c, es) = new_channel connect_now port nets in
      (opens es ≡ closes es + holds c)
      × (opens es ≤ 4)
      × ((fd : ℤ) → after es (λ d. false) fd ≡ is_held c fd)
unfolding new_channel
new_channel-settles false port nets = (omega arith, omega arith, λ fd. ground arith)
new_channel-settles true port nets =
    let c : Channel = record {
      clientfd = no_fd;
      service_name = [];
      ip = [];
      port = port;
      method_name = [];
      idx = pos 0;
      heartbeat_enabled = false;
      service_key = [];
    } in
    let (c', es, rt) = new_connect_with_timeout (nets 0) (pos 15000) c in
    let (counted, few, free) = attempt-Settles (nets 0) (pos 15000) c refl in
    let (settled, bounded) = retry-settles 3 nets 1 rt c' free in
    let (c'', es') = retry 3 nets 1 rt c' in
    (
      omega (arith, opens-append es es', closes-append es es'),
      omega (arith, opens-append es es'),
      λ fd. rw (after-append es es' (λ d. false)) (
          retry-held 3 nets 1 rt c' (after es (λ d. false)) fd free
            (attempt-held (nets 0) (pos 15000) c (λ d. false) fd refl refl)),
    )
