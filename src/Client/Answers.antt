-- ===== src/Client/Answers.antt =====
-- What the client of example/caller/integrated_client.cc is told.
use rpc_base_on_zookeeper.Base.{
  Bytes, text, ℕ, ℤ, pos, eqbℤ, ◌≡◌, refl, ap, Bool, true, false, not, ◌&&◌, List, [], ◌∷◌, ◌++◌,
  arith, Bool-cases, ◌⊎◌, inl, inr,
}
use rpc_base_on_zookeeper.Messages.{LoginRequest, RegisterRequest}
use rpc_base_on_zookeeper.User.{Stub, make_session_key, make_profile_key, local_get_user_profile}
use rpc_base_on_zookeeper.User.Keys.{IsRight, session-IsRight, profile-IsRight}
use rpc_base_on_zookeeper.User.Answers.{StubLaws}
use rpc_base_on_zookeeper.Client.{
  UserStub, has_user_session, keep_user_session, get_from_cache, set_to_cache, delete_from_cache,
  login_by_call, login_with_cache, profile_by_call, profile_known, get_user_profile_with_cache,
  register_with_cache_invalidation,
}

-- What the client relies on of the user service: a profile that comes without an error is the
-- service's, and no call puts a wrong value into the cache.
pub record UserStubLaws {W : Type 0} (users : UserStub W)
    (Holds : (Bytes → Bytes → Type 0) → W → Type 0) : Type 1 where
  pub login_keeps :
      (r : LoginRequest) (w : W) → Holds IsRight w → Holds IsRight (users.login_call r w).0
  pub register_keeps :
      (r : RegisterRequest) (w : W) → Holds IsRight w → Holds IsRight (users.register_call r w).0
  pub profile_keeps : (id : ℕ) (w : W) → Holds IsRight w → Holds IsRight (users.profile_call id w).0
  pub profile_right :
      (id : ℕ) (w : W)
      → Holds IsRight w
      → (users.profile_call id w).1 ≡ false
      → (users.profile_call id w).2.result.errcode ≡ pos 0
      → (users.profile_call id w).2.profile_data ≡ local_get_user_profile id

-- A use of the client; a login with its time.
pub data Use : Type 0 where
  logs_in : Bytes → Bytes → ℤ → Use
  registers : ℕ → Bytes → Bytes → Use
  asks_profile : ℕ → Use

-- Whether the use succeeded, or the text it got.
pub data Told : Type 0 where
  told : Bool → Told
  text_of : Bytes → Told

module _ {W : Type 0} (users : UserStub W) (cache : Stub W) where
  unfoldable pub use_client : Use → W → W × Told
  use_client (logs_in name pwd now) w =
      let (w', b) = login_with_cache users cache name pwd now w in (w', told b)
  use_client (registers id name pwd) w =
      let (w', b) = register_with_cache_invalidation users cache id name pwd w in (w', told b)
  use_client (asks_profile id) w =
      let (w', t) = get_user_profile_with_cache users cache id w in (w', text_of t)

  unfoldable pub use_all : List Use → W → List Told
  use_all [] w = []
  use_all (u ∷ us) w = let (w', t) = use_client u w in t ∷ use_all us w'

-- A profile is the user service's, or the empty text of a failure.
abbrev pub IsHonest : Use → Told → Type 0
IsHonest (asks_profile id) t = (t ≡ text_of (local_get_user_profile id)) ⊎ (t ≡ text_of [])
IsHonest _ t = Unit

abbrev pub AllHonest : List Use → List Told → Type 0
AllHonest (u ∷ us) (t ∷ ts) = IsHonest u t × AllHonest us ts
AllHonest [] [] = Unit
AllHonest _ _ = ⊥

eqbℤ→eq : (a b : ℤ) → eqbℤ a b ≡ true → a ≡ b
eqbℤ→eq a b e = ground (arith, e)

module _ {W : Type 0} (users : UserStub W) (cache : Stub W)
    (Holds : (Bytes → Bytes → Type 0) → W → Type 0) (served : UserStubLaws users Holds)
    (kept : StubLaws cache Holds) where
  login_by_call-Holds :
      (name pwd : Bytes) (now : ℤ) (w : W)
      → Holds IsRight w
      → Holds IsRight (login_by_call users cache name pwd now w).0
  unfolding login_by_call keep_user_session make_session_key
  login_by_call-Holds name pwd now w h =
      let r : LoginRequest = record { name = name; pwd = pwd } in
      let called = served.login_keeps r w h in
      let (w', failed, response) = users.login_call r w in
      elim (Bool-cases failed) [
        | inl bad ↦ rw bad called
        | inr good ↦ elim (Bool-cases (eqbℤ response.result.errcode (pos 0) && response.success)) [
          | inl success ↦
              rw (good, success) (kept.set_keeps IsRight _ w' called (session-IsRight name _))
          | inr refused ↦ rw (good, refused) called
        ]
      ]

  login_with_cache-Holds :
      (name pwd : Bytes) (now : ℤ) (w : W)
      → Holds IsRight w
      → Holds IsRight (login_with_cache users cache name pwd now w).0
  unfolding login_with_cache has_user_session
  login_with_cache-Holds name pwd now w h =
      let key : Bytes = text "session:" ++ name in
      let asked = kept.exists_keeps IsRight key w h in
      let (w', failed, response) = cache.exists_call key w in
      elim (Bool-cases (not failed && response.exists)) [
        | inl there ↦ rw there asked
        | inr missing ↦ rw missing (login_by_call-Holds name pwd now w' asked)
      ]

  register-Holds :
      (id : ℕ) (name pwd : Bytes) (w : W)
      → Holds IsRight w
      → Holds IsRight (register_with_cache_invalidation users cache id name pwd w).0
  unfolding register_with_cache_invalidation delete_from_cache
  register-Holds id name pwd w h =
      let r : RegisterRequest = record { id = id; name = name; pwd = pwd } in
      let called = served.register_keeps r w h in
      let (w', failed, response) = users.register_call r w in
      elim (Bool-cases failed) [
        | inl bad ↦ rw bad called
        | inr good ↦ elim (Bool-cases (eqbℤ response.result.errcode (pos 0) && response.success)) [
          | inl success ↦ rw (good, success) (kept.delete_keeps IsRight _ w' called)
          | inr refused ↦ rw (good, refused) called
        ]
      ]

  -- The values in the cache stay right, and the text is the profile or empty.
  abbrev Tells : ℕ → W × Bytes → Type 0
  Tells id (w, t) = Holds IsRight w × ((t ≡ local_get_user_profile id) ⊎ (t ≡ []))

  profile_by_call-Tells :
      (id : ℕ) (w : W) → Holds IsRight w → Tells id (profile_by_call users cache id w)
  unfolding profile_by_call set_to_cache make_profile_key
  profile_by_call-Tells id w h =
      let called = served.profile_keeps id w h in
      let (w', failed, response) = users.profile_call id w in
      elim (Bool-cases failed) [
        | inl bad ↦ rw bad (called, inr refl)
        | inr good ↦ elim (Bool-cases (eqbℤ response.result.errcode (pos 0))) [
          | inr refused ↦ rw (good, refused) (called, inr refl)
          | inl success ↦
              let right : response.profile_data ≡ local_get_user_profile id =
                served.profile_right id w h good (eqbℤ→eq _ _ success) in
              rw (good, success, right)
                (kept.set_keeps IsRight _ w' called (profile-IsRight id), inl refl)
        ]
      ]

  profile_known-Tells :
      (id : ℕ) (cached : Bytes) (w : W)
      → Holds IsRight w
      → (cached ≡ local_get_user_profile id) ⊎ (cached ≡ [])
      → Tells id (profile_known users cache cached id w)
  unfolding profile_known
  profile_known-Tells id [] w h c = profile_by_call-Tells id w h
  profile_known-Tells id (b ∷ t) w h c = (h, c)

  profile-Tells :
      (id : ℕ) (w : W) → Holds IsRight w → Tells id (get_user_profile_with_cache users cache id w)
  unfolding get_user_profile_with_cache get_from_cache make_profile_key
  profile-Tells id w h =
      let key = make_profile_key id in
      let asked = kept.get_keeps IsRight key w h in
      let (w', failed, response) = cache.get_call key w in
      elim (Bool-cases (not failed && response.exists)) [
        | inl hit ↦
            let right =
              kept.get_right IsRight key w h (ground (arith, hit)) (ground (arith, hit)) in
            rw hit (profile_known-Tells id response.value w' asked (inl (right.profile id refl)))
        | inr miss ↦ rw miss (profile_known-Tells id [] w' asked (inr refl))
      ]

  use_client-IsHonest :
      (u : Use) (w : W)
      → Holds IsRight w
      → let (w', t) = use_client users cache u w in Holds IsRight w' × IsHonest u t
  unfolding use_client
  use_client-IsHonest (logs_in name pwd now) w h = (login_with_cache-Holds name pwd now w h, tt)
  use_client-IsHonest (registers id name pwd) w h = (register-Holds id name pwd w h, tt)
  use_client-IsHonest (asks_profile id) w h =
      let (kept', t) = profile-Tells id w h in
      (kept', elim t [ inl e ↦ inl (ap text_of e) | inr e ↦ inr (ap text_of e) ])

  -- With a cache that gives nothing but values that were stored under their keys, and a user service
  -- that puts no wrong value into it and gives no wrong profile: over any history of logins,
  -- registrations and look-ups of the client, every profile that it is told is the one of the user
  -- service, or the empty text that stands for a failure.
  pub use_all-AllHonest :
      (us : List Use) (w : W) → Holds IsRight w → AllHonest us (use_all users cache us w)
  unfolding use_all
  use_all-AllHonest [] w h = tt
  use_all-AllHonest (u ∷ us) w h =
      let (kept', honest) = use_client-IsHonest u w h in
      (honest, use_all-AllHonest us (use_client users cache u w).0 kept')
