-- ===== src/Cache/View.antt =====
-- What a reader of the cache sees at a time: the value under a key, unless it has expired. Every
-- handler of CacheService.cc is described by what it does to that view.
use rpc_base_on_zookeeper.Base.{
  Bytes, bytes_eq, bytes_eq_iff, ℕ, suc, ◌≤◌, ℤ, pos, ◌+ℤ◌, scale, eqbℤ, ltbℤ, ◌≡◌, refl, Bool,
  true, ◌||◌, not, Option, none, some, [], ◌∷◌, is_some, arith, if◌then◌else◌,
}
use rpc_base_on_zookeeper.Table.{Table, find, find-assign, find-erase}
use rpc_base_on_zookeeper.Table.Keys.{UniqueKeys, assign-UniqueKeys, erase-UniqueKeys}
use rpc_base_on_zookeeper.Messages.{CacheSetRequest}
use rpc_base_on_zookeeper.Cache.{
  Cache, CacheEntry, cache_entry, is_expired, second, to_seconds, set, get, delete, exists, sweep,
  cleanup_expired_keys,
}

abbrev pub live_value : Option CacheEntry → ℕ → Option Bytes
live_value none now = none
live_value (some e) now = if is_expired e now then none else some e.value

abbrev pub visible : Cache → ℕ → Bytes → Option Bytes
visible c now key = live_value (find key c.store) now

-- What Get says of the lifetime of an entry: the second in which it ends, or 0 if it does not.
abbrev pub reported : ℤ → Bool → ℤ
reported expire_time never = if never then pos 0 else to_seconds expire_time

-- The value under a key and what Get says of its lifetime, unless it has expired.
abbrev pub live_view : Option CacheEntry → ℕ → Option (Bytes × ℤ)
live_view none now = none
live_view (some e) now =
    if is_expired e now then none else some (e.value, reported e.expire_time e.never_expire)

abbrev pub seen : Cache → ℕ → Bytes → Option (Bytes × ℤ)
seen c now key = live_view (find key c.store) now

abbrev pub value_in : Option (Bytes × ℤ) → Option Bytes
value_in none = none
value_in (some (v, t)) = some v

pub live_value-view :
    (o : Option CacheEntry) (now : ℕ) → live_value o now ≡ value_in (live_view o now)
live_value-view none now = refl
live_value-view (some e) now = ground arith

abbrev pub value_of : Option Bytes → Bytes
value_of none = []
value_of (some v) = v

-- A lifetime of `seconds` that began at `start` covers `now`; 0 seconds is for ever.
abbrev pub within : ℤ → ℕ → ℕ → Bool
within seconds start now =
    eqbℤ seconds (pos 0) || not (ltbℤ (pos start +ℤ scale second seconds) (pos now))

-- Get answers with the visible value, or says that there is none, and changes no view.
pub get-visible :
    (key : Bytes) (now : ℕ) (c : Cache)
    → ((get key now c).1.exists ≡ is_some (visible c now key))
      × ((get key now c).1.value ≡ value_of (visible c now key))
      × ((get key now c).0.store ≡ c.store)
unfolding get
get-visible key now c = ground arith

-- Exists says whether there is a visible value, and changes no view.
pub exists-visible :
    (key : Bytes) (now : ℕ) (c : Cache)
    → ((exists key now c).1.exists ≡ is_some (visible c now key))
      × ((exists key now c).0.store ≡ c.store)
unfolding exists
exists-visible key now c = ground arith

-- Set makes its value visible under its key for its lifetime, and hides what was there.
pub visible-set :
    (request : CacheSetRequest) (now later : ℕ) (key : Bytes) (c : Cache)
    → visible (set request now c).0 later key ≡ (
        if bytes_eq request.key key
        then (if within request.expire_seconds now later then some request.value else none)
        else visible c later key)
unfolding set cache_entry is_expired
visible-set request now later key c = ground (
  arith,
  find-assign request.key key (cache_entry request.value request.expire_seconds now) c.store,
)

-- Delete hides its key and no other.
pub visible-delete :
    (key : Bytes) (later : ℕ) (j : Bytes) (c : Cache)
    → visible (delete key c).0 later j ≡ (if bytes_eq key j then none else visible c later j)
unfolding delete
visible-delete key later j c = ground (arith, find-erase key j c.store, bytes_eq_iff key j)

-- Set shows its value with its lifetime.
pub seen-set :
    (request : CacheSetRequest) (now later : ℕ) (key : Bytes) (c : Cache)
    → seen (set request now c).0 later key ≡ (
        if bytes_eq request.key key
        then (if within request.expire_seconds now later
            then some (
              request.value,
              reported
                  (pos now +ℤ scale second request.expire_seconds)
                  (eqbℤ request.expire_seconds (pos 0)),
            )
            else none)
        else seen c later key)
unfolding set cache_entry is_expired
seen-set request now later key c = ground (
  arith,
  find-assign request.key key (cache_entry request.value request.expire_seconds now) c.store,
)

pub seen-delete :
    (key : Bytes) (later : ℕ) (j : Bytes) (c : Cache)
    → seen (delete key c).0 later j ≡ (if bytes_eq key j then none else seen c later j)
unfolding delete
seen-delete key later j c = ground (arith, find-erase key j c.store, bytes_eq_iff key j)

is_expired_mono :
    (e : CacheEntry) (now later : ℕ)
    → now ≤ later
    → is_expired e now ≡ true
    → is_expired e later ≡ true
unfolding is_expired
is_expired_mono e now later h x = ground arith

find-sweep-none :
    (clock : ℕ → ℕ) (n : ℕ) (key : Bytes) (t : Table CacheEntry)
    → find key t ≡ none
    → find key (sweep clock n t) ≡ none
unfolding find sweep
find-sweep-none clock n key [] h = refl
find-sweep-none clock n key ((j, e) ∷ t) h = ground (arith, find-sweep-none clock (suc n) key t)

seen-sweep :
    (clock : ℕ → ℕ) (n later : ℕ) (key : Bytes) (t : Table CacheEntry)
    → UniqueKeys t
    → ((i : ℕ) → clock i ≤ later)
    → live_view (find key (sweep clock n t)) later ≡ live_view (find key t) later
unfolding find sweep
seen-sweep clock n later key [] u past = refl
seen-sweep clock n later key ((j, e) ∷ t) u past = ground (
  arith,
  bytes_eq_iff j key,
  past n,
  is_expired_mono e (clock n) later,
  find-sweep-none clock (suc n) key t,
  seen-sweep clock (suc n) later key t u.1 past,
)

-- In a store whose keys are all different, a pass of the cleanup thread changes nothing that a
-- reader sees at or after the times that the pass read.
pub cleanup-seen :
    (clock : ℕ → ℕ) (c : Cache) (later : ℕ) (key : Bytes)
    → UniqueKeys c.store
    → ((i : ℕ) → clock i ≤ later)
    → seen (cleanup_expired_keys clock c) later key ≡ seen c later key
unfolding cleanup_expired_keys
cleanup-seen clock c later key u past = seen-sweep clock 0 later key c.store u past

sweep-UniqueKeys :
    (clock : ℕ → ℕ) (n : ℕ) (t : Table CacheEntry) → UniqueKeys t → UniqueKeys (sweep clock n t)
unfolding sweep
sweep-UniqueKeys clock n [] u = tt
sweep-UniqueKeys clock n ((j, e) ∷ t) u =
    ground (arith, find-sweep-none clock (suc n) j t, sweep-UniqueKeys clock (suc n) t u.1)

module _ (c : Cache) (u : UniqueKeys c.store) where
  pub set-UniqueKeys : (r : CacheSetRequest) (now : ℕ) → UniqueKeys (set r now c).0.store
  unfolding set
  set-UniqueKeys r now =
      assign-UniqueKeys r.key (cache_entry r.value r.expire_seconds now) c.store u

  pub delete-UniqueKeys : (key : Bytes) → UniqueKeys (delete key c).0.store
  unfolding delete
  delete-UniqueKeys key = ground (arith, erase-UniqueKeys key c.store u)

  pub cleanup-UniqueKeys : (clock : ℕ → ℕ) → UniqueKeys (cleanup_expired_keys clock c).store
  unfolding cleanup_expired_keys
  cleanup-UniqueKeys clock = sweep-UniqueKeys clock 0 c.store u
