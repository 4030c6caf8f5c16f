-- ===== src/User/Model.antt =====
-- The cache service of example/callee/CacheService.cc behind the stub of the user service, with a
-- transport that does not fail and a second between two calls.
use rpc_base_on_zookeeper.Base.{
  Bytes, bytes_eq, bytes_eq_iff, ℕ, ◌+◌, ◌≡◌, refl, sym, true, false, Bool-cases, inl, inr, Option,
  none, some, arith,
}
use rpc_base_on_zookeeper.Table.{find, find-assign, find-erase}
use rpc_base_on_zookeeper.Messages.{CacheSetRequest}
use rpc_base_on_zookeeper.Cache.{Cache, CacheEntry, cache_entry, second, get, set, exists, delete}
use rpc_base_on_zookeeper.Cache.View.{get-visible, exists-visible}
use rpc_base_on_zookeeper.User.{Stub}
use rpc_base_on_zookeeper.User.Answers.{StubLaws}

-- The cache and the clock.
abbrev pub Served : Type 0
Served = Cache × ℕ

unfoldable pub cache_stub : Stub Served
cache_stub = record {
  get_call = λ k s. let (c, a) = get k s.1 s.0 in ((c, s.1 + second), false, a);
  set_call = λ r s. let (c, a) = set r s.1 s.0 in ((c, s.1 + second), false);
  exists_call = λ k s. let (c, a) = exists k s.1 s.0 in ((c, s.1 + second), false, a);
  delete_call = λ k s. let (c, a) = delete k s.0 in ((c, s.1 + second), false);
}

-- Every entry of the store is as `P` says.
abbrev pub Stored : (Bytes → Bytes → Type 0) → Served → Type 0
Stored P s = (k : Bytes) (e : CacheEntry) → find k s.0.store ≡ some e → P k e.value

set-Stored :
    (P : Bytes → Bytes → Type 0) (r : CacheSetRequest) (now : ℕ) (c : Cache)
    → Stored P (c, now)
    → P r.key r.value
    → (k : Bytes) (e : CacheEntry) → find k (set r now c).0.store ≡ some e
    → P k e.value
unfolding set cache_entry
set-Stored P r now c h p k e f =
    let entry = cache_entry r.value r.expire_seconds now in
    let found = find-assign r.key k entry c.store in
    elim (Bool-cases (bytes_eq r.key k)) [
      | inl same ↦
          let at : k ≡ r.key = ground (arith, bytes_eq_iff r.key k, same) in
          let value : e.value ≡ r.value = ground (arith, found, f, same) in rw (at, value) p
      | inr other ↦ h k e (ground (arith, found, f, other))
    ]

get-found :
    (k : Bytes) (now : ℕ) (c : Cache)
    → (get k now c).1.exists ≡ true
    → (e : CacheEntry) × (find k c.store ≡ some e) × (e.value ≡ (get k now c).1.value)
unfolding get
get-found k now c x = go (find k c.store) refl
  where
    go :
        (o : Option CacheEntry)
        → find k c.store ≡ o
        → (e : CacheEntry) × (find k c.store ≡ some e) × (e.value ≡ (get k now c).1.value)
    go none f = absurd (ground (arith, x, f))
    go (some e) f = (e, f, ground (arith, x, f))

delete-Stored :
    (P : Bytes → Bytes → Type 0) (j : Bytes) (now : ℕ) (c : Cache)
    → Stored P (c, now)
    → (k : Bytes) (e : CacheEntry) → find k (delete j c).0.store ≡ some e
    → P k e.value
unfolding delete
delete-Stored P j now c h k e f = h k e (ground (arith, find-erase j k c.store, f))

pub cache_stub-laws : StubLaws cache_stub Stored
unfolding cache_stub
cache_stub-laws = record {
  get_keeps = λ P k s h. rw ((get-visible k s.1 s.0).2) h;
  get_right = λ P k s h ok there.
      let (e, found, same) = get-found k s.1 s.0 there in rw (sym same) (h k e found);
  set_keeps = λ P r s h p. set-Stored P r s.1 s.0 h p;
  exists_keeps = λ P k s h. rw ((exists-visible k s.1 s.0).1) h;
  delete_keeps = λ P k s h. delete-Stored P k s.1 s.0 h;
}
