-- ===== src/Cache/Counting.antt =====
-- The counters of CacheService.cc against the answers that clients were given.
use rpc_base_on_zookeeper.Base.{
  ℕ, suc, ◌+◌, ◌%◌, ◌^◌, ◌<◌, ◌≡◌, inc64, List, [], ◌∷◌, arith, Bytes, if◌then◌else◌,
}
use rpc_base_on_zookeeper.Table.{find}
use rpc_base_on_zookeeper.Messages.{CacheItem}
use rpc_base_on_zookeeper.Cache.{
  Cache, set, get, delete, exists, batch_get, cleanup_expired_keys, batch_item, count_item,
  batch_loop,
}
use rpc_base_on_zookeeper.Cache.Requests.{
  Request, sets, gets, deletes, asks, lists, cleans, Answer, got, listed, serve, answers, after,
}

abbrev pub items_found : List CacheItem → ℕ
items_found [] = 0
items_found (i ∷ is) = (if i.exists then 1 else 0) + items_found is

abbrev pub items_missed : List CacheItem → ℕ
items_missed [] = 0
items_missed (i ∷ is) = (if i.exists then 0 else 1) + items_missed is

abbrev pub hits_in : Answer → ℕ
hits_in (got a) = if a.exists then 1 else 0
hits_in (listed a) = items_found a.items
hits_in _ = 0

abbrev pub misses_in : Answer → ℕ
misses_in (got a) = if a.exists then 0 else 1
misses_in (listed a) = items_missed a.items
misses_in _ = 0

abbrev pub total {ℓ} : {A : Type ℓ} → (A → ℕ) → List A → ℕ
total f [] = 0
total f (x ∷ xs) = f x + total f xs

abbrev pub operations : ℕ × Request → ℕ
operations (now, cleans clock) = 0
operations _ = 1

-- The counters stay below 2 ^ 64.
abbrev pub IsCounted : Cache → Type 0
IsCounted c = (c.hit_count < 2 ^ 64) × (c.miss_count < 2 ^ 64) × (c.total_operations < 2 ^ 64)

-- `d` has the counters of `c` with so many hits, misses and operations more, modulo 2 ^ 64.
abbrev Counts : ℕ → ℕ → ℕ → Cache → Cache → Type 0
Counts h m o c d =
    (d.hit_count ≡ (c.hit_count + h) % 2 ^ 64)
    × (d.miss_count ≡ (c.miss_count + m) % 2 ^ 64)
    × (d.total_operations ≡ (c.total_operations + o) % 2 ^ 64)

Counts-IsCounted : (h m o : ℕ) (c d : Cache) → Counts h m o c d → IsCounted d
Counts-IsCounted h m o c d k = omega arith

Counts-trans :
    (h m o h' m' o' : ℕ) (c d e : Cache)
    → Counts h m o c d
    → Counts h' m' o' d e
    → Counts (h + h') (m + m') (o + o') c e
Counts-trans h m o h' m' o' c d e k l = omega arith

count_item_lem :
    (item : CacheItem) (c : Cache)
    → IsCounted c
    → Counts (if item.exists then 1 else 0) (if item.exists then 0 else 1) 0 c (count_item item c)
unfolding count_item inc64
count_item_lem item c k = ground arith

batch_loop-Counts :
    (clock : ℕ → ℕ) (n : ℕ) (keys : List Bytes) (c : Cache)
    → IsCounted c
    → let (d, items) = batch_loop clock n keys c in
      Counts (items_found items) (items_missed items) 0 c d
unfolding batch_loop
batch_loop-Counts clock n [] c k = omega arith
batch_loop-Counts clock n (key ∷ keys) c k =
    let item : CacheItem = batch_item key (find key c.store) (clock n) in
    let step = count_item_lem item c k in
    let d = count_item item c in
    let rest = batch_loop clock (suc n) keys d in
    Counts-trans (if item.exists then 1 else 0) (if item.exists then 0 else 1) 0
      (items_found rest.1) (items_missed rest.1) 0 c d rest.0 step
      (batch_loop-Counts clock (suc n) keys d (Counts-IsCounted _ _ 0 c d step))

serve-Counts :
    (now : ℕ) (r : Request) (c : Cache)
    → IsCounted c
    → let (d, a) = serve r now c in Counts (hits_in a) (misses_in a) (operations (now, r)) c d
unfolding serve set get delete exists batch_get cleanup_expired_keys inc64
serve-Counts now (sets r) c k = ground arith
serve-Counts now (gets key) c k = ground arith
serve-Counts now (deletes key) c k = ground arith
serve-Counts now (asks key) c k = ground arith
serve-Counts now (lists keys clock) c k = ground (arith, batch_loop-Counts clock 0 keys c k)
serve-Counts now (cleans clock) c k = ground arith

-- From counters below 2 ^ 64, over any history of Set, Get, Delete, Exists, BatchGet and cleanup passes
-- the hit counter grows by the number of keys that Get and BatchGet found, the miss counter by the
-- number that they did not, and the operation counter by one for each of these requests but a
-- cleanup pass, all modulo 2 ^ 64.
pub after_counts :
    (rs : List (ℕ × Request)) (c : Cache)
    → IsCounted c
    → ((after rs c).hit_count ≡ (c.hit_count + total hits_in (answers rs c)) % 2 ^ 64)
      × ((after rs c).miss_count ≡ (c.miss_count + total misses_in (answers rs c)) % 2 ^ 64)
      × ((after rs c).total_operations ≡ (c.total_operations + total operations rs) % 2 ^ 64)
unfolding answers after
after_counts [] c k = omega arith
after_counts ((now, r) ∷ rs) c k =
    let (d, a) = serve r now c in
    let step = serve-Counts now r c k in
    Counts-trans (hits_in a) (misses_in a) (operations (now, r)) (total hits_in (answers rs d))
      (total misses_in (answers rs d)) (total operations rs) c d (after rs d) step
      (after_counts rs d (Counts-IsCounted _ _ _ c d step))
