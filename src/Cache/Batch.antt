-- ===== src/Cache/Batch.antt =====
-- BatchGet of CacheService.cc.
use rpc_base_on_zookeeper.Base.{
  Bytes, ℕ, suc, ◌≡◌, refl, ap, Option, none, some, List, [], ◌∷◌, is_some, arith,
}
use rpc_base_on_zookeeper.Table.{find}
use rpc_base_on_zookeeper.Messages.{CacheItem}
use rpc_base_on_zookeeper.Cache.{
  Cache, CacheEntry, success_result, batch_item, count_item, batch_loop, batch_get,
}
use rpc_base_on_zookeeper.Cache.View.{visible, live_value, value_of}

abbrev pub seen_item : Bytes → Option Bytes → CacheItem
seen_item key o = record { key = key; value = value_of o; exists = is_some o }

-- One item for each key, in the order of the keys, with the value that is visible as it is checked.
abbrev pub visible_items : (ℕ → ℕ) → ℕ → List Bytes → Cache → List CacheItem
visible_items clock n [] c = []
visible_items clock n (key ∷ keys) c =
    seen_item key (visible c (clock n) key) ∷ visible_items clock (suc n) keys c

store-count_item : (item : CacheItem) (c : Cache) → (count_item item c).store ≡ c.store
unfolding count_item
store-count_item item c = ground arith

batch_item-seen :
    (key : Bytes) (o : Option CacheEntry) (now : ℕ)
    → batch_item key o now ≡ seen_item key (live_value o now)
unfolding batch_item
batch_item-seen key none now = refl
batch_item-seen key (some e) now = ground arith

visible_items-store :
    (clock : ℕ → ℕ) (n : ℕ) (keys : List Bytes) (c d : Cache)
    → c.store ≡ d.store
    → visible_items clock n keys c ≡ visible_items clock n keys d
visible_items-store clock n [] c d e = refl
visible_items-store clock n (key ∷ keys) c d e =
    cc (ap (λ t. live_value (find key t) (clock n)) e, visible_items-store clock (suc n) keys c d e)

batch_loop_lem :
    (clock : ℕ → ℕ) (n : ℕ) (keys : List Bytes) (c : Cache)
    → ((batch_loop clock n keys c).0.store ≡ c.store)
      × ((batch_loop clock n keys c).1 ≡ visible_items clock n keys c)
unfolding batch_loop
batch_loop_lem clock n [] c = (refl, refl)
batch_loop_lem clock n (key ∷ keys) c =
    let item : CacheItem = batch_item key (find key c.store) (clock n) in
    let ih = batch_loop_lem clock (suc n) keys (count_item item c) in
    let kept = store-count_item item c in
    (
      cc (ih.0, kept),
      cc (
        ih.1,
        batch_item-seen key (find key c.store) (clock n),
        visible_items-store clock (suc n) keys (count_item item c) c kept,
      ),
    )

pub batch_get-store :
    (keys : List Bytes) (clock : ℕ → ℕ) (c : Cache) → (batch_get keys clock c).0.store ≡ c.store
unfolding batch_get
batch_get-store keys clock c = (batch_loop_lem clock 0 keys c).0

pub batch_get-items :
    (keys : List Bytes) (clock : ℕ → ℕ) (c : Cache)
    → (batch_get keys clock c).1.items ≡ visible_items clock 0 keys c
unfolding batch_get
batch_get-items keys clock c = (batch_loop_lem clock 0 keys c).1

pub batch_get-result :
    (keys : List Bytes) (clock : ℕ → ℕ) (c : Cache)
    → (batch_get keys clock c).1.result ≡ success_result
unfolding batch_get
batch_get-result keys clock c = refl
