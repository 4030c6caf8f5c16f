-- ===== src/Cache.antt =====
-- example/callee/CacheService.h and CacheService.cc: the cache store with expiry, its handlers and
-- the cleanup thread. A handler is a function of the state and of the clock readings it makes; it
-- returns the new state and the response with which `done` is run. Times are nanoseconds of
-- `steady_clock`; the counters are 64-bit patterns. The `catch` blocks, which only a failing
-- allocation could reach, are left out.
pub mod View
pub mod Requests
pub mod Refinement
pub mod Batch
pub mod Counting
pub mod Stats
mod Runs
use rpc_base_on_zookeeper.Base.{
  Bytes, text, ℕ, zero, suc, ◌+◌, ◌-◌, ◌*◌, ◌/◌, ◌%◌, ◌^◌, ℤ, pos, negsuc, pos_part, neg_part,
  sub_ℕ, ◌+ℤ◌, scale, ltbℤ, eqbℤ, int64, inc64, Bool, true, false, not, Option, none, some, List,
  [], ◌∷◌, length, if◌then◌else◌,
}
use rpc_base_on_zookeeper.Table.{Table, find, assign, erase}
use rpc_base_on_zookeeper.Messages.{
  ResultCode, CacheSetRequest, CacheGetResponse, default_get, CacheExistsResponse, default_exists,
  CacheItem, CacheBatchGetResponse, CacheStatsResponse,
}

pub record CacheEntry : Type 0 where
  pub value : Bytes
  pub expire_time : ℤ
  pub never_expire : Bool

abbrev pub second : ℕ
second = 1000000000

-- The constructor with a value and a lifetime; `expire_time` keeps the epoch if it is not set.
unfoldable pub cache_entry : Bytes → ℤ → ℕ → CacheEntry
cache_entry val expire_seconds now =
    let never : Bool = eqbℤ expire_seconds (pos 0) in
    record {
      value = val;
      expire_time = if not never then pos now +ℤ scale second expire_seconds else pos 0;
      never_expire = never;
    }

unfoldable pub is_expired : CacheEntry → ℕ → Bool
is_expired e now = if e.never_expire then false else ltbℤ e.expire_time (pos now)

pub record Cache : Type 0 where
  pub store : Table CacheEntry
  pub hit_count : ℕ
  pub miss_count : ℕ
  pub total_operations : ℕ

abbrev pub empty_cache : Cache
empty_cache = record { store = []; hit_count = 0; miss_count = 0; total_operations = 0 }

abbrev pub success_result : ResultCode
success_result = record { errcode = pos 0; errmsg = text "Success" }

abbrev pub not_found_result : ResultCode
not_found_result = record { errcode = pos 1; errmsg = text "Key not found" }

abbrev pub expired_result : ResultCode
expired_result = record { errcode = pos 1; errmsg = text "Key expired" }

unfoldable pub set : CacheSetRequest → ℕ → Cache → Cache × ResultCode
set request now c =
    let entry = cache_entry request.value request.expire_seconds now in
    (
      record c {
        store = assign request.key entry c.store;
        total_operations = inc64 c.total_operations;
      },
      success_result,
    )

-- `duration_cast<seconds>`, which rounds towards zero.
unfoldable pub to_seconds : ℤ → ℤ
to_seconds (pos n) = pos (n / second)
to_seconds (negsuc n) = sub_ℕ 0 ((n + 1) / second)

hit_response : CacheEntry → CacheGetResponse
hit_response e =
    let r : CacheGetResponse = record default_get {
      result = success_result;
      value = e.value;
      exists = true;
    } in
    if not e.never_expire then record r { expire_time = to_seconds e.expire_time } else r

get_found : Option CacheEntry → ℕ → Cache → Cache × CacheGetResponse
get_found (some e) now c =
    if not (is_expired e now)
    then (record c { hit_count = inc64 c.hit_count }, hit_response e)
    else (
      record c { miss_count = inc64 c.miss_count },
      record default_get { result = expired_result; exists = false },
    )
get_found none now c = (
  record c { miss_count = inc64 c.miss_count },
  record default_get { result = not_found_result; exists = false },
)

abbrev pub counted {ℓ} : {R : Type ℓ} → Cache × R → Cache × R
counted (c, r) = (record c { total_operations = inc64 c.total_operations }, r)

unfoldable pub get : Bytes → ℕ → Cache → Cache × CacheGetResponse
unfolding hit_response get_found
get key now c = counted (get_found (find key c.store) now c)

delete_found : Option CacheEntry → Bytes → Cache → Cache × ResultCode
delete_found (some e) key c = (record c { store = erase key c.store }, success_result)
delete_found none key c = (c, not_found_result)

unfoldable pub delete : Bytes → Cache → Cache × ResultCode
unfolding delete_found
delete key c = counted (delete_found (find key c.store) key c)

abbrev is_live : Option CacheEntry → ℕ → Bool
is_live none now = false
is_live (some e) now = not (is_expired e now)

unfoldable pub exists : Bytes → ℕ → Cache → Cache × CacheExistsResponse
exists key now c =
    counted (
      c,
      record default_exists { result = success_result; exists = is_live (find key c.store) now },
    )

batch_item : Bytes → Option CacheEntry → ℕ → CacheItem
batch_item key (some e) now =
    if not (is_expired e now)
    then record { key = key; value = e.value; exists = true }
    else record { key = key; value = []; exists = false }
batch_item key none now = record { key = key; value = []; exists = false }

count_item : CacheItem → Cache → Cache
count_item item c =
    if item.exists
    then record c { hit_count = inc64 c.hit_count }
    else record c { miss_count = inc64 c.miss_count }

-- The loop over the keys; the n-th key is checked against the n-th reading of the clock.
pub batch_loop : (ℕ → ℕ) → ℕ → List Bytes → Cache → Cache × List CacheItem
batch_loop clock n [] c = (c, [])
batch_loop clock n (key ∷ keys) c =
    let item = batch_item key (find key c.store) (clock n) in
    let (c', items) = batch_loop clock (suc n) keys (count_item item c) in (c', item ∷ items)

unfoldable pub batch_get : List Bytes → (ℕ → ℕ) → Cache → Cache × CacheBatchGetResponse
unfolding batch_item count_item batch_loop
batch_get keys clock c =
    let (c', items) = batch_loop clock 0 keys c in
    counted (c', record { result = success_result; items = items })

-- `sizeof(CacheEntry)` is the compiler's.
memory_loop : ℕ → ℕ → Table CacheEntry → ℕ
memory_loop entry_size total [] = total
memory_loop entry_size total ((key, e) ∷ t) =
    memory_loop entry_size ((total + (length key + length e.value + entry_size)) % 2 ^ 64) t

unfoldable pub calculate_memory_usage : ℕ → Cache → ℕ
unfolding memory_loop
calculate_memory_usage entry_size c = memory_loop entry_size 0 c.store

unfoldable pub get_stats : ℕ → Cache → Cache × CacheStatsResponse
get_stats entry_size c =
    let total_requests = int64 ((c.hit_count + c.miss_count) % 2 ^ 64) in
    (
      c,
      record {
        result = success_result;
        total_keys = int64 (length c.store % 2 ^ 64);
        memory_usage = int64 (calculate_memory_usage entry_size c);
        hit_count = int64 c.hit_count;
        miss_count = int64 c.miss_count;
        hit_rate =
            if ltbℤ (pos 0) total_requests
            then (int64 c.hit_count, total_requests)
            else (pos 0, pos 1);
      },
    )

-- One pass of the cleanup thread; the n-th entry is checked against the n-th reading of the clock.
pub sweep : (ℕ → ℕ) → ℕ → Table CacheEntry → Table CacheEntry
sweep clock n [] = []
sweep clock n ((key, e) ∷ t) =
    let rest = sweep clock (suc n) t in if is_expired e (clock n) then rest else (key, e) ∷ rest

unfoldable pub cleanup_expired_keys : (ℕ → ℕ) → Cache → Cache
unfolding sweep
cleanup_expired_keys clock c = record c { store = sweep clock 0 c.store }
