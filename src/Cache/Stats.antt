-- ===== src/Cache/Stats.antt =====
-- The figures of GetStats of CacheService.cc against the answers that clients were given.
use rpc_base_on_zookeeper.Base.{
  Bytes, ℕ, ◌+◌, ◌%◌, ◌^◌, ◌<◌, ◌≡◌, refl, pos, int64, ltb, List, [], ◌∷◌, length, arith,
  if◌then◌else◌,
}
use rpc_base_on_zookeeper.Table.{Table}
use rpc_base_on_zookeeper.Cache.{
  CacheEntry, empty_cache, memory_loop, calculate_memory_usage, get_stats,
}
use rpc_base_on_zookeeper.Cache.Requests.{Request, answers, after}
use rpc_base_on_zookeeper.Cache.Counting.{total, hits_in, misses_in, after_counts}

-- What the keys, the values and the entries take.
abbrev pub entry_bytes : ℕ → Bytes × CacheEntry → ℕ
entry_bytes entry_size (key, e) = length key + length e.value + entry_size

memory_loop-total :
    (entry_size sum : ℕ) (t : Table CacheEntry)
    → sum < 2 ^ 64
    → memory_loop entry_size sum t ≡ (sum + total (entry_bytes entry_size) t) % 2 ^ 64
unfolding memory_loop
memory_loop-total entry_size sum [] h = omega arith
memory_loop-total entry_size sum ((key, e) ∷ t) h = omega (
  arith,
  memory_loop-total entry_size ((sum + (length key + length e.value + entry_size)) % 2 ^ 64) t
      (omega arith),
)

int64_small : (n : ℕ) → n < 2 ^ 63 → int64 n ≡ pos n
unfolding int64
int64_small n h = ground arith

-- After any history of Set, Get, Delete, Exists, BatchGet and cleanup passes from the empty cache in
-- which fewer than 2 ^ 63 keys were asked for, GetStats reports the number of keys that Get and
-- BatchGet found and the number that they did not, as hit rate the hits over the sum of both, or 0
-- if nothing was asked for, and as memory the bytes of all keys and values and the size of an entry
-- for each, modulo 2 ^ 64.
pub get_stats-history :
    (entry_size : ℕ) (rs : List (ℕ × Request))
    → let hits = total hits_in (answers rs empty_cache) in
      let misses = total misses_in (answers rs empty_cache) in
      let c = after rs empty_cache in
      let response = (get_stats entry_size c).1 in
      hits + misses < 2 ^ 63
      → (response.hit_count ≡ pos hits)
        × (response.miss_count ≡ pos misses)
        × (response.hit_rate
            ≡ (if ltb 0 (hits + misses) then (pos hits, pos (hits + misses)) else (pos 0, pos 1)))
        × (response.memory_usage ≡ int64 (total (entry_bytes entry_size) c.store % 2 ^ 64))
unfolding get_stats calculate_memory_usage
get_stats-history entry_size rs h =
    let (hit, missed, _) = after_counts rs empty_cache (omega arith) in
    let c = after rs empty_cache in
    let memory : memory_loop entry_size 0 c.store
        ≡ total (entry_bytes entry_size) c.store % 2 ^ 64 =
      omega (arith, memory_loop-total entry_size 0 c.store (omega arith)) in
    let hits = total hits_in (answers rs empty_cache) in
    let misses = total misses_in (answers rs empty_cache) in
    let hit' : c.hit_count ≡ hits = omega arith in
    let missed' : c.miss_count ≡ misses = omega arith in
    let both : (hits + misses) % 2 ^ 64 ≡ hits + misses = omega arith in
    rw
      (
        hit',
        missed',
        both,
        memory,
        int64_small hits (omega arith),
        int64_small misses (omega arith),
        int64_small (hits + misses) h,
      )
      (refl, refl, ground arith, refl)
