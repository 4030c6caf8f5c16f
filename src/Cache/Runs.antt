-- ===== src/Cache/Runs.antt =====
-- Runs of the cache of CacheService.cc.
use rpc_base_on_zookeeper.Base.{
  bytes_eq, int64, ltb, if◌then◌else◌, ◌+ℤ◌, scale, ℕ, ◌+◌, ◌*◌, ◌%◌, ◌^◌, pos, ◌≡◌, refl, true,
  none, List, [], ◌∷◌, arith,
}
use rpc_base_on_zookeeper.Table.{find, assign}
use rpc_base_on_zookeeper.Messages.{CacheSetRequest}
use rpc_base_on_zookeeper.Cache.{
  empty_cache, success_result, expired_result, to_seconds, second, set, get, get_stats, is_expired,
  cache_entry,
}
use rpc_base_on_zookeeper.Cache.Requests.{
  Request, sets, gets, deletes, asks, lists, cleans, got, acknowledged, answers, serve, after,
}
use rpc_base_on_zookeeper.Cache.Refinement.{missed, IsOrdered, AllMeet, answers-AllMeet}
use rpc_base_on_zookeeper.Cache.Counting.{
  IsCounted, total, hits_in, misses_in, operations, after_counts,
}
use rpc_base_on_zookeeper.Cache.Stats.{entry_bytes, get_stats-history}

abbrev two_seconds : CacheSetRequest
two_seconds = record { key = b'k' ∷ []; value = b'v' ∷ []; expire_seconds = pos 2 }

abbrev for_ever : CacheSetRequest
for_ever = record { key = b'j' ∷ []; value = b'w' ∷ []; expire_seconds = pos 0 }

-- One value expires between two reads, and is cleaned away.
abbrev history : List (ℕ × Request)
history =
    (0, sets two_seconds)
    ∷ (1, sets for_ever)
    ∷ (second, gets (b'k' ∷ []))
    ∷ (3 * second, gets (b'k' ∷ []))
    ∷ (3 * second, cleans (λ i. 3 * second))
    ∷ (3 * second, asks (b'j' ∷ []))
    ∷ (4 * second, lists ((b'j' ∷ []) ∷ (b'k' ∷ []) ∷ []) (λ i. 4 * second))
    ∷ (5 * second, deletes (b'j' ∷ []))
    ∷ []

history-IsOrdered : IsOrdered 0 history
history-IsOrdered = ground arith

answers-AllMeet_example : AllMeet history (λ t k. none) (answers history empty_cache)
answers-AllMeet_example = answers-AllMeet history history-IsOrdered

short_history : List (ℕ × Request)
short_history = (0, sets two_seconds) ∷ (1, gets (b'k' ∷ [])) ∷ (3 * second, gets (b'k' ∷ [])) ∷ []

short_run :
    answers short_history empty_cache
    ≡ acknowledged success_result
      ∷ got (record {
        result = success_result;
        value = b'v' ∷ [];
        exists = true;
        expire_time = pos 2;
      })
      ∷ got (missed expired_result)
      ∷ []
unfolding short_history answers serve set get cache_entry is_expired find assign bytes_eq ◌+ℤ◌ scale
    to_seconds
short_run = refl

empty-IsCounted : IsCounted empty_cache
empty-IsCounted = omega arith

after_counts_example :
    ((after history empty_cache).hit_count
      ≡ (0 + total hits_in (answers history empty_cache)) % 2 ^ 64)
    × ((after history empty_cache).miss_count
        ≡ (0 + total misses_in (answers history empty_cache)) % 2 ^ 64)
    × ((after history empty_cache).total_operations ≡ (0 + total operations history) % 2 ^ 64)
after_counts_example = after_counts history empty_cache empty-IsCounted

short_hits : total hits_in (answers short_history empty_cache) ≡ 1
short_hits = rw short_run refl

short_misses : total misses_in (answers short_history empty_cache) ≡ 1
short_misses = rw short_run refl

get_stats-history_example :
    let hits = total hits_in (answers short_history empty_cache) in
    let misses = total misses_in (answers short_history empty_cache) in
    let c = after short_history empty_cache in
    let response = (get_stats 64 c).1 in
    (response.hit_count ≡ pos hits)
    × (response.miss_count ≡ pos misses)
    × (response.hit_rate
        ≡ (if ltb 0 (hits + misses) then (pos hits, pos (hits + misses)) else (pos 0, pos 1)))
    × (response.memory_usage ≡ int64 (total (entry_bytes 64) c.store % 2 ^ 64))
get_stats-history_example =
    get_stats-history 64 short_history (omega (arith, short_hits, short_misses))
