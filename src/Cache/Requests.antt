-- ===== src/Cache/Requests.antt =====
-- Histories of requests to CacheService.cc, with the passes of its cleanup thread. GetStats, which
-- changes nothing, is not in them.
use rpc_base_on_zookeeper.Base.{Bytes, ℕ, List, [], ◌∷◌}
use rpc_base_on_zookeeper.Messages.{
  ResultCode, CacheSetRequest, CacheGetResponse, CacheExistsResponse, CacheBatchGetResponse,
}
use rpc_base_on_zookeeper.Cache.{Cache, set, get, delete, exists, batch_get, cleanup_expired_keys}

pub data Request : Type 0 where
  sets : CacheSetRequest → Request
  gets deletes asks : Bytes → Request
  lists : List Bytes → (ℕ → ℕ) → Request
  cleans : (ℕ → ℕ) → Request

-- The whole response of each.
pub data Answer : Type 0 where
  acknowledged : ResultCode → Answer
  got : CacheGetResponse → Answer
  present : CacheExistsResponse → Answer
  listed : CacheBatchGetResponse → Answer
  cleaned : Answer

-- The service, one request at a time; a cleanup pass ends at the time of its request.
unfoldable pub serve : Request → ℕ → Cache → Cache × Answer
serve (sets r) now c = let (c', a) = set r now c in (c', acknowledged a)
serve (gets key) now c = let (c', a) = get key now c in (c', got a)
serve (deletes key) now c = let (c', a) = delete key c in (c', acknowledged a)
serve (asks key) now c = let (c', a) = exists key now c in (c', present a)
serve (lists keys clock) now c = let (c', a) = batch_get keys clock c in (c', listed a)
serve (cleans clock) now c = (cleanup_expired_keys clock c, cleaned)

unfoldable pub after : List (ℕ × Request) → Cache → Cache
after [] c = c
after ((now, r) ∷ rs) c = after rs (serve r now c).0

unfoldable pub answers : List (ℕ × Request) → Cache → List Answer
answers [] c = []
answers ((now, r) ∷ rs) c = let (c', a) = serve r now c in a ∷ answers rs c'
