-- ===== src/Cache/Refinement.antt =====
-- CacheService.cc against an abstract cache: a function from times and keys to what a reader sees, a
-- value and what is said of its lifetime. The cleanup thread is a request like the others, at any
-- point of the history. GetStats, which changes nothing, is not a request here (Cache.Stats).
use rpc_base_on_zookeeper.Base.{
  Bytes, ◌⊎◌, bytes_eq, ℕ, suc, ◌+ℤ◌, ℤ, pos, scale, eqbℤ, ◌≤◌, ◌≡◌, refl, ap, ◌∙◌, true, false,
  Option, none, some, List, [], ◌∷◌, is_some, inl, inr, arith, Bool-cases, if◌then◌else◌,
}
use rpc_base_on_zookeeper.Table.{find}
use rpc_base_on_zookeeper.Table.Keys.{UniqueKeys}
use rpc_base_on_zookeeper.Messages.{ResultCode, CacheGetResponse, CacheItem}
use rpc_base_on_zookeeper.Cache.{
  Cache, CacheEntry, is_expired, hit_response, get_found, delete_found, empty_cache, second,
  success_result, not_found_result, expired_result, set, get, delete, exists,
}
use native.Mathlib.Nat.{le_trans}
use rpc_base_on_zookeeper.Cache.Batch.{
  seen_item, visible_items, batch_get-store, batch_get-items, batch_get-result,
}
use rpc_base_on_zookeeper.Cache.View.{
  live_view, live_value-view, seen, value_in, reported, within, get-visible, exists-visible,
  seen-set, seen-delete, cleanup-seen, set-UniqueKeys, delete-UniqueKeys, cleanup-UniqueKeys,
}
use rpc_base_on_zookeeper.Cache.Requests.{
  Request, sets, gets, deletes, asks, lists, cleans, Answer, acknowledged, got, present, listed,
  cleaned, serve, answers,
}

-- The abstract cache: at a time and under a key, a value with the second in which it ends, or 0.
abbrev pub Seen : Type 0
Seen = ℕ → Bytes → Option (Bytes × ℤ)

abbrev pub seen_items : Seen → (ℕ → ℕ) → ℕ → List Bytes → List CacheItem
seen_items s clock n [] = []
seen_items s clock n (key ∷ keys) =
    seen_item key (value_in (s (clock n) key)) ∷ seen_items s clock (suc n) keys

-- What a request makes of the abstract cache.
unfoldable pub promise : Request → ℕ → Seen → Seen
promise (sets r) now s = λ later key.
    if bytes_eq r.key key
    then (if within r.expire_seconds now later
        then some (
          r.value,
          reported (pos now +ℤ scale second r.expire_seconds) (eqbℤ r.expire_seconds (pos 0)),
        )
        else none)
    else s later key
promise (deletes key) now s = λ later j. if bytes_eq key j then none else s later j
promise _ now s = s

abbrev pub missed : ResultCode → CacheGetResponse
missed result = record { result = result; value = []; exists = false; expire_time = pos 0 }

-- Get under a key with this in the abstract cache. Where nothing is seen, whether the key was never
-- there or has expired depends on the cleanup thread, and so does what is said.
abbrev pub GetMeets : Option (Bytes × ℤ) → Answer → Type 0
GetMeets (some (v, t)) a =
    a ≡ got (record { result = success_result; value = v; exists = true; expire_time = t })
GetMeets none a = (a ≡ got (missed not_found_result)) ⊎ (a ≡ got (missed expired_result))

abbrev pub DeleteMeets : Option (Bytes × ℤ) → Answer → Type 0
DeleteMeets (some x) a = a ≡ acknowledged success_result
DeleteMeets none a = (a ≡ acknowledged success_result) ⊎ (a ≡ acknowledged not_found_result)

-- The answers that the abstract cache allows.
abbrev pub Meets : Request → ℕ → Seen → Answer → Type 0
Meets (sets r) now s a = a ≡ acknowledged success_result
Meets (gets key) now s a = GetMeets (s now key) a
Meets (deletes key) now s a = DeleteMeets (s now key) a
Meets (asks key) now s a =
    a ≡ present (record { result = success_result; exists = is_some (s now key) })
Meets (lists keys clock) now s a =
    a ≡ listed (record { result = success_result; items = seen_items s clock 0 keys })
Meets (cleans clock) now s a = a ≡ cleaned

-- One answer for each request, each allowed.
abbrev pub AllMeet : List (ℕ × Request) → Seen → List Answer → Type 0
AllMeet [] s [] = Unit
AllMeet [] s (a ∷ told) = ⊥
AllMeet (x ∷ rs) s [] = ⊥
AllMeet ((now, r) ∷ rs) s (a ∷ told) = Meets r now s a × AllMeet rs (promise r now s) told

-- A cleanup pass reads the clock not after its request; BatchGet not before the last request.
abbrev pub IsClocked : ℕ → ℕ → Request → Type 0
IsClocked start now (cleans clock) = (i : ℕ) → clock i ≤ now
IsClocked start now (lists keys clock) = (i : ℕ) → start ≤ clock i
IsClocked start now _ = Unit

-- The times of a history do not fall.
abbrev pub IsOrdered : ℕ → List (ℕ × Request) → Type 0
IsOrdered start [] = Unit
IsOrdered start ((now, r) ∷ rs) = (start ≤ now) × IsClocked start now r × IsOrdered now rs

record Agrees (start : ℕ) (c : Cache) (s : Seen) : Type 0 where
  unique : UniqueKeys c.store
  sees : (later : ℕ) (key : Bytes) → start ≤ later → seen c later key ≡ s later key

serve-Agrees :
    (start now : ℕ) (r : Request) (c : Cache) (s : Seen)
    → start ≤ now
    → IsClocked start now r
    → Agrees start c s
    → Agrees now (serve r now c).0 (promise r now s)
unfolding serve promise
serve-Agrees start now (sets r) c s h k a = record {
  unique = set-UniqueKeys c a.unique r now;
  sees = λ later key l. rw seen-set (ground (arith, a.sees later key));
}
serve-Agrees start now (gets key) c s h k a = record {
  unique = rw ((get-visible key now c).2) a.unique;
  sees = λ later j l. rw ((get-visible key now c).2) (a.sees later j (omega arith));
}
serve-Agrees start now (deletes key) c s h k a = record {
  unique = delete-UniqueKeys c a.unique key;
  sees = λ later j l. rw seen-delete (ground (arith, a.sees later j));
}
serve-Agrees start now (asks key) c s h k a = record {
  unique = rw ((exists-visible key now c).1) a.unique;
  sees = λ later j l. rw ((exists-visible key now c).1) (a.sees later j (omega arith));
}
serve-Agrees start now (lists keys clock) c s h k a = record {
  unique = rw (batch_get-store keys clock c) a.unique;
  sees = λ later j l. rw (batch_get-store keys clock c) (a.sees later j (omega arith));
}
serve-Agrees start now (cleans clock) c s h k a = record {
  unique = cleanup-UniqueKeys c a.unique clock;
  sees = λ later j l.
      cleanup-seen clock c later j a.unique (λ i. le_trans (k i) l) ∙ a.sees later j (omega arith);
}

seen_items-Agrees :
    (start : ℕ) (c : Cache) (s : Seen) (clock : ℕ → ℕ) (n : ℕ) (keys : List Bytes)
    → ((i : ℕ) → start ≤ clock i)
    → Agrees start c s
    → visible_items clock n keys c ≡ seen_items s clock n keys
seen_items-Agrees start c s clock n [] k a = refl
seen_items-Agrees start c s clock n (key ∷ keys) k a = cc (
  live_value-view (find key c.store) (clock n),
  a.sees (clock n) key (k n),
  seen_items-Agrees start c s clock (suc n) keys k a,
)

found-Meets :
    (o : Option CacheEntry) (now : ℕ) (c : Cache)
    → GetMeets (live_view o now) (got (get_found o now c).1)
unfolding get_found hit_response
found-Meets none now c = inl refl
found-Meets (some e) now c = elim (Bool-cases (is_expired e now)) [
  | inl expired ↦ rw expired (inr refl)
  | inr alive ↦ ground (arith, alive)
]

get-Meets : (key : Bytes) (now : ℕ) (c : Cache) → GetMeets (seen c now key) (got (get key now c).1)
unfolding get
get-Meets key now c = found-Meets (find key c.store) now c

deleted-Meets :
    (o : Option CacheEntry) (key : Bytes) (now : ℕ) (c : Cache)
    → DeleteMeets (live_view o now) (acknowledged (delete_found o key c).1)
unfolding delete_found
deleted-Meets none key now c = inr refl
deleted-Meets (some e) key now c = elim (Bool-cases (is_expired e now)) [
  | inl expired ↦ rw expired (inl refl)
  | inr alive ↦ rw alive refl
]

delete-Meets :
    (key : Bytes) (now : ℕ) (c : Cache)
    → DeleteMeets (seen c now key) (acknowledged (delete key c).1)
unfolding delete
delete-Meets key now c = deleted-Meets (find key c.store) key now c

exists-answer :
    (key : Bytes) (now : ℕ) (c : Cache)
    → (exists key now c).1 ≡ record { result = success_result; exists = is_some (seen c now key) }
unfolding exists
exists-answer key now c = ground arith

serve-Meets :
    (start now : ℕ) (r : Request) (c : Cache) (s : Seen)
    → start ≤ now
    → IsClocked start now r
    → Agrees start c s
    → Meets r now s (serve r now c).1
unfolding serve set
serve-Meets start now (sets r) c s h k a = refl
serve-Meets start now (gets key) c s h k a = rw (a.sees now key h) at (get-Meets key now c)
serve-Meets start now (deletes key) c s h k a = rw (a.sees now key h) at (delete-Meets key now c)
serve-Meets start now (asks key) c s h k a =
    ap present (rw (a.sees now key h) at (exists-answer key now c))
serve-Meets start now (lists keys clock) c s h k a = cc (
  batch_get-result keys clock c,
  batch_get-items keys clock c,
  seen_items-Agrees start c s clock 0 keys k a,
)
serve-Meets start now (cleans clock) c s h k a = refl

answers-meet :
    (start : ℕ) (rs : List (ℕ × Request)) (c : Cache) (s : Seen)
    → IsOrdered start rs
    → Agrees start c s
    → AllMeet rs s (answers rs c)
unfolding answers
answers-meet start [] c s o a = tt
answers-meet start ((now, r) ∷ rs) c s o a = (
  serve-Meets start now r c s o.0 o.1 a,
  answers-meet now rs (serve r now c).0 (promise r now s) o.2
      (serve-Agrees start now r c s o.0 o.1 a),
)

-- From the empty cache, over any history of Set, Get, Delete, Exists, BatchGet and cleanup passes whose
-- times do not fall, each request has one answer, the whole response, and the abstract cache allows
-- it. It leaves no choice but for a Get or a Delete of a key under which nothing is seen: Get says
-- without a value that the key was not found or that it has expired, and Delete that it succeeded
-- or that the key was not found. A cleanup pass reads the clock not after its time, BatchGet not
-- before the request in front of it.
pub answers-AllMeet :
    (rs : List (ℕ × Request)) → IsOrdered 0 rs → AllMeet rs (λ t k. none) (answers rs empty_cache)
unfolding find
answers-AllMeet rs o =
    answers-meet 0 rs empty_cache _ o (record { unique = tt; sees = λ later key l. refl })
