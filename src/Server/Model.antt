-- ===== src/Server/Model.antt =====
-- A way to write the requests of example/user.proto, in which a length, an id or a number stands as one
-- element; it is not the one of protobuf, and shows that CodecLaws can hold.
use rpc_base_on_zookeeper.Base.{
  Bytes, ℕ, zero, suc, ℤ, pos, negsuc, ◌≡◌, refl, ap, Option, none, some, List, [], ◌∷◌, ◌++◌,
  length, take, drop, take-length-append, drop-length-append,
}
use rpc_base_on_zookeeper.Server.{
  Method, set_method, get_method, delete_method, exists_method, batch_get_method, get_stats_method,
  login_method, register_method, sum_method, profile_method, Asked, sets, gets, deletes,
  asks_exists, gets_batch, asks_stats, logs_in, registers, sums, asks_profile, method_of, Codec,
}
use rpc_base_on_zookeeper.Server.Requests.{CodecLaws}

write_texts : List Bytes → Bytes
write_texts [] = []
write_texts (s ∷ ss) = length s ∷ s ++ write_texts ss

read_texts : ℕ → Bytes → List Bytes
read_texts zero b = []
read_texts (suc n) [] = []
read_texts (suc n) (l ∷ b) = take l b ∷ read_texts n (drop l b)

read-write_texts : (ss : List Bytes) → read_texts (length ss) (write_texts ss) ≡ ss
unfolding read_texts write_texts
read-write_texts [] = refl
read-write_texts (s ∷ ss) =
    rw (take-length-append s (write_texts ss), drop-length-append s (write_texts ss))
      (ap (◌∷◌ s) (read-write_texts ss))

write_int : ℤ → Bytes → Bytes
write_int (pos n) b = 0 ∷ n ∷ b
write_int (negsuc n) b = 1 ∷ n ∷ b

read_int : Bytes → ℤ × Bytes
read_int (zero ∷ n ∷ b) = (pos n, b)
read_int (suc k ∷ n ∷ b) = (negsuc n, b)
read_int _ = (pos 0, [])

read-write_int : (n : ℤ) (b : Bytes) → read_int (write_int n b) ≡ (n, b)
unfolding read_int write_int
read-write_int (pos n) b = refl
read-write_int (negsuc n) b = refl

write_request : Asked → Bytes
write_request (sets r) = write_int r.expire_seconds (write_texts (r.key ∷ r.value ∷ []))
write_request (gets k) = k
write_request (deletes k) = k
write_request (asks_exists k) = k
write_request (gets_batch ks) = length ks ∷ write_texts ks
write_request asks_stats = []
write_request (logs_in r) = write_texts (r.name ∷ r.pwd ∷ [])
write_request (registers r) = r.id ∷ write_texts (r.name ∷ r.pwd ∷ [])
write_request (sums n) = write_int n []
write_request (asks_profile id) = id ∷ []

of_two : (Bytes → Bytes → Asked) → List Bytes → Option Asked
of_two f (a ∷ b ∷ []) = some (f a b)
of_two f _ = none

of_head : (ℕ → Bytes → Option Asked) → Bytes → Option Asked
of_head f [] = none
of_head f (n ∷ b) = f n b

set_of : ℤ → Bytes → Bytes → Asked
set_of seconds k v = sets (record { key = k; value = v; expire_seconds = seconds })

read_request : Method → Bytes → Option Asked
read_request set_method b =
    let (seconds, rest) = read_int b in of_two (set_of seconds) (read_texts 2 rest)
read_request get_method b = some (gets b)
read_request delete_method b = some (deletes b)
read_request exists_method b = some (asks_exists b)
read_request batch_get_method b = of_head (λ n rest. some (gets_batch (read_texts n rest))) b
read_request get_stats_method b = some asks_stats
read_request login_method b =
    of_two (λ name pwd. logs_in (record { name = name; pwd = pwd })) (read_texts 2 b)
read_request register_method b =
    of_head
      (λ id rest.
        of_two (λ name pwd. registers (record { id = id; name = name; pwd = pwd }))
          (read_texts 2 rest))
      b
read_request sum_method b = some (sums (read_int b).0)
read_request profile_method b = of_head (λ id rest. some (asks_profile id)) b

read-write_request : (q : Asked) → read_request (method_of q) (write_request q) ≡ some q
unfolding read_request write_request of_two of_head set_of
read-write_request (sets r) =
    rw
      (
        read-write_int r.expire_seconds (write_texts (r.key ∷ r.value ∷ [])),
        read-write_texts (r.key ∷ r.value ∷ []),
      )
      refl
read-write_request (gets k) = refl
read-write_request (deletes k) = refl
read-write_request (asks_exists k) = refl
read-write_request (gets_batch ks) = rw (read-write_texts ks) refl
read-write_request asks_stats = refl
read-write_request (logs_in r) = rw (read-write_texts (r.name ∷ r.pwd ∷ [])) refl
read-write_request (registers r) = rw (read-write_texts (r.name ∷ r.pwd ∷ [])) refl
read-write_request (sums n) = rw (read-write_int n []) refl
read-write_request (asks_profile id) = refl

-- Every response is written as one byte here.
unfoldable pub codec : Codec
unfolding read_request write_request write_int read_int write_texts read_texts of_two of_head set_of
codec = record {
  serialize_request = write_request;
  parse_request = read_request;
  serialize_response = λ a. some (0 ∷ []);
}

pub codec-laws : CodecLaws codec
unfolding codec
codec-laws = record { parse-serialize = λ q fits. read-write_request q }
