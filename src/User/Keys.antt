-- ===== src/User/Keys.antt =====
-- The cache keys of example/callee/UserService.cc.
use rpc_base_on_zookeeper.Base.{
  Bytes, text, ℕ, zero, suc, ℤ, pos, pos_part, ◌≡◌, ◌≢◌, ap, sym, ◌∙◌, [], ◌∷◌, drop, arith,
}
use rpc_base_on_zookeeper.Decimal.{to_string, atoi, atoi-to_string}
use rpc_base_on_zookeeper.User.{
  make_session_key, make_profile_key, sum_key, local_sum_to_n, local_get_user_profile,
}

abbrev byte_at : ℕ → Bytes → ℕ
byte_at n [] = 0
byte_at zero (c ∷ s) = c
byte_at (suc n) (c ∷ s) = byte_at n s

to_string-injective : (m n : ℤ) → to_string m ≡ to_string n → m ≡ n
to_string-injective m n e = sym (atoi-to_string m) ∙ ap atoi e ∙ atoi-to_string n

sum_key-injective : (m n : ℤ) → sum_key m ≡ sum_key n → m ≡ n
unfolding sum_key text
sum_key-injective m n e = to_string-injective m n (ap (drop 9) e)

pos-injective : (m n : ℕ) → pos m ≡ pos n → m ≡ n
pos-injective m n e = ap pos_part e

make_profile_key-injective : (m n : ℕ) → make_profile_key m ≡ make_profile_key n → m ≡ n
unfolding make_profile_key text
make_profile_key-injective m n e =
    pos-injective m n (to_string-injective (pos m) (pos n) (ap (drop 8) e))

session-ne-sum : (u : Bytes) (n : ℤ) → make_session_key u ≢ sum_key n
unfolding make_session_key sum_key text
session-ne-sum u n e = omega (arith, ap (byte_at 1) e)

session-ne-profile : (u : Bytes) (id : ℕ) → make_session_key u ≢ make_profile_key id
unfolding make_session_key make_profile_key text
session-ne-profile u id e = omega (arith, ap (byte_at 0) e)

sum-ne-profile : (n : ℤ) (id : ℕ) → sum_key n ≢ make_profile_key id
unfolding sum_key make_profile_key text
sum-ne-profile n id e = omega (arith, ap (byte_at 0) e)

-- A value that may stand under a key: under the key of a sum that sum, under the key of a profile that
-- profile, and under any other key anything.
pub record IsRight (key value : Bytes) : Type 0 where
  pub sum : (n : ℤ) → key ≡ sum_key n → value ≡ to_string (local_sum_to_n n)
  pub profile : (id : ℕ) → key ≡ make_profile_key id → value ≡ local_get_user_profile id

pub session-IsRight : (u token : Bytes) → IsRight (make_session_key u) token
session-IsRight u token = record {
  sum = λ n e. absurd (session-ne-sum u n e);
  profile = λ id e. absurd (session-ne-profile u id e);
}

pub sum-IsRight : (n : ℤ) → IsRight (sum_key n) (to_string (local_sum_to_n n))
sum-IsRight n = record {
  sum = λ m e. ap (λ k. to_string (local_sum_to_n k)) (sum_key-injective n m e);
  profile = λ id e. absurd (sum-ne-profile n id e);
}

pub profile-IsRight : (id : ℕ) → IsRight (make_profile_key id) (local_get_user_profile id)
profile-IsRight id = record {
  sum = λ n e. absurd (sum-ne-profile n id (sym e));
  profile = λ j e. ap local_get_user_profile (make_profile_key-injective id j e);
}
