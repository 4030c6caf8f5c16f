-- ===== src/User/Sums.antt =====
-- The local sum of example/callee/UserService.cc in closed form.
use rpc_base_on_zookeeper.Base.{
  ℕ, zero, suc, ◌+◌, ◌*◌, ◌/◌, ◌%◌, ◌^◌, ◌<◌, ◌≤◌, ◌≡◌, refl, ap, ◌∙◌, pos, arith,
}
use native.Mathlib.Nat.{mul-le-mul_right}
use rpc_base_on_zookeeper.User.{int32, sum_loop, local_sum_to_n}

-- `1 + ... + n`
abbrev pub triangle : ℕ → ℕ
triangle zero = 0
triangle (suc n) = suc n + triangle n

-- `i + (i + 1) + ...`, so many terms.
range_sum : ℕ → ℕ → ℕ
range_sum zero i = 0
range_sum (suc rounds) i = i + range_sum rounds (suc i)

triangle-add : (rounds i : ℕ) → triangle (i + rounds) ≡ triangle i + range_sum rounds (suc i)
unfolding range_sum
triangle-add zero i = let e : i + 0 ≡ i = omega arith in ap triangle e ∙ omega arith
triangle-add (suc rounds) i =
    let e : i + suc rounds ≡ suc i + rounds = omega arith in
    ap triangle e ∙ triangle-add rounds (suc i) ∙ omega arith

triangle-range_sum : (n : ℕ) → triangle n ≡ range_sum n 1
triangle-range_sum n =
    let e : n ≡ 0 + n = omega arith in ap triangle e ∙ triangle-add n 0 ∙ omega arith

sum_loop-range_sum :
    (rounds i sum : ℕ) → sum < 2 ^ 32 → sum_loop rounds i sum ≡ (sum + range_sum rounds i) % 2 ^ 32
unfolding sum_loop range_sum
sum_loop-range_sum zero i sum h = omega arith
sum_loop-range_sum (suc rounds) i sum h =
    sum_loop-range_sum rounds (suc i) ((sum + i) % 2 ^ 32) (omega arith) ∙ omega arith

double_triangle : (n : ℕ) → 2 * triangle n ≡ n * (n + 1)
double_triangle zero = refl
double_triangle (suc n) = omega (arith, double_triangle n)

square_bound : (n : ℕ) → n < 65536 → n * (n + 1) < 2 ^ 32
square_bound n h =
    let small : n ≤ 65535 = omega arith in omega (arith, mul-le-mul_right (n + 1) small)

int32-small : (x : ℕ) → x < 2 ^ 31 → int32 x ≡ pos x
unfolding int32
int32-small x h = ground arith

-- The local sum from 1 to `n` is half of `n * (n + 1)` as long as `n` is below 65536, where an `int`
-- still holds it.
pub local_sum_to_n-triangle : (n : ℕ) → n < 65536 → local_sum_to_n (pos n) ≡ pos (n * (n + 1) / 2)
unfolding local_sum_to_n
local_sum_to_n-triangle n h =
    let looped : sum_loop n 1 0 ≡ n * (n + 1) / 2 = omega (
      arith,
      sum_loop-range_sum n 1 0 (omega arith),
      triangle-range_sum n,
      double_triangle n,
      square_bound n h,
    ) in
    ap int32 looped ∙ int32-small (n * (n + 1) / 2) (omega (arith, square_bound n h))
