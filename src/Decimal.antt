-- ===== src/Decimal.antt =====
-- `std::to_string` and `atoi` as the program uses them, on integers of any size: the program's own
-- values fit an `int`, where `atoi` is defined.
use rpc_base_on_zookeeper.Base.{
  Bytes, ℕ, zero, suc, ◌+◌, ◌-◌, ◌*◌, ◌/◌, ◌%◌, ◌<◌, ◌≤◌, ℤ, pos, negsuc, sub_ℕ, ◌≡◌, refl, ap, ◌∙◌,
  sym, Bool, ◌&&◌, ◌||◌, [], ◌∷◌, ◌++◌, append_assoc, append-nil, arith, ltb, leb, ◌==◌,
  if◌then◌else◌, Bool-cases, inl, inr,
}

-- `n` in decimal; each round takes a digit off, so fuel above `n` is enough.
pub decimal : ℕ → ℕ → Bytes
decimal zero n = []
decimal (suc f) n =
    let front = decimal f (n / 10) in
    if ltb n 10 then (48 + n) ∷ [] else front ++ (48 + n % 10) ∷ []

unfoldable pub to_string_ℕ : ℕ → Bytes
unfolding decimal
to_string_ℕ n = decimal (suc n) n

unfoldable pub to_string : ℤ → Bytes
unfolding to_string_ℕ
to_string (pos n) = to_string_ℕ n
to_string (negsuc n) = b'-' ∷ to_string_ℕ (suc n)

abbrev is_digit : ℕ → Bool
is_digit c = leb b'0' c && leb c b'9'

-- The digits up to the first other byte.
pub scan_digits : ℕ → Bytes → ℕ
scan_digits n [] = n
scan_digits n (c ∷ s) =
    let rest = scan_digits (n * 10 + (c - 48)) s in if is_digit c then rest else n

abbrev is_blank : ℕ → Bool
is_blank c = c == 32 || (leb 9 c && leb c 13)

scan_sign : Bytes → ℤ
scan_sign [] = pos 0
scan_sign (c ∷ s) =
    if c == b'-'
    then sub_ℕ 0 (scan_digits 0 s)
    else if c == b'+'
    then pos (scan_digits 0 s)
    else pos (scan_digits 0 (c ∷ s))

unfoldable pub atoi : Bytes → ℤ
unfolding scan_sign scan_digits
atoi [] = pos 0
atoi (c ∷ s) = let rest = atoi s in if is_blank c then rest else scan_sign (c ∷ s)

scan-digit :
    (a d : ℕ) (rest : Bytes)
    → d < 10
    → scan_digits a ((48 + d) ∷ rest) ≡ scan_digits (a * 10 + d) rest
unfolding scan_digits
scan-digit a d rest h = ground arith

pub scan-decimal :
    (f n : ℕ) (rest : Bytes) → n < f → scan_digits 0 (decimal f n ++ rest) ≡ scan_digits n rest
unfolding decimal
scan-decimal zero n rest h = absurd (omega arith)
scan-decimal (suc f) n rest h = elim (Bool-cases (ltb n 10)) [
  | inl small ↦
      rw small (scan-digit 0 n rest (ground arith) ∙ ap (λ k. scan_digits k rest) (omega arith))
  | inr large ↦
      rw (large, append_assoc)
        (scan-decimal f (n / 10) ((48 + n % 10) ∷ rest) (ground arith)
          ∙ scan-digit (n / 10) (n % 10) rest (omega arith)
          ∙ ap (λ k. scan_digits k rest) (omega arith))
]

abbrev pub StartsWithDigit : Bytes → Type 0
StartsWithDigit t = (c : ℕ) × (s : Bytes) × (t ≡ c ∷ s) × (48 ≤ c) × (c ≤ 57)

pub decimal-StartsWithDigit : (f n : ℕ) → n < f → StartsWithDigit (decimal f n)
unfolding decimal
decimal-StartsWithDigit zero n h = absurd (omega arith)
decimal-StartsWithDigit (suc f) n h = elim (Bool-cases (ltb n 10)) [
  | inl small ↦ rw small (48 + n, [], refl, omega arith, ground arith)
  | inr large ↦
      let (c, s, e, lo, hi) = decimal-StartsWithDigit f (n / 10) (ground arith) in
      rw (large, e) (c, s ++ (48 + n % 10) ∷ [], refl, lo, hi)
]

scan-to_string : (n : ℕ) → scan_digits 0 (to_string_ℕ n) ≡ n
unfolding to_string_ℕ scan_digits
scan-to_string n =
    ap (scan_digits 0) (sym (append-nil (decimal (suc n) n)))
    ∙ scan-decimal (suc n) n [] (omega arith)

atoi-digit : (c : ℕ) (s : Bytes) → 48 ≤ c → c ≤ 57 → atoi (c ∷ s) ≡ pos (scan_digits 0 (c ∷ s))
unfolding atoi
atoi-digit c s lo hi = ground arith

pub atoi-to_string_ℕ : (n : ℕ) → atoi (to_string_ℕ n) ≡ pos n
unfolding to_string_ℕ
atoi-to_string_ℕ n =
    let (c, s, e, lo, hi) = decimal-StartsWithDigit (suc n) n (omega arith) in
    ap atoi e
    ∙ atoi-digit c s lo hi
    ∙ ap (λ t. pos (scan_digits 0 t)) (sym e)
    ∙ ap pos (scan-to_string n)

atoi-minus : (s : Bytes) → atoi (b'-' ∷ s) ≡ sub_ℕ 0 (scan_digits 0 s)
unfolding atoi
atoi-minus s = refl

-- What is printed reads back as itself.
pub atoi-to_string : (z : ℤ) → atoi (to_string z) ≡ z
unfolding to_string
atoi-to_string (pos n) = atoi-to_string_ℕ n
atoi-to_string (negsuc n) =
    atoi-minus (to_string_ℕ (suc n)) ∙ rw (scan-to_string (suc n)) (ground arith)

pub to_string_ℕ-injective : (n m : ℕ) → to_string_ℕ n ≡ to_string_ℕ m → n ≡ m
to_string_ℕ-injective n m e = sym (scan-to_string n) ∙ ap (scan_digits 0) e ∙ scan-to_string m
