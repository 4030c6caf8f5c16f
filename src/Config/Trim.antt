-- ===== src/Config/Trim.antt =====
-- `Trim` of src/Zrpcconfig.cc.
use rpc_base_on_zookeeper.Base.{
  Bytes, ℕ, zero, suc, ◌+◌, ◌≡◌, ◌≢◌, refl, ap, ◌∙◌, some, none, [], ◌∷◌, ◌++◌, length, take, drop,
  arith, take-length-append,
}
use rpc_base_on_zookeeper.Config.{find_first_not_of, find_last_not_of, trim_front, trim_back, trim}

abbrev pub spaces : ℕ → Bytes
spaces zero = []
spaces (suc n) = 32 ∷ spaces n

abbrev pub StartsInk : Bytes → Type 0
StartsInk [] = ⊥
StartsInk (c ∷ s) = c ≢ 32

abbrev pub EndsInk : Bytes → Type 0
EndsInk [] = ⊥
EndsInk (c ∷ []) = c ≢ 32
EndsInk (c ∷ d ∷ s) = EndsInk (d ∷ s)

-- There is a first byte and a last byte, and neither is a blank.
abbrev pub IsTrimmed : Bytes → Type 0
IsTrimmed s = StartsInk s × EndsInk s

pub StartsInk-append : (s t : Bytes) → StartsInk s → StartsInk (s ++ t)
StartsInk-append [] t h = absurd h
StartsInk-append (c ∷ s) t h = h

pub EndsInk-append : (s t : Bytes) → EndsInk t → EndsInk (s ++ t)
EndsInk-append [] t h = h
EndsInk-append (c ∷ []) [] h = absurd h
EndsInk-append (c ∷ []) (d ∷ t) h = h
EndsInk-append (c ∷ d ∷ s) t h = EndsInk-append (d ∷ s) t h

trim_front-spaces : (n : ℕ) (s : Bytes) → StartsInk s → trim_front (spaces n ++ s) ≡ s
unfolding trim_front find_first_not_of
trim_front-spaces n s h = rw (first n s h, trim_front) (dropped n s)
  where
    first : (n : ℕ) (s : Bytes) → StartsInk s → find_first_not_of 32 (spaces n ++ s) ≡ some n
    first zero [] h = absurd h
    first zero (c ∷ s) h = ground arith
    first (suc n) s h = ground (arith, first n s h)

    dropped : (n : ℕ) (s : Bytes) → drop n (spaces n ++ s) ≡ s
    dropped zero s = refl
    dropped (suc n) s = dropped n s

find_last_not_of-spaces : (n : ℕ) → find_last_not_of 32 (spaces n) ≡ none
unfolding find_last_not_of
find_last_not_of-spaces zero = refl
find_last_not_of-spaces (suc n) = ground (arith, find_last_not_of-spaces n)

find_last_not_of-ink :
    (s : Bytes) (n : ℕ)
    → EndsInk s
    → (k : ℕ) × (find_last_not_of 32 (s ++ spaces n) ≡ some k) × (k + 1 ≡ length s)
unfolding find_last_not_of
find_last_not_of-ink [] n h = absurd h
find_last_not_of-ink (c ∷ []) n h = (0, ground (arith, find_last_not_of-spaces n), omega arith)
find_last_not_of-ink (c ∷ d ∷ s) n h =
    let (k, e, l) = find_last_not_of-ink (d ∷ s) n h in
    (suc k, rw (e, find_last_not_of), omega arith)

trim_back-spaces : (s : Bytes) (n : ℕ) → EndsInk s → trim_back (s ++ spaces n) ≡ s
unfolding trim_back
trim_back-spaces s n h =
    let (k, e, l) = find_last_not_of-ink s n h in
    rw (e, trim_back) (ap (λ i. take i (s ++ spaces n)) l ∙ take-length-append s (spaces n))

-- Blanks around a text that is not empty and neither starts nor ends with a blank are taken off, and
-- nothing else.
pub trim-spaces : (m n : ℕ) (s : Bytes) → IsTrimmed s → trim (spaces m ++ (s ++ spaces n)) ≡ s
unfolding trim
trim-spaces m n s h =
    ap trim_back (trim_front-spaces m (s ++ spaces n) (StartsInk-append s (spaces n) h.0))
    ∙ trim_back-spaces s n h.1

find_first_not_of-spaces : (n : ℕ) → find_first_not_of 32 (spaces n) ≡ none
unfolding find_first_not_of
find_first_not_of-spaces zero = refl
find_first_not_of-spaces (suc n) = ground (arith, find_first_not_of-spaces n)

trim_front-blank : (n : ℕ) → trim_front (spaces n) ≡ spaces n
unfolding trim_front
trim_front-blank n = rw (find_first_not_of-spaces n, trim_front)

-- A text of blanks alone stays as it is.
pub trim-blank : (n : ℕ) → trim (spaces n) ≡ spaces n
unfolding trim trim_back
trim-blank n = ap trim_back (trim_front-blank n) ∙ rw (find_last_not_of-spaces n, trim_back)
