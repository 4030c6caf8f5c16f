-- ===== src/Config/Lines.antt =====
-- Lines of the configuration file of src/Zrpcconfig.cc, printed and read back.
use rpc_base_on_zookeeper.Base.{
  Bytes, ℕ, zero, suc, ◌+◌, ◌-◌, ◌≡◌, ◌≢◌, refl, ap, sym, ◌∙◌, false, ◌||◌, some, [], ◌∷◌, ◌++◌,
  append-nil, length, take, drop, arith, take-length-append, drop-length-append, All,
}
use rpc_base_on_zookeeper.Config.{index_of, trim, starts_comment, is_empty, value_at, parse_line}
use rpc_base_on_zookeeper.Config.Trim.{
  spaces, IsTrimmed, StartsInk-append, EndsInk-append, trim-spaces,
}

-- A key has no sign and no comment mark in front; a value has no newline; a blank ends neither.
abbrev pub NotComment : Bytes → Type 0
NotComment [] = ⊥
NotComment (c ∷ s) = c ≢ b'#'

pub record IsKey (key : Bytes) : Type 0 where
  pub trimmed : IsTrimmed key
  pub signless : All (λ c. c ≢ b'=') key
  pub code : NotComment key

pub record IsValue (value : Bytes) : Type 0 where
  pub trimmed : IsTrimmed value
  pub one_line : All (λ c. c ≢ 10) value

pub index_of-append :
    (c : ℕ) (s t : Bytes) → All (λ x. x ≢ c) s → index_of c (s ++ c ∷ t) ≡ some (length s)
unfolding index_of
index_of-append c [] t h = ground arith
index_of-append c (x ∷ s) t h = ground (arith, index_of-append c s t h.1)

All-append :
    (c : ℕ) (s t : Bytes) → All (λ x. x ≢ c) s → All (λ x. x ≢ c) t → All (λ x. x ≢ c) (s ++ t)
All-append c [] t h k = k
All-append c (x ∷ s) t h k = (h.0, All-append c s t h.1 k)

spaces-All : (c n : ℕ) → c ≢ 32 → All (λ x. x ≢ c) (spaces n)
spaces-All c zero h = tt
spaces-All c (suc n) h = (λ e. h (sym e), spaces-All c n h)

pub drop-length-suc : (s : Bytes) (x : ℕ) (t : Bytes) → drop (suc (length s)) (s ++ x ∷ t) ≡ t
drop-length-suc [] x t = refl
drop-length-suc (y ∷ s) x t = drop-length-suc s x t

value_at-newline :
    (front value : Bytes)
    → All (λ x. x ≢ 10) value
    → value_at (length front) (front ++ b'=' ∷ (value ++ 10 ∷ [])) ≡ value
unfolding value_at
value_at-newline front value h =
    let line : Bytes = front ++ b'=' ∷ (value ++ 10 ∷ []) in
    let found : index_of 10 (b'=' ∷ (value ++ 10 ∷ [])) ≡ some (suc (length value)) =
      index_of-append 10 (b'=' ∷ value) [] ((λ e. omega (arith, e)), h) in
    rw (drop-length-append front (b'=' ∷ (value ++ 10 ∷ [])), found, value_at)
      (cut (length front + suc (length value) - length front - 1) (length front + 1) (omega arith)
        (omega arith))
  where
    cut :
        (i j : ℕ)
        → i ≡ length value
        → j ≡ suc (length front)
        → take i (drop j (front ++ b'=' ∷ (value ++ 10 ∷ []))) ≡ value
    cut i j p q =
        rw (p, q, drop-length-suc front b'=' (value ++ 10 ∷ []))
          (take-length-append value (10 ∷ []))

NotComment-append : (s t : Bytes) → NotComment s → NotComment (s ++ t)
NotComment-append [] t h = absurd h
NotComment-append (c ∷ s) t h = h

is_line : (s : Bytes) → NotComment s → (starts_comment s || is_empty s) ≡ false
unfolding starts_comment is_empty
is_line [] h = absurd h
is_line (c ∷ s) h = ground arith

module _ (key value : Bytes) (a b c d : ℕ) where
  abbrev front : Bytes
  front = key ++ spaces b

  abbrev back : Bytes
  back = spaces c ++ (value ++ spaces d)

  abbrev core : Bytes
  core = front ++ b'=' ∷ (back ++ 10 ∷ [])

  -- The line `key=value`, with blanks in front and around the two.
  abbrev pub padded : Bytes
  padded = spaces a ++ core

  module _ (k : IsKey key) (v : IsValue value) where
    core-IsTrimmed : IsTrimmed core
    core-IsTrimmed = (
      StartsInk-append front (b'=' ∷ (back ++ 10 ∷ []))
          (StartsInk-append key (spaces b) k.trimmed.0),
      EndsInk-append front (b'=' ∷ (back ++ 10 ∷ []))
          (EndsInk-append (b'=' ∷ back) (10 ∷ []) (λ e. omega (arith, e))),
    )

    trim-padded : trim padded ≡ core
    trim-padded =
        ap (λ t. trim (spaces a ++ t)) (sym (append-nil core)) ∙ trim-spaces a 0 core core-IsTrimmed

    index-core : index_of b'=' core ≡ some (length front)
    index-core =
        index_of-append b'=' front (back ++ 10 ∷ [])
          (All-append b'=' key (spaces b) k.signless (spaces-All b'=' b (λ e. omega (arith, e))))

    value_at-core : value_at (length front) core ≡ back
    value_at-core = value_at-newline front back (
        All-append 10 (spaces c) (value ++ spaces d) (spaces-All 10 c (λ e. omega (arith, e)))
          (All-append 10 value (spaces d) v.one_line (spaces-All 10 d (λ e. omega (arith, e)))))

    -- A line that holds a key and a value, with any blanks around the two, is read as that pair. The
    -- key has no sign and no comment mark in front, the value no newline, and neither is empty or
    -- has a blank at an end.
    pub parse_line-padded : parse_line padded ≡ some (key, value)
    unfolding parse_line
    parse_line-padded = rw (
      trim-padded,
      is_line core (
          NotComment-append front (b'=' ∷ (back ++ 10 ∷ []))
            (NotComment-append key (spaces b) k.code)),
      index-core,
      trim-padded,
      value_at-core,
      take-length-append front (b'=' ∷ (back ++ 10 ∷ [])),
      trim-spaces 0 b key k.trimmed,
      trim-spaces c d value v.trimmed,
    )
