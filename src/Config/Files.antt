-- ===== src/Config/Files.antt =====
-- Whole configuration files of src/Zrpcconfig.cc, printed and read back.
use rpc_base_on_zookeeper.Base.{
  Bytes, ℕ, zero, suc, ◌+◌, ◌≤◌, ◌<◌, ◌≡◌, ◌≢◌, refl, ap, ◌∙◌, some, List, [], ◌∷◌, ◌++◌,
  append_assoc, length, length-append, arith, All, or_else,
}
use rpc_base_on_zookeeper.Table.{Table, find, emplace, find-emplace}
use rpc_base_on_zookeeper.Config.{
  fgets, c_string, parse_line, insert_line, load_loop, load_config_file, load,
}
use rpc_base_on_zookeeper.Config.Trim.{spaces}
use rpc_base_on_zookeeper.Config.Lines.{IsKey, IsValue, padded, parse_line-padded}

-- A line with the numbers of blanks in front of the key, behind it, and around the value.
pub record Line : Type 0 where
  pub key : Bytes
  pub value : Bytes
  pub indent : ℕ
  pub before_sign : ℕ
  pub after_sign : ℕ
  pub behind : ℕ

-- The line without its newline.
abbrev pub body : Line → Bytes
body l =
    spaces l.indent
    ++ ((l.key ++ spaces l.before_sign)
        ++ b'=' ∷ (spaces l.after_sign ++ (l.value ++ spaces l.behind)))

abbrev pub print : List Line → Bytes
print [] = []
print (l ∷ ls) = (body l ++ 10 ∷ []) ++ print ls

abbrev pub pairs : List Line → Table Bytes
pairs [] = []
pairs (l ∷ ls) = (l.key, l.value) ∷ pairs ls

abbrev IsInner : ℕ → Type 0
IsInner c = (c ≢ 10) × (c ≢ 0)

-- The line fits the buffer, and has no newline and no zero byte inside.
pub record IsLine (l : Line) : Type 0 where
  pub key : IsKey l.key
  pub value : IsValue l.value
  pub fits : length (body l) < 1023
  pub inner : All IsInner (body l)

fgets-line :
    (room : ℕ) (s rest : Bytes)
    → length s < room
    → All IsInner s
    → fgets room ((s ++ 10 ∷ []) ++ rest) ≡ (s ++ 10 ∷ [], rest)
unfolding fgets
fgets-line zero s rest h k = absurd (omega arith)
fgets-line (suc room) [] rest h k = refl
fgets-line (suc room) (c ∷ s) rest h k =
    ground (arith, fgets-line room s rest (omega arith) k.1, k.0.0)

c_string-line : (s : Bytes) → All IsInner s → c_string (s ++ 10 ∷ []) ≡ s ++ 10 ∷ []
unfolding c_string
c_string-line [] k = refl
c_string-line (c ∷ s) k = ground (arith, c_string-line s k.1, k.0.1)

parse_line-body : (l : Line) → IsLine l → parse_line (body l ++ 10 ∷ []) ≡ some (l.key, l.value)
parse_line-body l k =
    ap parse_line regroup
    ∙ parse_line-padded l.key l.value l.indent l.before_sign l.after_sign l.behind k.key k.value
  where
    regroup : body l ++ 10 ∷ [] ≡ padded l.key l.value l.indent l.before_sign l.after_sign l.behind
    regroup = simp append_assoc

insert_all : List Line → Table Bytes → Table Bytes
insert_all [] m = m
insert_all (l ∷ ls) m = insert_all ls (emplace l.key l.value m)

load_round :
    (fuel : ℕ) (file line rest : Bytes) (key value : Bytes) (m : Table Bytes)
    → fgets 1023 file ≡ (line, rest)
    → 0 < length file
    → parse_line (c_string line) ≡ some (key, value)
    → load_loop (suc fuel) file m ≡ load_loop fuel rest (emplace key value m)
unfolding load_loop insert_line
load_round fuel [] line rest key value m e pos p = absurd (omega arith)
load_round fuel (c ∷ s) line rest key value m e pos p = rw (e, p) refl

length-print :
    (l : Line) (ls : List Line) → length (print (l ∷ ls)) ≡ length (body l) + 1 + length (print ls)
length-print l ls =
    omega (arith, length-append (body l ++ 10 ∷ []) (print ls), length-append (body l) (10 ∷ []))

load_loop-print :
    (fuel : ℕ) (ls : List Line) (m : Table Bytes)
    → length (print ls) ≤ fuel
    → All IsLine ls
    → load_loop fuel (print ls) m ≡ insert_all ls m
unfolding insert_all
load_loop-print zero [] m h k = unfold load_loop in refl
load_loop-print (suc fuel) [] m h k = unfold load_loop in refl
load_loop-print zero (l ∷ ls) m h k = absurd (omega (arith, length-print l ls))
load_loop-print (suc fuel) (l ∷ ls) m h k =
    load_round fuel (print (l ∷ ls)) (body l ++ 10 ∷ []) (print ls) l.key l.value m
      (fgets-line 1023 (body l) (print ls) k.0.fits k.0.inner) (omega (arith, length-print l ls))
      (ap parse_line (c_string-line (body l) k.0.inner) ∙ parse_line-body l k.0)
    ∙ load_loop-print fuel ls (emplace l.key l.value m) (omega (arith, length-print l ls)) k.1

find-insert_all :
    (ls : List Line) (m : Table Bytes) (key : Bytes)
    → find key (insert_all ls m) ≡ or_else (find key m) (find key (pairs ls))
unfolding insert_all find
find-insert_all [] m key = ground arith
find-insert_all (l ∷ ls) m key =
    find-insert_all ls (emplace l.key l.value m) key
    ∙ ground (arith, find-emplace l.key key l.value m)

-- A file of lines `key=value`, with any blanks around keys and values, loads, and then each key
-- reads as the value of its first line, and any other key as the empty text. A line fits the buffer
-- and has no zero byte, a key has no sign `=` and does not start with `#`, and neither a key nor a
-- value is empty or has a blank at an end.
pub load_config_file-print :
    (ls : List Line)
    → All IsLine ls
    → (m : Table Bytes) × (load_config_file (some (print ls)) [] ≡ some m)
      × ((key : Bytes) → load key m ≡ load key (pairs ls))
unfolding load_config_file load find
load_config_file-print ls k = (
  insert_all ls [],
  ap some (load_loop-print (length (print ls)) ls [] (omega arith) k),
  λ key. rw (load, find-insert_all ls [] key) refl,
)
