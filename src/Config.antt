-- ===== src/Config.antt =====
-- src/Zrpcconfig.cc: the configuration file, read line by line into a map.
pub mod Trim
pub mod Lines
pub mod Files
mod Runs
use rpc_base_on_zookeeper.Base.{
  Bytes, ℕ, zero, suc, ◌+◌, ◌-◌, Bool, true, false, ◌||◌, Option, none, some, List, [], ◌∷◌, ltb,
  ◌==◌, length, take, drop, if◌then◌else◌,
}
use rpc_base_on_zookeeper.Table.{Table, find, emplace}

-- `s.find(c)`; a call from a position searches the rest.
pub index_of : ℕ → Bytes → Option ℕ
index_of c [] = none
index_of c (x ∷ s) =
    let rest = index_of c s in
    if x == c then some 0 else elim rest [ none ↦ none | some i ↦ some (suc i) ]

pub find_first_not_of : ℕ → Bytes → Option ℕ
find_first_not_of c [] = none
find_first_not_of c (x ∷ s) =
    let rest = find_first_not_of c s in
    if x == c then elim rest [ none ↦ none | some i ↦ some (suc i) ] else some 0

pub find_last_not_of : ℕ → Bytes → Option ℕ
find_last_not_of c [] = none
find_last_not_of c (x ∷ s) = elim (find_last_not_of c s) [
  | some i ↦ some (suc i)
  | none ↦ if x == c then none else some 0
]

trim_front : Bytes → Bytes
trim_front s = elim (find_first_not_of b' ' s) [ none ↦ s | some i ↦ drop i s ]

trim_back : Bytes → Bytes
trim_back s = elim (find_last_not_of b' ' s) [ none ↦ s | some i ↦ take (i + 1) s ]

pub trim : Bytes → Bytes
trim s = trim_back (trim_front s)

-- `fgets(buf, 1024, f)`: up to 1023 bytes, to a newline included, and the rest of the file.
fgets : ℕ → Bytes → Bytes × Bytes
fgets zero s = ([], s)
fgets (suc room) [] = ([], [])
fgets (suc room) (c ∷ s) =
    let rest = fgets room s in if c == 10 then (c ∷ [], s) else (c ∷ rest.0, rest.1)

-- The C string in the buffer ends at the first zero byte.
c_string : Bytes → Bytes
c_string [] = []
c_string (c ∷ s) = let rest = c_string s in if c == 0 then [] else c ∷ rest

starts_comment : Bytes → Bool
starts_comment [] = false
starts_comment (c ∷ s) = c == b'#'

is_empty : Bytes → Bool
is_empty [] = true
is_empty (c ∷ s) = false

-- The value stands between the sign at `index` and the newline behind it, or the end.
value_at : ℕ → Bytes → Bytes
value_at index line =
    let rest = drop (index + 1) line in
    elim (index_of 10 (drop index line)) [
      | none ↦ rest
      | some e ↦ take (index + e - index - 1) rest
    ]

-- One round of the loop: the pair that the line holds, if it holds one.
pub parse_line : Bytes → Option (Bytes × Bytes)
parse_line buf =
    let line = trim buf in
    if starts_comment line || is_empty line then none else elim (index_of b'=' line) [
      | none ↦ none
      | some index ↦ some (trim (take index line), trim (value_at index line))
    ]

insert_line : Option (Bytes × Bytes) → Table Bytes → Table Bytes
insert_line none m = m
insert_line (some (key, value)) m = emplace key value m

-- The loop; a round takes a byte of the file at least, so the file's length is fuel enough.
load_loop : ℕ → Bytes → Table Bytes → Table Bytes
load_loop zero file m = m
load_loop (suc fuel) [] m = m
load_loop (suc fuel) (c ∷ s) m =
    let (line, rest) = fgets 1023 (c ∷ s) in
    load_loop fuel rest (insert_line (parse_line (c_string line)) m)

-- `none` is the exit with a failure: the file could not be opened.
pub load_config_file : Option Bytes → Table Bytes → Option (Table Bytes)
load_config_file none m = none
load_config_file (some file) m = some (load_loop (length file) file m)

-- A key that is not there reads as the empty text.
unfoldable pub load : Bytes → Table Bytes → Bytes
load key m = elim (find key m) [ none ↦ [] | some value ↦ value ]
