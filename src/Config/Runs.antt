-- ===== src/Config/Runs.antt =====
-- Runs of the configuration loader.
use rpc_base_on_zookeeper.Base.{Bytes, ◌≡◌, some, [], ◌∷◌, arith}
use rpc_base_on_zookeeper.Table.{Table}
use rpc_base_on_zookeeper.Config.{load_config_file, load}
use rpc_base_on_zookeeper.Config.Lines.{IsKey, IsValue}
use rpc_base_on_zookeeper.Config.Files.{Line, IsLine, print, pairs, load_config_file-print}

abbrev key : Bytes
key = b'i' ∷ b'p' ∷ []

abbrev value : Bytes
value = b'1' ∷ b' ' ∷ b'2' ∷ []

key-IsKey : IsKey key
key-IsKey = record {
  trimmed = ((λ e. omega (arith, e)), (λ e. omega (arith, e)));
  signless = ((λ e. omega (arith, e)), ((λ e. omega (arith, e)), tt));
  code = λ e. omega (arith, e);
}

value-IsValue : IsValue value
value-IsValue = record {
  trimmed = ((λ e. omega (arith, e)), (λ e. omega (arith, e)));
  one_line = ((λ e. omega (arith, e)), ((λ e. omega (arith, e)), ((λ e. omega (arith, e)), tt)));
}

abbrev line : Line
line = record { key = key; value = value; indent = 0; before_sign = 1; after_sign = 1; behind = 0 }

line-IsLine : IsLine line
line-IsLine = record {
  key = key-IsKey;
  value = value-IsValue;
  fits = omega arith;
  inner = ground arith;
}

load_config_file-print_example :
    (m : Table Bytes) × (load_config_file (some (print (line ∷ line ∷ []))) [] ≡ some m)
    × ((k : Bytes) → load k m ≡ load k (pairs (line ∷ line ∷ [])))
load_config_file-print_example =
    load_config_file-print (line ∷ line ∷ []) (line-IsLine, (line-IsLine, tt))
