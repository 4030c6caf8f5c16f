-- ===== src/Application/Start.antt =====
-- What Init of src/Zrpcapplication.cc loads.
use rpc_base_on_zookeeper.Base.{
  Bytes, ◌≤◌, ◌≡◌, refl, false, Option, some, List, [], ◌∷◌, All, length, ltb, arith,
}
use rpc_base_on_zookeeper.Table.{Table}
use rpc_base_on_zookeeper.Config.{load}
use rpc_base_on_zookeeper.Config.Files.{Line, IsLine, print, pairs, load_config_file-print}
use rpc_base_on_zookeeper.Application.{
  Opt, config_option, unknown_option, missing_argument, other_option, read_options, load_from, init,
}

-- No option is wrong, and `path` stands behind the last `-i`.
abbrev pub LastPath : List Opt → Bytes → Bytes → Type 0
LastPath [] before path = before ≡ path
LastPath (config_option p ∷ os) before path = LastPath os p path
LastPath (other_option ∷ os) before path = LastPath os before path
LastPath _ before path = ⊥

read_options-LastPath :
    (os : List Opt) (before path : Bytes)
    → LastPath os before path
    → read_options os before ≡ some path
unfolding read_options
read_options-LastPath [] before path h = rw h refl
read_options-LastPath (config_option p ∷ os) before path h = read_options-LastPath os p path h
read_options-LastPath (other_option ∷ os) before path h = read_options-LastPath os before path h
read_options-LastPath (unknown_option ∷ os) before path h = absurd h
read_options-LastPath (missing_argument ∷ os) before path h = absurd h

-- With at least one argument and no wrong option, where the file behind the last `-i` has lines
-- `key=value` that fit the buffer, with keys and values that are not empty and have no blank at an
-- end, Init leaves a configuration in which every key reads as the value of its first line.
pub init-print :
    (getopt : List Bytes → List Opt) (files : Bytes → Option Bytes) (argv : List Bytes)
    (path : Bytes) (ls : List Line)
    → 2 ≤ length argv
    → LastPath (getopt argv) [] path
    → files path ≡ some (print ls)
    → All IsLine ls
    → (m : Table Bytes) × (init getopt files argv [] ≡ some m)
      × ((key : Bytes) → load key m ≡ load key (pairs ls))
unfolding init load_from
init-print getopt files argv path ls enough last opened lines =
    let (m, loaded, reads) = load_config_file-print ls lines in
    let long : ltb (length argv) 2 ≡ false = ground arith in
    (m, rw (long, read_options-LastPath (getopt argv) [] path last, opened) loaded, reads)
