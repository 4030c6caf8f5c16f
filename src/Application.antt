-- ===== src/Application.antt =====
-- src/Zrpcapplication.cc: the start of a process of the framework. `getopt` of the C library is a
-- parameter, as the list of its results for the arguments, without the -1 at the end; `files` gives
-- the contents of a file that can be opened. An exit of the process is `none`.
pub mod Start
pub mod Singleton
mod Runs
use rpc_base_on_zookeeper.Base.{
  Bytes, ℕ, Option, none, some, List, [], ◌∷◌, length, ltb, if◌then◌else◌,
}
use rpc_base_on_zookeeper.Table.{Table}
use rpc_base_on_zookeeper.Config.{load_config_file}

-- `'i'` with its argument, `'?'`, `':'`, and any other result.
pub data Opt : Type 0 where
  config_option : Bytes → Opt
  unknown_option missing_argument other_option : Opt

-- The loop over the options, with the path so far.
unfoldable pub read_options : List Opt → Bytes → Option Bytes
read_options [] config_file = some config_file
read_options (config_option optarg ∷ os) config_file = read_options os optarg
read_options (unknown_option ∷ os) config_file = none
read_options (missing_argument ∷ os) config_file = none
read_options (other_option ∷ os) config_file = read_options os config_file

unfoldable pub load_from :
    (Bytes → Option Bytes) → Option Bytes → Table Bytes → Option (Table Bytes)
load_from files none m = none
load_from files (some config_file) m = load_config_file (files config_file) m

-- `Init`, from the configuration that is there.
unfoldable pub init :
    (List Bytes → List Opt)
    → (Bytes → Option Bytes)
    → List Bytes
    → Table Bytes
    → Option (Table Bytes)
init getopt files argv m =
    if ltb (length argv) 2 then none else load_from files (read_options (getopt argv) []) m
