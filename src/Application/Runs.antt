-- ===== src/Application/Runs.antt =====
-- A run of Init.
use rpc_base_on_zookeeper.Base.{◌+◌, Bytes, ◌≡◌, Option, some, List, [], ◌∷◌, arith}
use rpc_base_on_zookeeper.Config.Files.{Line, IsLine, print}
use rpc_base_on_zookeeper.Application.{Opt, config_option}
use rpc_base_on_zookeeper.Application.Singleton.{
  at_start, created, deleted, copies, get_instances, exit, get_instances-one,
}

-- What getopt finds for `server -i f`.
abbrev getopt : List Bytes → List Opt
getopt (cmd ∷ flag ∷ path ∷ []) = config_option path ∷ []
getopt argv = []

abbrev line : Line
line = record {
  key = b'k' ∷ [];
  value = b'v' ∷ [];
  indent = 0;
  before_sign = 1;
  after_sign = 1;
  behind = 0;
}

line-IsLine : IsLine line
line-IsLine = record {
  key = record {
    trimmed = ((λ e. omega (arith, e)), (λ e. omega (arith, e)));
    signless = ((λ e. omega (arith, e)), tt);
    code = λ e. omega (arith, e);
  };
  value = record {
    trimmed = ((λ e. omega (arith, e)), (λ e. omega (arith, e)));
    one_line = ((λ e. omega (arith, e)), tt);
  };
  fits = omega arith;
  inner = ground arith;
}

abbrev arguments : List Bytes
arguments = (b's' ∷ []) ∷ (b'-' ∷ b'i' ∷ []) ∷ (b'f' ∷ []) ∷ []

abbrev files : Bytes → Option Bytes
files path = some (print (line ∷ []))

get_instances-one_example :
    let (s, ps) = get_instances 3 at_start in
    (ps ≡ copies 3) × (s ≡ created) × (exit (0 + s.handlers) s ≡ some deleted)
get_instances-one_example = get_instances-one 2 0
