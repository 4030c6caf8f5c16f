-- ===== src/Client/Channels/Model.antt =====
-- A network that is good in every call, with answers of example/callee/Zserver.cc: no key is in its cache,
-- and it admits everybody.
use rpc_base_on_zookeeper.Base.{Bytes, ℕ, ℤ, pos, refl, true, false, none, some, [], ◌∷◌, arith}
use rpc_base_on_zookeeper.Messages.{
  default_result, CacheStatsResponse, default_exists, LoginRequest, LoginResponse,
}
use rpc_base_on_zookeeper.Wire.Varint.{runtime}
use rpc_base_on_zookeeper.Provider.{address_of}
use rpc_base_on_zookeeper.Channel.{Connect, connects_within}
use rpc_base_on_zookeeper.Channel.Call.{World}
use rpc_base_on_zookeeper.Server.{asks_exists, logs_in}
use rpc_base_on_zookeeper.Client.Channels.{Reads}
use rpc_base_on_zookeeper.Client.Channels.First.{Serves}

abbrev pub good : Connect
good = record {
  socket = pos 5;
  result = pos 0;
  in_progress = false;
  poll = λ ms. pos 0;
  getsockopt = pos 0;
  so_error = pos 0;
}

-- The same good network in every call.
abbrev pub meets : ℕ → World
meets n = record {
  now = 0;
  get_data = λ path. address_of (b'h' ∷ []) (pos 80);
  net = good;
  header_serializes = true;
  sends = true;
  arrives = some [];
  error_text = [];
}

abbrev pub admitted : LoginResponse
admitted = record { result = default_result; success = true }

abbrev pub no_stats : CacheStatsResponse
no_stats = record {
  result = default_result;
  total_keys = pos 0;
  memory_usage = pos 0;
  hit_count = pos 0;
  miss_count = pos 0;
  hit_rate = (pos 0, pos 1);
}

abbrev pub reads : Reads
reads = record {
  read_result = λ b. some default_result;
  read_get = λ b. none;
  read_exists = λ b. some default_exists;
  read_stats = λ b. some no_stats;
  read_login = λ b. some admitted;
  read_register = λ b. none;
  read_profile = λ b. none;
}

pub exists-Serves :
    (n : ℕ) (ms : ℤ) (k : Bytes)
    → Serves runtime reads.read_exists ms (asks_exists k) default_exists (meets n)
unfolding connects_within
exists-Serves n ms k = record {
  ip = b'h' ∷ [];
  port = 80;
  plain = ((λ e. omega (arith, e)), tt);
  small = omega arith;
  located = refl;
  connected = refl;
  answered = (refl, refl, ([], refl, refl));
}

pub login-Serves :
    (n : ℕ) (ms : ℤ) (q : LoginRequest)
    → Serves runtime reads.read_login ms (logs_in q) admitted (meets n)
unfolding connects_within
login-Serves n ms q = record {
  ip = b'h' ∷ [];
  port = 80;
  plain = ((λ e. omega (arith, e)), tt);
  small = omega arith;
  located = refl;
  connected = refl;
  answered = (refl, refl, ([], refl, refl));
}
