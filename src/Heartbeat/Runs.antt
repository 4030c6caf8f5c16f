-- ===== src/Heartbeat/Runs.antt =====
-- Runs of the heartbeat manager.
use rpc_base_on_zookeeper.Base.{
  bytes_eq, ◌+◌, ◌*◌, ◌≡◌, refl, true, false, not, pos, none, [], ◌∷◌, List, arith,
}
use rpc_base_on_zookeeper.Table.{find}
use rpc_base_on_zookeeper.Table.Keys.{UniqueKeys}
use rpc_base_on_zookeeper.Heartbeat.{
  Heartbeat, Net, ServiceInfo, register_service, is_service_available, new_heartbeat, worker_pass,
  probe, do_heartbeat, create_heartbeat_connection,
}
use rpc_base_on_zookeeper.Heartbeat.Pass.{after_pass?, find-worker_pass}
use rpc_base_on_zookeeper.Heartbeat.History.{Event, passes, unregisters, run, IsRunning, AllSilent}
use rpc_base_on_zookeeper.Heartbeat.Liveness.{
  AllAnswer, registered, any_pass_from, is_service_available-silent, is_service_available-answering,
}

abbrev dead : Net
dead = record { has_socket = true; connects = λ ip port. false }

abbrev live : Net
live = record { has_socket = true; connects = λ ip port. true }

abbrev started : Heartbeat
started = record new_heartbeat { running = true; thread = true }

started-IsRunning : IsRunning started
started-IsRunning = record { running = refl; going = refl; unique = tt }

abbrev second_passes : Net → List Event
second_passes net = passes net 500000000 ∷ unregisters (b'x' ∷ []) ∷ passes net 1000000000 ∷ []

silent_passes : AllSilent (b'k' ∷ []) (registered (b'h' ∷ []) 80 1000 0) none (second_passes dead)
unfolding probe do_heartbeat create_heartbeat_connection bytes_eq
silent_passes = (refl, (refl, (refl, tt)))

answering_passes : AllAnswer (b'k' ∷ []) (b'h' ∷ []) 80 1000 none 0 (second_passes live)
unfolding probe do_heartbeat create_heartbeat_connection bytes_eq
answering_passes = ((refl, omega arith), (refl, ((refl, omega arith), tt)))

is_service_available-silent_example :
    is_service_available
      (b'k' ∷ [])
      (run (second_passes dead) (register_service (b'k' ∷ []) (b'h' ∷ []) 80 (pos 1000) 0 started))
    ≡ not (any_pass_from (0 + 1000 * 1000000) (second_passes dead))
is_service_available-silent_example =
    is_service_available-silent (b'k' ∷ []) (b'h' ∷ []) 80 1000 0 started (omega arith)
      started-IsRunning (second_passes dead) silent_passes

is_service_available-answering_example :
    is_service_available
      (b'k' ∷ [])
      (run (second_passes live) (register_service (b'k' ∷ []) (b'h' ∷ []) 80 (pos 1000) 0 started))
    ≡ true
is_service_available-answering_example =
    is_service_available-answering (b'k' ∷ []) (b'h' ∷ []) 80 1000 0 started (second_passes live)
      (omega arith) started-IsRunning answering_passes

abbrev old_service : ServiceInfo
old_service = record { ip = b'h' ∷ []; port = 80; timeout_ms = pos 1000; last_heartbeat = 0 }

abbrev with_service : Heartbeat
with_service = record started { services = (b'k' ∷ [], old_service) ∷ [] }

with_service-UniqueKeys : UniqueKeys with_service.services
unfolding find
with_service-UniqueKeys = (refl, tt)

find-worker_pass_example :
    find (b'k' ∷ []) (worker_pass live 7 with_service).services
    ≡ after_pass? none live 7 (b'k' ∷ []) (find (b'k' ∷ []) with_service.services)
find-worker_pass_example =
    find-worker_pass live 7 (b'k' ∷ []) with_service with_service-UniqueKeys refl refl
