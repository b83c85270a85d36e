-- ===== src/Startup/Tests.antt =====
-- A port that is free at the second attempt, and an engine that cannot be made.
use mod_http.Common.{◌+◌, ◌≡◌, refl, true, false, none, List, [], ◌∷◌}
use mod_http.Startup.{
  udp_socket, worker_pool, qengine, event_thread, success, address_in_use, SocketCalls, Child,
  new_child, makes, StartCalls, start_or_close, InitCalls, Attempt, life,
}
use mod_http.Startup.Books.{made, ended}
use mod_http.Startup.Ends.{life_ends}
use mod_http.Startup.Fails.{start_fails}

abbrev free_port : SocketCalls
free_port = record {
  socket_create = success;
  sockaddr_info_get = success;
  socket_bind = success;
  socket_timeout_set = success;
  os_sock_get = success;
}

abbrev taken_port : SocketCalls
taken_port = record free_port { socket_bind = address_in_use }

abbrev all_well : StartCalls
all_well = record {
  wakeup_create = true;
  thread_pool_create = true;
  engine_made = true;
  threadattr_create = true;
  thread_create = true;
}

abbrev init : InitCalls
init = record { configured = true; socket = taken_port; start = all_well; acquirer_made = true }

abbrev attempts : List Attempt
attempts =
    record { socket = taken_port; stopping = false; start = all_well }
    ∷ record { socket = free_port; stopping = false; start = all_well }
    ∷ []

life_ends_example :
    ((life init attempts true).io ≡ none)
    × (made udp_socket (life init attempts true).log
        ≡ ended udp_socket (life init attempts true).log)
    × (made worker_pool (life init attempts true).log
        ≡ ended worker_pool (life init attempts true).log)
    × (made qengine (life init attempts true).log ≡ ended qengine (life init attempts true).log)
    × (made event_thread (life init attempts true).log
        ≡ ended event_thread (life init attempts true).log)
life_ends_example = life_ends init attempts true refl (refl, (refl, tt))

abbrev opened : Child
opened = record new_child { log = makes udp_socket ∷ [] }

abbrev no_engine : StartCalls
no_engine = record all_well { engine_made = false }

start_fails_example :
    ((start_or_close no_engine opened).io ≡ none)
    × (made udp_socket (start_or_close no_engine opened).log ≡ 1)
    × (ended udp_socket (start_or_close no_engine opened).log ≡ 2)
    × (made worker_pool (start_or_close no_engine opened).log + 0
        ≡ ended worker_pool (start_or_close no_engine opened).log + 0)
    × (made qengine (start_or_close no_engine opened).log + 0
        ≡ ended qengine (start_or_close no_engine opened).log + 0)
    × (made event_thread (start_or_close no_engine opened).log ≡ 0)
start_fails_example = start_fails no_engine opened refl refl refl refl
