-- ===== src/Startup/Fails.antt =====
-- A start that fails after the worker pool was made.
use mod_http.Common.{
  ◌+◌, ◌≡◌, refl, true, false, not, ◌&&◌, ◌||◌, none, arith, Bool-cases, inl, inr,
}
use mod_http.Startup.{
  udp_socket, worker_pool, qengine, event_thread, Child, teardown, StartCalls, listen_start,
  start_or_close,
}
use mod_http.Startup.Books.{made, ended}

-- Where the QUIC engine or the event thread cannot be made, the start ends the worker pool and the
-- engine that it made, but the socket that it was given is closed twice: by the teardown, and again
-- by the caller.
pub start_fails :
    (c : StartCalls) (child : Child)
    → child.io ≡ none
    → c.wakeup_create ≡ true
    → c.thread_pool_create ≡ true
    → (c.engine_made && c.threadattr_create && c.thread_create) ≡ false
    → let log = (start_or_close c child).log in
      ((start_or_close c child).io ≡ none)
      × (made udp_socket log ≡ made udp_socket child.log)
      × (ended udp_socket log ≡ ended udp_socket child.log + 2)
      × (made worker_pool log + ended worker_pool child.log
          ≡ ended worker_pool log + made worker_pool child.log)
      × (made qengine log + ended qengine child.log ≡ ended qengine log + made qengine child.log)
      × (made event_thread log ≡ made event_thread child.log)
unfolding start_or_close listen_start teardown
start_fails c child none_yet woken pooled fails =
    let early : (not c.wakeup_create || not c.thread_pool_create) ≡ false = ground arith in
    elim (Bool-cases (not c.engine_made)) [
      | inl no_engine ↦
          rw (early, no_engine, none_yet, listen_start, start_or_close)
            (refl, refl, omega arith, omega arith, omega arith, refl)
      | inr engine ↦
          let thread : (not c.threadattr_create || not c.thread_create) ≡ true = ground arith in
          rw (early, engine, thread, listen_start, start_or_close)
            (refl, refl, omega arith, omega arith, omega arith, refl)
    ]
