-- ===== src/Lib.antt =====
-- A model of mod_http3, an Apache httpd module that serves HTTP/3 over the QUIC of OpenSSL and
-- nghttp3, and proofs about it.
--
-- A child process has one event thread. It pumps the QUIC engine, accepts connections, waits for
-- their handshakes, and services the sessions. nghttp3 calls back with header fields and body data
-- of a stream, and asks for response data. A request runs on a worker thread, which reads the
-- buffered body through the input filter and appends the response to a bounded queue of the stream.
-- The session lock guards the queue, so an interleaving of worker and event thread is a sequence of
-- rounds.
--
-- Which file models which code:
--   * Config, Config/Directives, Config/Merge, Config/PostConfig: the configuration record, the
--     directive handlers, merging, and h3_post_config of mod_http3/src/h3_config.c; find_h3_server
--     of mod_http3/src/h3_server.c. Config/Numeric says what the
--     numeric directives are to do. Proofs in Config/Bounds, Config/Taken, Config/Ready and
--     Config/Refused.
--   * Response: the response queue of mod_http3/src/h3_session.c (h3_stream_response_append is
--     append_round, one round of its loop; complete, ack, cancel and cleanup are the functions of
--     those names; read_data is h3_session_read_data). Chunks lie on an explicit heap, where a use
--     of a freed chunk is a fault; a write to a freed tail leaves a cell that is none of the queue's.
--     Response/Layout and Response/Invariant say what the pointers
--     represent, Response/Steps has one file for each operation, Response/Delivery whole histories.
--   * Stream: h3_stream of mod_http3/include/h3_session.h and what track_stream of
--     mod_http3/src/h3_stream.c sets up.
--   * Buffer: the doubling of a body buffer, in mod_http3/src/h3_callbacks.c and
--     mod_http3/src/h3_filter.c.
--   * Callbacks: the nghttp3 callbacks of mod_http3/src/h3_callbacks.c, under the names of the code.
--     Callbacks/Body is about the request body, Callbacks/Headers about header fields and the end
--     of a stream.
--   * Filter: serve_request_body, input_filter_eos and capture_body_bucket of
--     mod_http3/src/h3_filter.c. Proofs in Filter/Input and Filter/Capture.
--   * Listener: the connections of h3_io_t, from mod_http3/src/h3_io.c and
--     mod_http3/src/h3_threads.c. pass is one pass of h3_event_thread without the service of the
--     sessions. Proofs in Listener/Books, Listener/Rounds, Listener/Sessions,
--     Listener/Settled and Listener/History.
--   * Service: service_session_pass and abandon_stalled_responses of mod_http3/src/h3_io.c.
--     Service/Stop is the part for a child that drains or stops, Service/Serve the rest; go_on lets
--     the workers go on where the event thread does not hold the session's lock. Proofs in
--     Service/Steps, Service/Reads, Service/Sound, Service/Whole, Service/Passes, Service/Ending and
--     Service/Stalled.
--     Callbacks/Kept and Session/Drain/Tame are about what the callbacks leave alone.
--   * Lifetime: h3_session_create, h3_session_create_control_streams and h3_session_destroy of
--     mod_http3/src/h3_session.c. Proofs in Lifetime/Opened, Lifetime/Destroyed and Lifetime/Limits.
--   * Startup: h3_child_init, the thread that retries the port and h3_c1_child_stopping of
--     mod_http3/src/h3_server.c; h3_io_listen_start, teardown, drain and stop of
--     mod_http3/src/h3_io.c; h3_socket_open of mod_http3/src/h3_socket.c. Proofs in Startup/Books,
--     Startup/Stops, Startup/Ends and Startup/Fails.
--   * QuicEngine: h3q_engine_create, h3q_engine_destroy and h3q_engine_want of
--     mod_http3/src/quic/h3q.c, h3q_tls_ctx_create of mod_http3/src/quic/detail/h3q_tls.c. Proofs in
--     QuicEngine/Settled and QuicEngine/Timeout.
--   * Hooks: the hooks of mod_http3/src/h3_hooks.c. Proofs in Hooks/Checks and Hooks/AltSvc.
--   * Datagram: the queue of datagrams of mod_http3/src/quic/detail/h3q_addr.c. Proofs in
--     Datagram/Fill and Datagram/Order.
--   * QuicStream: h3q_stream_write, h3q_stream_read and h3q_stream_is_read_finished of
--     mod_http3/src/quic/h3q_stream.c. QuicStream/Write says what a write comes to.
--   * Session: h3_session of mod_http3/include/h3_session.h, with h3_stream_find and track_stream of
--     mod_http3/src/h3_stream.c; Session/Flush is flush_nghttp3 with unblock_writable_streams,
--     Session/Drain is drain_one_stream with reject_malformed_stream, Session/Drain/Pass is
--     drain_ready_streams, and Session/Reclaim its last loop, which destroys the streams that are
--     spent. Proofs in Session/Streams, Session/Reclaim/Fate, under Session/Flush and under
--     Session/Drain.
--   * Dispatch: the life of a task, h3_process_request and stream_worker of
--     mod_http3/src/h3_request.c, with the test before h3_session_destroy in
--     mod_http3/src/h3_threads.c. A turn is what the event thread or a worker does between two points
--     where another may see it. Proofs in Dispatch/Holders, Dispatch/Starts, Dispatch/Work and
--     Dispatch/Safety.
--   * ResponseHead: build_response_nva, submit_response_nva and h3_response_start of
--     mod_http3/src/h3_request.c. Proofs in ResponseHead/Kept and ResponseHead/Once.
--   * OutFilter: h3_filter_out_proto of mod_http3/src/h3_filter.c, as httpd 2.4 builds it, and the end
--     of stream_worker, which sends a buffered body. Proofs in OutFilter/Calls, OutFilter/Body and
--     OutFilter/Same.
--   * Vary: uniq_field_values and fix_vary of mod_http3/src/h3_filter.c. Vary/Tokens is about the loop
--     and the tokens of a field, Vary/Values about the array of values, Vary/Again about the header read
--     back.
--   * Finalize: h3_response_finalize of mod_http3/src/h3_filter.c. Proofs in Finalize/Framed.
--   * Common: shared names, tests on numbers, lists.
--
-- Numbers are natural numbers. Where the code may wrap, the wrap is written out; elsewhere a
-- comment says why it cannot. Fuel: ack_loop and free_from are given more than the number of
-- chunks ever allocated, double_until 64 doublings of a size_t, uniq_from one more than the bytes of
-- the field, progress_from, reap_from and free_pending the number of entries that their loops can
-- visit.
--
-- Parameters of the model are what lies outside the repository: the number parsers of APR, the
-- readability of files, the success of malloc, what OpenSSL says of a connection and its
-- handshake, the BIO below the datagram queue, what SSL_write_ex takes of a vector and SSL_read_ex
-- gives, the bytes that nghttp3 has to send, the comparison of strings and the tables of APR, and
-- which calls of APR and OpenSSL fail in the start of a child.
--
-- Not modelled: the serving of a request inside stream_worker, which is httpd's; the pump of the QUIC
-- engine, the polling of the sockets and the wakeup, which are calls of other libraries; what the
-- callbacks that run during a read of one stream do to other streams and to the queue of QUIC streams
-- (Callbacks has them one by one); what only the development build of httpd has;
-- logging.
pub mod Common
pub mod Config
pub mod Response
pub mod Stream
pub mod Buffer
pub mod Callbacks
pub mod Filter
pub mod Datagram
pub mod Finalize
pub mod Hooks
pub mod Lifetime
pub mod Listener
pub mod QuicEngine
pub mod Startup
pub mod QuicStream
pub mod Session
pub mod Dispatch
pub mod ResponseHead
pub mod OutFilter
pub mod Vary
pub mod Service
