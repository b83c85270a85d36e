-- ===== src/QuicEngine/Tests.antt =====
-- An engine that is created, one whose listener cannot be, and the theorems applied.
use mod_http.Common.{true, false, some}
use mod_http.QuicEngine.{H3qEngine, EngineCalls, engine_create, new_engine}
use mod_http.QuicEngine.Settled.{IsSettled, engine_create-IsSettled}

abbrev no_filter : EngineCalls
no_filter = record {
  calloc = true;
  ctx_new = true;
  certificate = true;
  private_key = true;
  meth_new = true;
  handlers = true;
  addr_new = true;
  ex_index = some 3;
  new_listener = true;
  new_dgram = true;
  new_filter = false;
  listen = true;
  nonblocking = true;
}

engine_create-IsSettled_example : IsSettled (engine_create no_filter)
engine_create-IsSettled_example = engine_create-IsSettled no_filter

abbrev listening : H3qEngine
listening = record new_engine { ssl_listener = true }
