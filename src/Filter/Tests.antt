-- ===== src/Filter/Tests.antt =====
-- A small body, and the theorems about the filters applied to it.
use mod_http.Common.{ℕ, ◌≡◌, refl, true, false, List, [], ◌∷◌, Bytes, arith}
use mod_http.Config.{create_server_config}
use mod_http.Stream.{Stream, new_stream}
use mod_http.Filter.{
  InputMode, readbytes, getline, takes_bytes, is_speculative, CaptureCtx, unread_body,
}
use mod_http.Filter.Input.{read_body, read_body_lem}

abbrev request : Stream
request = record (new_stream create_server_config 0 4 1) {
  request_body = b'a' ∷ 0x0a ∷ b'b' ∷ [];
  request_body_capacity = 1024;
}

abbrev calls : List (InputMode × ℕ)
calls = (getline, 0) ∷ (readbytes, 1) ∷ (readbytes, 8) ∷ (readbytes, 8) ∷ []

read_body_lem_example : read_body calls request ≡ (unread_body request, true)
unfolding takes_bytes is_speculative
read_body_lem_example =
    read_body_lem calls request (refl, (refl, (refl, (refl, tt)))) (omega arith) (omega arith)

abbrev ctx : CaptureCtx
ctx = record { dataheap = []; dataheapcap = 0; response_too_large = false }

abbrev buckets : List Bytes
buckets = (b'o' ∷ []) ∷ (b'k' ∷ []) ∷ []
