-- ===== src/Lifetime/Limits.antt =====
-- The limit on field sections that a session sets admits the header fields that the callbacks accept.
use mod_http.Common.{ℕ, ◌+◌, List, [], ◌∷◌, Bytes, length}
use mod_http.Config.{ServerConf}
use mod_http.Stream.{Stream, new_stream}
use mod_http.Callbacks.{FieldLimits, Token, begin_stream, on_recv_header}

-- The size of a field section: 32 bytes a field beside its name and value.
abbrev pub section_size : List (Bytes × Bytes) → ℕ
section_size [] = 0
section_size (f ∷ fields) = (length f.0 + length f.1 + 32) + section_size fields

-- The fields that nghttp3 hands over one after another, each with its token.
abbrev pub recv_headers : FieldLimits → List (Token × Bytes × Bytes) → Stream → Stream
recv_headers limits [] h = h
recv_headers limits ((token, name, value) ∷ fields) h =
    recv_headers limits fields (on_recv_header limits token name value h)

-- A stream that `track_stream` has allocated, when its header fields begin.
abbrev pub begun : ServerConf → (now sid qstream : ℕ) → Stream
begun conf now sid qstream = begin_stream (new_stream conf now sid qstream)
