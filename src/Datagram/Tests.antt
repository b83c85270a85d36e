-- ===== src/Datagram/Tests.antt =====
-- Two datagrams in one receive, and the theorems about the queue applied to them.
use mod_http.Common.{ℕ, ◌≡◌, refl, true, Bool, none, some, List, [], ◌∷◌, Bytes, arith}
use mod_http.Datagram.{BioMsg, Engine, NextBio, recvmmsg}
use mod_http.Datagram.Fill.{AllFilled, datagram_of}
use mod_http.Datagram.Order.{Fits, given, pump, receives_in_order}

abbrev message : Bytes → ℕ → BioMsg ℕ
message buffer size = record { bytes = some buffer; data_len = size; peer = some 0; local = none }

abbrev buffer : Bytes
buffer = 0 ∷ 0 ∷ 0 ∷ 0 ∷ []

abbrev first_msg : BioMsg ℕ
first_msg = message (1 ∷ 2 ∷ 0 ∷ 0 ∷ []) 2

abbrev second_msg : BioMsg ℕ
second_msg = message (3 ∷ 0 ∷ 0 ∷ 0 ∷ []) 1

-- A BIO that has two datagrams.
abbrev two : NextBio ℕ
two msgs = (true, 2, first_msg ∷ second_msg ∷ [])

abbrev empty : Engine ℕ
empty = record { peer_rx = []; current_peer_addr = 0 }

abbrev ample : ℕ → Bool
ample i = true

abbrev arrays : List (BioMsg ℕ)
arrays = message buffer 4 ∷ []

both-AllFilled : AllFilled (first_msg ∷ second_msg ∷ [])
unfolding AllFilled
both-AllFilled = ((_, refl, omega arith, omega arith), ((_, refl, omega arith, omega arith), tt))

arrays-Fits : Fits arrays (datagram_of second_msg ∷ [])
unfolding Fits
arrays-Fits = (((_, refl), omega arith), tt)

receives_in_order_example :
    (given (recvmmsg 0 two ample (message buffer 4 ∷ arrays) empty) ≡ some (1 ∷ 2 ∷ []))
    × ((pump 0 two ample arrays (recvmmsg 0 two ample (message buffer 4 ∷ arrays) empty).engine).0
        ≡ some (3 ∷ []) ∷ [])
    × ((pump 0 two ample arrays
          (recvmmsg 0 two ample (message buffer 4 ∷ arrays) empty).engine).1.peer_rx
        ≡ [])
receives_in_order_example =
    receives_in_order 0 two ample (message buffer 4) arrays arrays empty 1 first_msg
      (second_msg ∷ []) refl refl both-AllFilled (λ j. refl) arrays-Fits

abbrev waiting : Engine ℕ
waiting = record {
  peer_rx = datagram_of first_msg ∷ datagram_of second_msg ∷ [];
  current_peer_addr = 0;
}
