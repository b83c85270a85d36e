-- ===== src/ResponseHead/Once.antt =====
-- A response's head goes to nghttp3 once.
use mod_http.Common.{
  ℕ, ◌+◌, ◌≤◌, Bool, ◌||◌, Option, none, some, List, [], ◌∷◌, Bytes, if◌then◌else◌, arith, length,
}
use mod_http.Response.{
  AppendCalls, Response, SessionFlags, append_round, push_chunk, complete, cancel,
}
use mod_http.ResponseHead.{Nv, Httpd, Head, submit_response_nva, response_start}

-- What a worker does to its response, and a cancellation.
pub data Act : Type 0 where
  starts : SessionFlags → Bool → Head → Act
  appends : SessionFlags → AppendCalls → Bytes → Act
  completes : SessionFlags → Act
  cancels : Act

-- The head that is handed to nghttp3, and the response.
pub act : Httpd → Act → Response → Option (List Nv) × Response
act h (starts f ok r) q = let (rv, nva, q') = response_start h f ok r q in (nva, q')
act h (appends f a rest) q = (none, (append_round f a rest q).1)
act h (completes f) q = (none, complete f q)
act h cancels q = (none, cancel q)

-- The heads handed to nghttp3, and the response.
pub acts : Httpd → List Act → Response → List (List Nv) × Response
unfolding act
acts h [] q = ([], q)
acts h (a ∷ rest) q =
    let (nva, q') = act h a q in
    let (nvas, final) = acts h rest q' in
    (elim nva [ none ↦ nvas | some fields ↦ fields ∷ nvas ], final)

abbrev pub room : Response → ℕ
room q = if q.submitted || q.cancelled then 0 else 1

abbrev handed : Option (List Nv) → ℕ
handed none = 0
handed (some nva) = 1

submit-room :
    (f : SessionFlags) (ok : Bool) (nva : List Nv) (q : Response)
    → let out = submit_response_nva f ok nva q in handed out.1 + room out.2 ≤ room q
unfolding submit_response_nva cancel
submit-room f ok nva q = ground arith

append-room :
    (f : SessionFlags) (a : AppendCalls) (rest : Bytes) (q : Response)
    → room (append_round f a rest q).1 ≤ room q
unfolding append_round push_chunk cancel
append-room f a rest q = ground arith

complete-room : (f : SessionFlags) (q : Response) → room (complete f q) ≤ room q
unfolding complete
complete-room f q = ground arith

act-room : (h : Httpd) (a : Act) (q : Response) → handed (act h a q).0 + room (act h a q).1 ≤ room q
unfolding act response_start
act-room h (starts f ok r) q = submit-room f ok _ q
act-room h (appends f a rest) q = omega (arith, append-room f a rest q)
act-room h (completes f) q = omega (arith, complete-room f q)
act-room h cancels q = unfold cancel in ground arith

-- However starts, appends and completions of a worker and cancellations follow one another, and
-- however nghttp3 answers, it is given a head at most once, and none where one was accepted before or
-- the response was cancelled.
pub acts_once :
    (h : Httpd) (steps : List Act) (q : Response)
    → length (acts h steps q).0 + room (acts h steps q).1 ≤ room q
unfolding acts
acts_once h [] q = omega arith
acts_once h (a ∷ steps) q = ground (arith, act-room h a q, acts_once h steps (act h a q).1)
