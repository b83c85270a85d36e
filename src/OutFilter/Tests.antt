-- ===== src/OutFilter/Tests.antt =====
-- A response in two brigades, streamed and too large for its buffer, and the theorems applied.
use mod_http.Common.{◌≡◌, refl, Bool, true, false, some, List, [], ◌∷◌, map, arith, inl}
use mod_http.Filter.Capture.{joined}
use mod_http.OutFilter.{
  OutBucket, data_bucket, end_of_stream, flush, metadata, Answers, starts_error, appends, completes,
  Request, oversized_msg,
}
use mod_http.OutFilter.Calls.{IsOrdered, send_response, send_response-IsOrdered}
use mod_http.OutFilter.Body.{answered, all_ok, flatten, data_of, body_of}
use mod_http.OutFilter.Same.{unsent, sends_body, sends_error}

abbrev request : Bool → Request
request streaming = record {
  is_main = true;
  streaming = streaming;
  header_only = false;
  max_response_body_size = 2;
}

abbrev brigades : List (List OutBucket)
brigades =
    (metadata ∷ data_bucket (some (b'o' ∷ b'k' ∷ [])) ∷ flush ∷ [])
    ∷ (data_bucket (some (b'!' ∷ [])) ∷ end_of_stream ∷ [])
    ∷ []

sends_body_example :
    body_of (send_response (request true) (map answered brigades) all_ok unsent).calls
    ≡ joined (data_of (flatten brigades))
sends_body_example =
    sends_body (request true) brigades refl refl (refl, (refl, (refl, (refl, (refl, tt)))))
      (inl refl)

sends_error_example :
    (send_response (request false) (map answered brigades) all_ok unsent).calls
    ≡ completes ∷ appends oversized_msg ∷ starts_error true ∷ []
sends_error_example =
    sends_error (request false) brigades refl refl (refl, (refl, (refl, (refl, (refl, tt))))) refl
      (omega arith)

-- The second append fails.
abbrev breaks : Answers
breaks = record { start_ok = true; append_ok = false }

send_response-IsOrdered_example :
    IsOrdered
      (send_response
        (request true)
        (((breaks, data_bucket (some (b'o' ∷ []))) ∷ []) ∷ [])
        breaks
        unsent).calls
send_response-IsOrdered_example =
    send_response-IsOrdered (request true) (((breaks, data_bucket (some (b'o' ∷ []))) ∷ []) ∷ [])
      breaks unsent tt
