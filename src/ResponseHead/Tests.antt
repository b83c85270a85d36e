-- ===== src/ResponseHead/Tests.antt =====
-- A head with a field that may go out and three that may not, and the theorems applied.
use mod_http.Common.{
  ◌+◌, ◌-◌, ◌≤◌, ◌≡◌, refl, Bool, true, false, ◌&&◌, Option, none, some, List, [], ◌∷◌, Bytes, ◌==◌,
  if◌then◌else◌, length, take,
}
use mod_http.Response.{AppendCalls, SessionFlags, new_response}
use mod_http.ResponseHead.{
  Entry, Httpd, Head, connection, te, status_name, is_connection_specific, nv_of, fill_nva,
  build_response_nva,
}
use mod_http.ResponseHead.Kept.{kept, All, IsAllowed, build_response_nva_lem}
use mod_http.ResponseHead.Once.{Act, starts, appends, completes, room, acts, acts_once}

-- Names are compared as they are.
abbrev same_bytes : Bytes → Bytes → Bool
same_bytes [] [] = true
same_bytes [] (b ∷ bs) = false
same_bytes (a ∷ rest) [] = false
same_bytes (a ∷ rest) (b ∷ bs) = (a == b) && same_bytes rest bs

abbrev get : List Entry → Bytes → Option Bytes
get [] k = none
get (e ∷ es) k = elim e.key [
  | none ↦ get es k
  | some k' ↦ if same_bytes k' k then e.val else get es k
]

abbrev plain : Httpd
plain = record {
  cstr_casecmp = same_bytes;
  find_token = same_bytes;
  table_get = get;
  decimal = λ n. n ∷ [];
}

abbrev x_hop : Bytes
x_hop = b'X' ∷ b'-' ∷ b'H' ∷ []

abbrev vary : Bytes
vary = b'V' ∷ b'a' ∷ b'r' ∷ b'y' ∷ []

abbrev entry : Bytes → Bytes → Entry
entry k v = record { key = some k; val = some v }

abbrev headers : List Entry
headers = entry connection x_hop ∷ entry vary (b'*' ∷ []) ∷ entry x_hop [] ∷ entry te [] ∷ []

only_vary :
    build_response_nva plain 64 200 (some headers)
    ≡ record { name = status_name; value = 200 ∷ [] }
      ∷ record { name = vary; value = b'*' ∷ [] }
      ∷ []
unfolding build_response_nva fill_nva nv_of is_connection_specific
only_vary = refl

build_response_nva_lem_example :
    (build_response_nva plain 64 200 (some headers)
      ≡ record { name = status_name; value = 200 ∷ [] }
        ∷ take (64 - 1) (kept plain (some x_hop) headers))
    × All (IsAllowed plain (some x_hop)) (take (64 - 1) (kept plain (some x_hop) headers))
build_response_nva_lem_example = build_response_nva_lem plain 64 200 headers

abbrev flags : SessionFlags
flags = record { aborted = false; ngh3_dead = false; ngh3 = true }

abbrev head : Head
head = record { resp_status = 200; resp_headers = some headers; status = 0; headers_out = none }

abbrev granted : AppendCalls
granted = record { waits = true; allocates = true }

-- The filter starts the response, appends a byte, starts it again at its end, and completes it.
abbrev steps : List Act
steps =
    starts flags true head
    ∷ appends flags granted (b'x' ∷ [])
    ∷ starts flags true head
    ∷ completes flags
    ∷ []

acts_once_example :
    length (acts plain steps (new_response 100 0)).0
      + room (acts plain steps (new_response 100 0)).1
    ≤ room (new_response 100 0)
acts_once_example = acts_once plain steps (new_response 100 0)
