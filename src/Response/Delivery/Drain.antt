-- ===== src/Response/Delivery/Drain.antt =====
-- A read with room for all that waits delivers everything.
use mod_http.Common.{
  ℕ, ◌+◌, ◌≤◌, ◌≡◌, ◌≢◌, ap, ◌∙◌, sym, false, some, ◌++◌, append_assoc, length, take, take-all,
  drop,
}
use mod_http.Response.Layout.{bytes_of}
use mod_http.Response.Steps.Reads.{Laid-right, read_data-Represents}
use mod_http.Response.Delivery.{Event, Traffic, Flow, run_event}
use mod_http.Response.Delivery.Order.{carried-answer}

-- Where the response is not cancelled, a read with room for a vector for each chunk that waits
-- brings what nghttp3 has been given up to all that the worker has appended.
pub read_delivers_all :
    (veccnt : ℕ) (t : Traffic) (f : Flow t)
    → t.queue.cancelled ≡ false
    → veccnt ≢ 0
    → length f.waiting ≤ veccnt
    → (t' : Traffic) × (run_event (Event.pulls veccnt) t ≡ some t') × (t'.delivered ≡ t.produced)
unfolding run_event
read_delivers_all veccnt t f live nz room =
    let (q, e, r) = read_data-Represents veccnt t.queue f.sent f.waiting f.represents nz live in
    let now_taken = take veccnt f.waiting in
    let left = drop veccnt f.waiting in
    let bytes =
      carried-answer q.cells now_taken left t.queue.complete
        (Laid-right q.cells f.sent (now_taken ++ left) (rw (← append_assoc) r.laid)) in
    (
      record t {
        queue = q;
        delivered = t.delivered ++ bytes_of now_taken;
        outstanding = t.outstanding + length (bytes_of now_taken);
      },
      rw (e, run_event) (rw bytes),
      ap (λ ns. t.delivered ++ bytes_of ns) (take-all veccnt f.waiting room) ∙ sym f.in_order,
    )
