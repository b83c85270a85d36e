-- ===== src/Startup/Stops.antt =====
-- The stop and the drain of a child leave nothing.
use mod_http.Common.{
  ◌≡◌, refl, ap, ◌∙◌, sym, subst, Bool, true, false, none, some, List, ◌∷◌, arith, Option-cases,
  if_both, if_known, inl, inr, if◌then◌else◌,
}
use mod_http.Startup.{
  acquirer, Effect, signals, ChildIo, end_if, Child, teardown, io_listen_stop, io_listen_drain,
  child_stopping, pool_cleanup,
}
use mod_http.Startup.Books.{Books, IsKept, IsIdle, IsWhole, up, one_if}

teardown-Books :
    (io : ChildIo) (log : List Effect) (acquiring : Bool)
    → IsWhole (some io)
    → Books log 1 1 acquiring
    → Books (teardown io log).1 0 0 acquiring
unfolding teardown
teardown-Books io log acquiring (thread, pool, engine, fd) (s, p, q, e, a) =
    rw (thread, pool, engine, fd, teardown)
      (omega (arith, s), omega (arith, p), omega (arith, q), omega (arith, e), a)

io_listen_stop-none : (child : Child) → child.io ≡ none → io_listen_stop child ≡ child
unfolding io_listen_stop
io_listen_stop-none child e =
    ap
      (λ io. elim io as (λ x. Child) [
        | none ↦ child
        | some j ↦ record child { io = none; log = (teardown j child.log).1 }
      ])
      e

io_listen_stop-some :
    (child : Child) (io : ChildIo)
    → child.io ≡ some io
    → io_listen_stop child ≡ record child { io = none; log = (teardown io child.log).1 }
unfolding io_listen_stop
io_listen_stop-some child io e = rw (e, io_listen_stop) refl

-- What a child without an `h3_io_t`, and one with it, have.
IsKept-IsIdle : (child : Child) → IsKept child → child.io ≡ none → IsIdle child
IsKept-IsIdle child (w, b) e =
    (e, subst (λ io. Books child.log (up io) (up io) child.acquiring) e b)

IsKept-IsWhole :
    (child : Child) (io : ChildIo)
    → IsKept child
    → child.io ≡ some io
    → IsWhole (some io) × Books child.log 1 1 child.acquiring
IsKept-IsWhole child io (w, b) e =
    (subst IsWhole e w, subst (λ o. Books child.log (up o) (up o) child.acquiring) e b)

io_listen_stop-IsIdle : (child : Child) → IsKept child → IsIdle (io_listen_stop child)
io_listen_stop-IsIdle child kept = elim (Option-cases child.io) [
  | inl e ↦ subst IsIdle (sym (io_listen_stop-none child e)) (IsKept-IsIdle child kept e)
  | inr (io, e) ↦
      let (w, b) = IsKept-IsWhole child io kept e in
      subst IsIdle (sym (io_listen_stop-some child io e))
        (refl, teardown-Books io child.log child.acquiring w b)
]

-- The thread that retries is joined.
joined-IsKept :
    (child : Child)
    → IsKept child
    → IsKept (record child {
      stopping = true;
      acquiring = false;
      log = end_if child.acquiring acquirer child.log;
    })
joined-IsKept child (w, (s, p, q, e, a)) =
    let P : List Effect → Type 0 = λ log. Books log (up child.io) (up child.io) false in
    (
      w,
      if_known P child.acquiring (λ on. (s, p, q, e, omega (arith, a, ap one_if on)))
          (λ off. (s, p, q, e, omega (arith, a, ap one_if off))),
    )

abbrev drains : ChildIo → Child → Child
drains io child =
    if io.draining
    then child
    else record child { io = some (record io { draining = true }); log = signals ∷ child.log }

io_listen_drain-none : (child : Child) → child.io ≡ none → io_listen_drain child ≡ child
unfolding io_listen_drain
io_listen_drain-none child e =
    ap (λ o. elim o as (λ x. Child) [ none ↦ child | some io ↦ drains io child ]) e

io_listen_drain-some :
    (child : Child) (io : ChildIo) → child.io ≡ some io → io_listen_drain child ≡ drains io child
unfolding io_listen_drain
io_listen_drain-some child io e =
    ap (λ o. elim o as (λ x. Child) [ none ↦ child | some j ↦ drains j child ]) e

pool_cleanup-none : (child : Child) → child.io ≡ none → pool_cleanup child ≡ child
unfolding pool_cleanup
pool_cleanup-none child e =
    ap
      (λ o. elim o as (λ x. Child) [
        | none ↦ child
        | some io ↦ if io.draining then io_listen_stop child else child
      ])
      e

pool_cleanup-drained :
    (child : Child) (io : ChildIo)
    → child.io ≡ some io
    → io.draining ≡ true
    → pool_cleanup child ≡ io_listen_stop child
unfolding pool_cleanup
pool_cleanup-drained child io e d =
    ap
      (λ o. elim o as (λ x. Child) [
        | none ↦ child
        | some j ↦ if j.draining then io_listen_stop child else child
      ])
      e
    ∙ ap (λ b. if b then io_listen_stop child else child) d

-- After a drain the clean-up of the pool stops the child.
drained-IsIdle : (child : Child) → IsKept child → IsIdle (pool_cleanup (io_listen_drain child))
drained-IsIdle child kept = elim (Option-cases child.io) [
  | inl e ↦
      subst (λ c. IsIdle (pool_cleanup c)) (sym (io_listen_drain-none child e))
        (subst IsIdle (sym (pool_cleanup-none child e)) (IsKept-IsIdle child kept e))
  | inr (io, e) ↦
      let (w, b) = IsKept-IsWhole child io kept e in
      subst (λ c. IsIdle (pool_cleanup c)) (sym (io_listen_drain-some child io e))
        (if_known (λ c. IsIdle (pool_cleanup c)) io.draining
          (λ d.
            subst IsIdle (sym (pool_cleanup-drained child io e d))
              (io_listen_stop-IsIdle child kept))
          (λ fresh.
            let io' = record io { draining = true } in
            let next = record child { io = some io'; log = signals ∷ child.log } in
            subst IsIdle (sym (pool_cleanup-drained next io' refl refl))
              (io_listen_stop-IsIdle next (w, b))))
]

pub ended-IsIdle :
    (graceful : Bool) (child : Child)
    → IsKept child
    → IsIdle (pool_cleanup (child_stopping graceful child))
unfolding child_stopping
ended-IsIdle graceful child kept =
    let joined = record child {
      stopping = true;
      acquiring = false;
      log = end_if child.acquiring acquirer child.log;
    } in
    let still = joined-IsKept child kept in
    let (gone, b) = io_listen_stop-IsIdle joined still in
    if_both (λ c. IsIdle (pool_cleanup c)) graceful (drained-IsIdle joined still)
      (subst IsIdle (sym (pool_cleanup-none (io_listen_stop joined) gone)) (gone, b))
