-- ===== src/QuicEngine/Settled.antt =====
-- What the engine allocates is freed once, and never while something that is left uses it.
use mod_http.Common.{
  ℕ, ◌≡◌, refl, Bool, true, false, not, ◌&&◌, ◌||◌, Option, none, some, List, [], ◌∷◌, ◌==◌,
  if_both, Bool-cases, inl, inr, if◌then◌else◌,
}
use mod_http.QuicEngine.{
  Resource, HeapEvent, allocates, frees, H3qEngine, EngineCalls, engine_destroy, start_listener,
  index_peer_addr, start_peer_addr, tls_ctx_create, engine_create, has_index, new_engine,
}

abbrev code : Resource → ℕ
code Resource.engine = 0
code Resource.ssl_ctx = 1
code Resource.bio_method = 2
code Resource.peer_addr = 3
code Resource.listener = 4
code Resource.dgram_bio = 5
code Resource.filter_bio = 6

abbrev holds : Resource → List Resource → Bool
holds r [] = false
holds r (s ∷ alive) = (code s == code r) || holds r alive

abbrev without : Resource → List Resource → List Resource
without r [] = []
without r (s ∷ alive) = if code s == code r then alive else s ∷ without r alive

abbrev is_empty : List Resource → Bool
is_empty [] = true
is_empty (r ∷ alive) = false

-- The engine holds the pointers to all that it allocates; the listener uses its context, and the
-- filter its method and the datagram BIO below it.
abbrev is_in_use : Resource → List Resource → Bool
is_in_use Resource.engine alive = not (is_empty alive)
is_in_use Resource.ssl_ctx alive = holds Resource.listener alive
is_in_use Resource.bio_method alive = holds Resource.filter_bio alive
is_in_use Resource.peer_addr alive = false
is_in_use Resource.listener alive = false
is_in_use Resource.dgram_bio alive = holds Resource.filter_bio alive
is_in_use Resource.filter_bio alive = false

-- One more event; `none` is the free of what is not there or in use.
abbrev replay : HeapEvent → List Resource → Option (List Resource)
replay (allocates r) alive = some (r ∷ alive)
replay (frees r) alive =
    if holds r alive && not (is_in_use r (without r alive)) then some (without r alive) else none

-- What is allocated after the events of a log, latest first.
abbrev pub alive_after : List HeapEvent → Option (List Resource)
alive_after [] = some []
alive_after (e ∷ log) = elim (alive_after log) [ none ↦ none | some alive ↦ replay e alive ]

-- Without an engine nothing is left; an engine has a listener with its BIOs, and its end leaves
-- nothing.
abbrev pub IsSettled : Option H3qEngine × List HeapEvent → Type 0
IsSettled (none, log) = alive_after log ≡ some []
IsSettled (some e, log) =
    (e.ssl_listener ≡ true) × (e.has_bios ≡ true) × (alive_after (engine_destroy e log) ≡ some [])

-- The log and the engine at the listener.
abbrev before_listener : List HeapEvent
before_listener =
    allocates Resource.peer_addr
    ∷ allocates Resource.bio_method
    ∷ allocates Resource.ssl_ctx
    ∷ allocates Resource.engine
    ∷ []

abbrev ready : Option ℕ → H3qEngine
ready index = record new_engine {
  ssl_ctx = true;
  peer_addr_bio_method = true;
  current_peer_addr = true;
  peer_addr_ex_index = index;
}

module _ (a : EngineCalls) where
  start_listener-IsSettled : IsSettled (start_listener a (ready a.ex_index) before_listener)
  unfolding start_listener engine_destroy
  start_listener-IsSettled = if_both IsSettled (not a.new_listener) refl (
      if_both IsSettled (not a.new_dgram) refl (
        if_both IsSettled (not a.new_filter) refl
          (if_both IsSettled (not a.listen || not a.nonblocking) refl (refl, refl, refl))))

  index_peer_addr-IsSettled :
      (addr_ok : Bool)
      → IsSettled (
          index_peer_addr a addr_ok
            (record new_engine { ssl_ctx = true; peer_addr_bio_method = true })
            (allocates Resource.bio_method
              ∷ allocates Resource.ssl_ctx
              ∷ allocates Resource.engine
              ∷ []))
  unfolding index_peer_addr engine_destroy
  index_peer_addr-IsSettled false = refl
  index_peer_addr-IsSettled true =
      if_both IsSettled (not (has_index a.ex_index)) refl start_listener-IsSettled

  start_peer_addr-IsSettled : IsSettled (
      start_peer_addr a
        (record new_engine { ssl_ctx = true })
        (allocates Resource.ssl_ctx ∷ allocates Resource.engine ∷ []))
  unfolding start_peer_addr engine_destroy
  start_peer_addr-IsSettled =
      if_both IsSettled (not a.meth_new) refl
        (if_both IsSettled (not a.handlers) refl (index_peer_addr-IsSettled a.addr_new))

-- Whichever call fails, the creation of an engine frees what it allocated, once each and nothing
-- while something left uses it; an engine that is created has a listener with its BIOs, and its
-- destruction frees all that it allocated in the same way.
pub engine_create-IsSettled : (a : EngineCalls) → IsSettled (engine_create a)
unfolding engine_create tls_ctx_create engine_destroy
engine_create-IsSettled a =
    if_both IsSettled (not a.calloc) refl (elim (Bool-cases (not a.ctx_new)) [
      | inl failed ↦ rw (failed, tls_ctx_create) refl
      | inr made ↦ elim (Bool-cases (not a.certificate || not a.private_key)) [
        | inl refused ↦ rw (made, refused, tls_ctx_create) refl
        | inr loaded ↦ rw (made, loaded, tls_ctx_create) (start_peer_addr-IsSettled a)
      ]
    ])
