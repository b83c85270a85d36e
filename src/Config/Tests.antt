-- ===== src/Config/Tests.antt =====
-- Concrete configurations, and the theorems about them applied.
use mod_http.Common.{
  ℕ, ◌+◌, ◌*◌, ◌-◌, ◌≤◌, ◌≡◌, refl, Bool, true, false, none, some, List, [], ◌∷◌, Bytes, arith,
  if◌then◌else◌, ltb,
}
use mod_http.Config.{ServerConf, off, max_connections_max, create_server_config}
use mod_http.Config.Directives.{
  Refusal, AprCstr, AprStatus, success, einval, pos, out_of_range, Directive, run_directive,
  set_ranged, set_h3_max_connections, set_h3_port, store_port,
}
use mod_http.Config.PostConfig.{
  ServerRec, post_config, find_h3_server, fill_first, fill_defaults, has_paths, check_files, opens,
  internal_server_error,
}
use mod_http.Config.Bounds.{InBounds, create_server_config-InBounds}
use mod_http.Config.Numeric.{unsigned}
use mod_http.Config.Taken.{run_directive_lem}
use mod_http.Config.Ready.{IsReady, post_config-IsReady}

-- A parser of decimal digits that knows no sign and no overflow.
value : ℕ → Bytes → AprStatus × ℕ
value acc [] = (success, acc)
value acc (d ∷ ds) =
    let rest = value (acc * 10 + (d - b'0')) ds in
    if ltb d b'0' then (einval, 0) else if ltb b'9' d then (einval, 0) else rest

abbrev decimal : AprCstr
decimal = record { atoi64 = λ arg. ((value 0 arg).0, pos (value 0 arg).1); atoui64 = value 0 }

abbrev sixty : Bytes
sixty = b'6' ∷ b'0' ∷ []

abbrev blank : ServerConf
blank = create_server_config

max_connections_sixty :
    run_directive decimal (Directive.h3_max_connections sixty) blank
    ≡ (none, record blank { max_connections = 60 })
unfolding run_directive set_h3_max_connections set_ranged value
max_connections_sixty = refl

port_zero : run_directive decimal (Directive.h3_port (b'0' ∷ [])) blank ≡ (some out_of_range, blank)
unfolding run_directive set_h3_port store_port value
port_zero = refl

run_directive_lem_example :
    let out = run_directive decimal (Directive.h3_max_connections sixty) blank in
    (((v : ℕ)
        → unsigned decimal sixty ≡ some v
        → 1 ≤ v
        → v ≤ max_connections_max
        → (out.0 ≡ none) × (out.1.max_connections ≡ v))
      × (out.0 ≡ none
          → (v : ℕ) × ((unsigned decimal sixty ≡ some v) × (1 ≤ v) × (v ≤ max_connections_max))))
    × ((r : Refusal) → out.0 ≡ some r → out.1 ≡ blank)
    × InBounds out.1
run_directive_lem_example =
    run_directive_lem decimal (Directive.h3_max_connections sixty) blank
      create_server_config-InBounds

-- A main server and a virtual host.
abbrev main_conf : ServerConf
main_conf = record blank { max_connections = 60; qpack_capacity_set = true; alt_svc = off }

abbrev vhost_conf : ServerConf
vhost_conf = record blank { cert_path = some sixty; key_path = some sixty; min_workers = 100 }

abbrev vhost : ServerRec
vhost = record { conf = vhost_conf; addrs = 0 ∷ 4433 ∷ [] }

abbrev servers : List ServerRec
servers = record { conf = main_conf; addrs = 80 ∷ [] } ∷ vhost ∷ []

abbrev readable : Bytes → Bool
readable path = true

-- No certificate, no start.
no_paths : (post_config readable false []).0 ≡ internal_server_error
unfolding post_config fill_first check_files
no_paths = refl

post_config-IsReady_example :
    (c : ServerConf) × (addrs : List ℕ) × (find_h3_server (post_config readable false servers).1
      ≡ some (c, addrs))
    × IsReady c
    × (opens readable c.cert_path ≡ true)
    × (opens readable c.key_path ≡ true)
unfolding post_config fill_first fill_defaults has_paths check_files opens
post_config-IsReady_example = post_config-IsReady readable servers (omega arith) refl
