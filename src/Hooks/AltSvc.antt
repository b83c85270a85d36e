-- ===== src/Hooks/AltSvc.antt =====
-- The header `Alt-Svc` is added once, and only where the server advertises HTTP/3.
use mod_http.Common.{
  ◌≤◌, ◌≡◌, ◌⊎◌, refl, ap, ◌∙◌, true, Option, none, some, [], ◌∷◌, ◌++◌, Bytes, Option-cases, inl,
  inr, if◌then◌else◌, if_both, arith,
}
use mod_http.Config.{ServerConf, unset, on, off}
use mod_http.Hooks.{
  Apr, HookRequest, HookStatus, declined, publish_env, advertises, alt_svc_name, alt_svc_value,
  advertise, fixups,
}

-- A field that was set is found.
abbrev pub IsLawful : Apr → Type 0
IsLawful apr = (t : apr.Table) (k v : Bytes) → apr.get (apr.setn t k v) k ≡ some v

-- What keeps a server from advertising HTTP/3: a path or the port is missing, or it is told not to.
pub data IsSilent (c : ServerConf) : Type 0 where
  no_certificate : c.cert_path ≡ none → IsSilent c
  no_key : c.key_path ≡ none → IsSilent c
  no_port : c.port ≡ 0 → IsSilent c
  told : c.alt_svc ≡ off → IsSilent c

-- A server that serves HTTP/3 at a port and is not told to be silent about it.
pub record IsOpen (c : ServerConf) (cert_file key_file : Bytes) : Type 0 where
  pub certificate : c.cert_path ≡ some cert_file
  pub key : c.key_path ≡ some key_file
  pub port : 1 ≤ c.port
  pub flag : (c.alt_svc ≡ unset) ⊎ (c.alt_svc ≡ on)

-- The value that a response has in the end: its own, or `h3=":PORT"; ma=AGE; persist=1`.
abbrev pub value_of : (apr : Apr) → ServerConf → Option Bytes → Bytes
value_of apr conf none =
    (b'h' ∷ b'3' ∷ b'=' ∷ b'"' ∷ b':' ∷ [])
    ++ apr.decimal conf.port
    ++ (b'"' ∷ b';' ∷ b' ' ∷ b'm' ∷ b'a' ∷ b'=' ∷ [])
    ++ apr.decimal conf.alt_svc_max_age
    ++ (b';' ∷ b' ' ∷ b'p' ∷ b'e' ∷ b'r' ∷ b's' ∷ b'i' ∷ b's' ∷ b't' ∷ b'=' ∷ b'1' ∷ [])
value_of apr conf (some value) = value

advertises-IsSilent : (c : ServerConf) → IsSilent c → advertises (some c) ≡ none
advertises-IsSilent c (no_certificate e) = ground (arith, e)
advertises-IsSilent c (no_key e) = ground (arith, e)
advertises-IsSilent c (no_port e) = ground (arith, e)
advertises-IsSilent c (told e) = ground (arith, e)

advertises-IsOpen :
    (c : ServerConf) {cert key : Bytes} → IsOpen c cert key → advertises (some c) ≡ some c
advertises-IsOpen c o = elim o.flag [
  | inl f ↦ ground (arith, f, o.certificate, o.key, o.port)
  | inr f ↦ ground (arith, f, o.certificate, o.key, o.port)
]

module _ {apr : Apr} (conf : Option ServerConf) where
  advertise-off : (r : HookRequest apr) → advertises conf ≡ none → advertise conf r ≡ (declined, r)
  unfolding advertise
  advertise-off r e = rw (e, advertise) refl

  advertise-kept :
      (c : ServerConf) (value : Bytes) (r : HookRequest apr)
      → advertises conf ≡ some c
      → apr.get r.headers_out alt_svc_name ≡ some value
      → advertise conf r ≡ (declined, r)
  unfolding advertise
  advertise-kept c value r e g = rw (e, g, advertise) refl

  advertised :
      (c : ServerConf) (r : HookRequest apr)
      → IsLawful apr
      → advertises conf ≡ some c
      → apr.get (advertise conf r).1.headers_out alt_svc_name
        ≡ some (value_of apr c (apr.get r.headers_out alt_svc_name))
  unfolding advertise alt_svc_value
  advertised c r lawful e = elim (Option-cases (apr.get r.headers_out alt_svc_name)) [
    | inl none_yet ↦
        rw (e, none_yet, advertise) (lawful r.headers_out alt_svc_name (alt_svc_value apr c))
    | inr (value, own) ↦ rw (e, own, advertise) own
  ]

  publish_env-headers_out :
      (r : HookRequest apr)
      → ((publish_env r).headers_out ≡ r.headers_out) × ((publish_env r).is_initial ≡ r.is_initial)
  unfolding publish_env
  publish_env-headers_out r = elim (Option-cases r.tls_env) [
    | inl e ↦ rw (e, publish_env) (refl, refl)
    | inr (tls, e) ↦ elim (Option-cases tls.protocol) [
      | inl f ↦ rw (e, f, publish_env) (refl, refl)
      | inr (protocol, f) ↦ rw (e, f, publish_env) (refl, refl)
    ]
  ]

  advertise-is_initial : (r : HookRequest apr) → (advertise conf r).1.is_initial ≡ r.is_initial
  unfolding advertise
  advertise-is_initial r = elim (Option-cases (advertises conf)) [
    | inl e ↦ rw (e, advertise) refl
    | inr (c, e) ↦ elim (Option-cases (apr.get r.headers_out alt_svc_name)) [
      | inl f ↦ rw (e, f, advertise) refl
      | inr (value, f) ↦ rw (e, f, advertise) refl
    ]
  ]

  -- The request that the header is added to.
  abbrev prepared : HookRequest apr → HookRequest apr
  prepared r = if r.is_h3 then publish_env r else r

  prepared-headers_out :
      (r : HookRequest apr)
      → ((prepared r).headers_out ≡ r.headers_out) × ((prepared r).is_initial ≡ r.is_initial)
  prepared-headers_out r =
      if_both
        (λ (q : HookRequest apr). (q.headers_out ≡ r.headers_out) × (q.is_initial ≡ r.is_initial))
        r.is_h3 (publish_env-headers_out r) (refl, refl)

  fixups-initial :
      (r : HookRequest apr) → r.is_initial ≡ true → fixups conf r ≡ advertise conf (prepared r)
  unfolding fixups
  fixups-initial r first = rw (first, fixups) refl

  fixups-silent :
      (r : HookRequest apr)
      → r.is_initial ≡ true
      → advertises conf ≡ none
      → (fixups conf r).1.headers_out ≡ r.headers_out
  fixups-silent r first e =
      ap (λ (o : HookStatus × HookRequest apr). o.1.headers_out)
        (fixups-initial r first ∙ advertise-off (prepared r) e)
      ∙ (prepared-headers_out r).0

  fixups-advertised :
      (c : ServerConf) (r : HookRequest apr)
      → IsLawful apr
      → r.is_initial ≡ true
      → advertises conf ≡ some c
      → (apr.get (fixups conf r).1.headers_out alt_svc_name
          ≡ some (value_of apr c (apr.get r.headers_out alt_svc_name)))
        × ((fixups conf (fixups conf r).1).0 ≡ declined)
        × ((fixups conf (fixups conf r).1).1.headers_out ≡ (fixups conf r).1.headers_out)
  fixups-advertised c r lawful first e =
      let same = fixups-initial r first in
      let there =
        ap (λ (o : HookStatus × HookRequest apr). apr.get o.1.headers_out alt_svc_name) same
        ∙ advertised c (prepared r) lawful e
        ∙ ap (λ t. some (value_of apr c (apr.get t alt_svc_name))) (prepared-headers_out r).0 in
      let r' = (fixups conf r).1 in
      let still =
        ap (λ (o : HookStatus × HookRequest apr). o.1.is_initial) same
        ∙ advertise-is_initial (prepared r)
        ∙ (prepared-headers_out r).1
        ∙ first in
      let again =
        fixups-initial r' still
        ∙ advertise-kept c (value_of apr c (apr.get r.headers_out alt_svc_name)) (prepared r') e
            (ap (λ t. apr.get t alt_svc_name) (prepared-headers_out r').0 ∙ there) in
      (
        there,
        ap (λ (o : HookStatus × HookRequest apr). o.0) again,
        ap (λ (o : HookStatus × HookRequest apr). o.1.headers_out) again
            ∙ (prepared-headers_out r').0,
      )

-- On an initial request, where a table gives what was set: a server without a configuration, or whose
-- configuration lacks the certificate, the key or the port or sets the flag to off, leaves the
-- response's headers alone; under one that has the three and whose flag is on or not set, the response
-- has the header in the end, with the value that it had before if it had one and the text with the
-- port and the age of the configuration if it had none, and a second call declines and changes no
-- header.
pub fixups_lem :
    {apr : Apr} (r : HookRequest apr)
    → IsLawful apr
    → r.is_initial ≡ true
    → ((fixups none r).1.headers_out ≡ r.headers_out)
      × ((c : ServerConf) → IsSilent c → (fixups (some c) r).1.headers_out ≡ r.headers_out)
      × ((c : ServerConf) (cert key : Bytes)
          → IsOpen c cert key
          → (apr.get (fixups (some c) r).1.headers_out alt_svc_name
              ≡ some (value_of apr c (apr.get r.headers_out alt_svc_name)))
            × ((fixups (some c) (fixups (some c) r).1).0 ≡ declined)
            × ((fixups (some c) (fixups (some c) r).1).1.headers_out
                ≡ (fixups (some c) r).1.headers_out))
fixups_lem r lawful first = (
  fixups-silent none r first refl,
  (λ c silent. fixups-silent (some c) r first (advertises-IsSilent c silent)),
  (λ c cert key open_so. fixups-advertised (some c) c r lawful first (advertises-IsOpen c open_so)),
)
