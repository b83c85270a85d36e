-- ===== src/Finalize/Framed.antt =====
-- The fields that frame a body, and the date of a response.
use mod_http.Common.{
  ℕ, ◌≡◌, refl, ap, ◌∙◌, sym, subst, Bool, true, false, not, ◌&&◌, ◌||◌, Option, none, some, List,
  [], ◌∷◌, Bytes, ◌==◌, is_some, if_both, if_known, if◌then◌else◌,
}
use mod_http.Finalize.{
  Field, vary, etag, transfer_encoding, content_length, content_type, content_encoding,
  content_language, expires, date, server, Tables, Server, Finalizing, set_if, set_languages,
  set_expires, is_zero, drop_zero_length, set_date, set_server, clear_body, describe,
  response_finalize, merge_errors, set_vary,
}

abbrev pub code : Field → ℕ
code vary = 0
code etag = 1
code transfer_encoding = 2
code content_length = 3
code content_type = 4
code content_encoding = 5
code content_language = 6
code expires = 7
code date = 8
code server = 9

-- A field that is set or unset is so, and the others stay.
pub record TablesAreLawful (t : Tables) : Type 0 where
  pub setn_same : (h : t.Table) (f : Field) (v : Bytes) → t.get (t.setn h f v) f ≡ some v
  pub setn_other :
      (h : t.Table) (f g : Field) (v : Bytes)
      → (code f == code g) ≡ false
      → t.get (t.setn h f v) g ≡ t.get h g
  pub add_other :
      (h : t.Table) (f g : Field) (v : Bytes)
      → (code f == code g) ≡ false
      → t.get (t.add h f v) g ≡ t.get h g
  pub unset_same : (h : t.Table) (f : Field) → t.get (t.unset h f) f ≡ none
  pub unset_other :
      (h : t.Table) (f g : Field) → (code f == code g) ≡ false → t.get (t.unset h f) g ≡ t.get h g

module _ (t : Tables) (s : Server) (lawful : TablesAreLawful t) where
  abbrev IsGone : Field → t.Table → Type 0
  IsGone f h = t.get h f ≡ none

  set_if-IsGone :
      (f g : Field) (v : Option Bytes) (h : t.Table)
      → (code f == code g) ≡ false
      → IsGone g h
      → IsGone g (set_if t f v h)
  set_if-IsGone f g none h other gone = gone
  set_if-IsGone f g (some v) h other gone = lawful.setn_other h f g v other ∙ gone

  set_languages-IsGone :
      (g : Field) (languages : List Bytes) (h : t.Table)
      → (code content_language == code g) ≡ false
      → IsGone g h
      → IsGone g (set_languages t s languages h)
  unfolding set_languages
  set_languages-IsGone g [] h other gone = gone
  set_languages-IsGone g (l ∷ languages) h other gone =
      lawful.setn_other h content_language g _ other ∙ gone

  set_expires-IsGone :
      (g : Field) (no_cache : Bool) (h : t.Table)
      → (code expires == code g) ≡ false
      → IsGone g h
      → IsGone g (set_expires t s no_cache h)
  unfolding set_expires
  set_expires-IsGone g no_cache h other gone =
      if_both (IsGone g) (no_cache && not (is_some (t.get h expires)))
        (lawful.add_other h expires g s.rfc822_date other ∙ gone) gone

  set_date-IsGone :
      (g : Field) (is_direct : Bool) (h : t.Table)
      → (code date == code g) ≡ false
      → IsGone g h
      → IsGone g (set_date t s is_direct h)
  unfolding set_date
  set_date-IsGone g is_direct h other gone =
      if_both (IsGone g) (is_direct || not (is_some (t.get h date)))
        (lawful.setn_other h date g s.rfc822_date other ∙ gone) gone

  set_server-IsGone :
      (g : Field) (is_direct : Bool) (h : t.Table)
      → (code server == code g) ≡ false
      → IsGone g h
      → IsGone g (set_server t s is_direct h)
  unfolding set_server
  set_server-IsGone g is_direct h other gone =
      if_both (IsGone g) (is_direct || not (is_some (t.get h server)))
        (set_if-IsGone server g s.banner h other gone) gone

  drop_zero_length-IsGone :
      (g : Field) (header_only : Bool) (h : t.Table)
      → IsGone g (t.unset h content_length)
      → IsGone g h
      → IsGone g (drop_zero_length t header_only h)
  unfolding drop_zero_length
  drop_zero_length-IsGone g header_only h unset gone =
      if_both (IsGone g) (header_only && is_zero (t.get h content_length)) unset gone

  -- The fields that the description of a response does not set.
  abbrev IsFraming : Field → Type 0
  IsFraming g =
      ((code content_type == code g) ≡ false)
      × ((code content_encoding == code g) ≡ false)
      × ((code content_language == code g) ≡ false)
      × ((code expires == code g) ≡ false)
      × ((code date == code g) ≡ false)
      × ((code server == code g) ≡ false)
      × ((h : t.Table) → IsGone g h → IsGone g (t.unset h content_length))

  describe-IsGone :
      (g : Field) (r : Finalizing t)
      → IsFraming g
      → IsGone g r.headers_out
      → IsGone g (describe t s r)
  unfolding describe
  describe-IsGone g r (nt, ne, nl, nx, nd, ns, unset) gone =
      let typed = set_if t content_type (s.make_content_type r.content_type) r.headers_out in
      let encoded = set_if t content_encoding r.content_encoding typed in
      let said = set_languages t s r.content_languages encoded in
      let expiring = set_expires t s r.no_cache said in
      let short = drop_zero_length t r.header_only expiring in
      let k1 =
        set_if-IsGone content_type g (s.make_content_type r.content_type) r.headers_out nt gone in
      let k2 = set_if-IsGone content_encoding g r.content_encoding typed ne k1 in
      let k3 = set_languages-IsGone g r.content_languages encoded nl k2 in
      let k4 = set_expires-IsGone g r.no_cache said nx k3 in
      let k5 = drop_zero_length-IsGone g r.header_only expiring (unset expiring k4) k4 in
      set_server-IsGone g r.is_direct (set_date t s r.is_direct short) ns
        (set_date-IsGone g r.is_direct short nd k5)

  content_length-IsFraming : IsFraming content_length
  content_length-IsFraming =
      (refl, refl, refl, refl, refl, refl, (λ h gone. lawful.unset_same h content_length))

  transfer_encoding-IsFraming : IsFraming transfer_encoding
  transfer_encoding-IsFraming = (
    refl,
    refl,
    refl,
    refl,
    refl,
    refl,
    (λ h gone. lawful.unset_other h content_length transfer_encoding refl ∙ gone),
  )

  clear_body-framing :
      (r : Finalizing t)
      → s.is_header_only r.status ≡ true
      → IsGone content_length (clear_body t s r).headers_out
        × IsGone transfer_encoding (clear_body t s r).headers_out
  unfolding clear_body
  clear_body-framing r bare =
      rw (bare, clear_body)
        (
          lawful.unset_same (t.unset r.headers_out transfer_encoding) content_length,
          lawful.unset_other (t.unset r.headers_out transfer_encoding) content_length
                transfer_encoding refl
              ∙ lawful.unset_same r.headers_out transfer_encoding,
        )

  -- A response with merged, shortened and cleared headers.
  abbrev untagged : Finalizing t → t.Table
  untagged r =
      let varied = set_vary t s r.force_no_vary (merge_errors t r).headers_out in
      if r.no_etag then t.unset varied etag else varied

  abbrev prepared : Finalizing t → Finalizing t
  prepared r = clear_body t s (record (merge_errors t r) { headers_out = untagged r })

  abbrev finished : Finalizing t → Finalizing t
  finished r = record (prepared r) {
    headers_out = describe t s (prepared r);
    resp_status = r.status;
    resp_headers = some (describe t s (prepared r));
  }

  finalize-again : (r : Finalizing t) → is_some r.resp_headers ≡ true → response_finalize t s r ≡ r
  unfolding response_finalize
  finalize-again r on =
      if_known (λ x. x ≡ r) (is_some r.resp_headers) (λ again. refl) (λ off. absurd cc)

  finalize-fresh : (r : Finalizing t) → r.resp_headers ≡ none → response_finalize t s r ≡ finished r
  unfolding response_finalize
  finalize-fresh r fresh =
      let off = ap is_some fresh in
      if_known (λ x. x ≡ finished r) (is_some r.resp_headers) (λ on. absurd cc) (λ first. refl)

  merge_errors-status : (r : Finalizing t) → (merge_errors t r).status ≡ r.status
  unfolding merge_errors
  merge_errors-status r =
      if_both (λ (x : Finalizing t). x.status ≡ r.status) (t.is_empty r.err_headers_out) refl refl

  abbrev IsFinal : Finalizing t → Finalizing t → Type 0
  IsFinal r done =
      (response_finalize t s done ≡ done)
      × (done.resp_headers ≡ some done.headers_out)
      × (done.resp_status ≡ r.status)
      × (s.is_header_only r.status ≡ true
          → IsGone content_length done.headers_out × IsGone transfer_encoding done.headers_out)

  -- On a table where a field that is set or unset is so and the others stay: the response headers are
  -- finished once, a second call changes nothing; what is finished is what is sent; and under a status
  -- that has no body they have no `Content-Length` and no `Transfer-Encoding`, whatever the handler
  -- or the table for errors said.
  pub response_finalize_lem :
      (r : Finalizing t)
      → r.resp_headers ≡ none
      → let done = response_finalize t s r in
        (response_finalize t s done ≡ done)
        × (done.resp_headers ≡ some done.headers_out)
        × (done.resp_status ≡ r.status)
        × (s.is_header_only r.status ≡ true
            → IsGone content_length done.headers_out × IsGone transfer_encoding done.headers_out)
  response_finalize_lem r fresh = subst (IsFinal r) (sym (finalize-fresh r fresh)) (
    finalize-again (finished r) refl,
    refl,
    refl,
    (λ bare.
        let cut = record (merge_errors t r) { headers_out = untagged r } in
        let (no_length, no_coding) =
          clear_body-framing cut (ap s.is_header_only (merge_errors-status r) ∙ bare) in
        (
          describe-IsGone content_length (prepared r) content_length-IsFraming no_length,
          describe-IsGone transfer_encoding (prepared r) transfer_encoding-IsFraming no_coding,
        )),
  )
