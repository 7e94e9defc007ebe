-- ===== src/Gateway/Identity.antt =====
-- The identity headers of a forwarded request.
use mathlib.Core.List.{foldl}
use ordermesh.Prelude.{
  String, false, ◌≡◌, ◌≢◌, ◌∙◌, sym, ap, refl, none, some, [], ◌∷◌, ◌++◌, Text, codes, text_eq,
  text_eq_sound, Bool-cases, inl, inr, arith,
}
use ordermesh.Shared.Auth.{TokenData}
use ordermesh.Gateway.Proxy.{
  Headers, lower, skip_headers, is_in, put, keep_header, kept_headers, forward_headers,
}
use ordermesh.Gateway.Headers.{first_value, last_value, or_else, AreLower, put-AreLower, kept-value}

kept-AreLower :
    (items d : Headers) → AreLower items → AreLower d → AreLower (foldl keep_header d items)
kept-AreLower [] d hi hd = hd
kept-AreLower ((k, v) ∷ items) d hi hd = elim (Bool-cases (is_in (lower k) skip_headers)) [
  | inl skipped ↦ rw skipped (kept-AreLower items d hi.1 hd)
  | inr passed ↦ rw passed (kept-AreLower items (put k v d) hi.1 (put-AreLower k v d hi.0 hd))
]

-- A name in mixed case is new to a dict of names in lower case.
put-after :
    (k v : Text) (d e : Headers) → lower k ≢ k → AreLower d → put k v (d ++ e) ≡ d ++ put k v e
put-after k v [] e ne h = refl
put-after k v ((j, w) ∷ d) e ne h = elim (Bool-cases (text_eq j k)) [
  | inl same ↦ absurd (ne (sym (ap lower (text_eq_sound j k same)) ∙ h.0 ∙ text_eq_sound j k same))
  | inr other ↦ rw other (ap (λ t. (j, w) ∷ t) (put-after k v d e ne h.1))
]

first_value-append :
    (name : Text) (d e : Headers)
    → first_value name (d ++ e) ≡ or_else (first_value name d) (first_value name e)
first_value-append name [] e = refl
first_value-append name ((k, v) ∷ d) e = elim (Bool-cases (text_eq (lower k) name)) [
  | inl same ↦ rw same
  | inr other ↦ rw other (first_value-append name d e)
]

-- The three headers of the gateway.
abbrev own : TokenData → String → Headers
own user rid =
    (codes "X-User-Id", user.user_id)
    ∷ (codes "X-User-Role", codes user.role)
    ∷ (codes "X-Request-ID", codes rid)
    ∷ []

append_nil : (d : Headers) → d ≡ d ++ []
append_nil [] = refl
append_nil (h ∷ d) = ap (λ t. h ∷ t) (append_nil d)

forward_headers-append :
    (items : Headers) (user : TokenData) (rid : String)
    → AreLower items
    → forward_headers items user rid ≡ kept_headers items ++ own user rid
unfolding forward_headers kept_headers
forward_headers-append items user rid low =
    let d = foldl keep_header [] items in
    let h = kept-AreLower items [] low tt in
    ap
      (λ t.
        put (codes "X-Request-ID") (codes rid)
          (put (codes "X-User-Role") (codes user.role) (put (codes "X-User-Id") user.user_id t)))
      (append_nil d)
    ∙ rw (put-after (codes "X-User-Id") user.user_id d [] (λ e. ground arith) h) (
        rw (put-after (codes "X-User-Role") (codes user.role) d _ (λ e. ground arith) h)
          (put-after (codes "X-Request-ID") (codes rid) d _ (λ e. ground arith) h))

module _ (items : Headers) (user : TokenData) (rid : String) (low : AreLower items) where
  forwarded_value :
      (name : Text)
      → is_in name skip_headers ≡ false
      → first_value name (forward_headers items user rid)
        ≡ or_else (last_value name items) (first_value name (own user rid))
  unfolding kept_headers
  forwarded_value name passes =
      ap (first_value name) (forward_headers-append items user rid low)
      ∙ first_value-append name (kept_headers items) (own user rid)
      ∙ ap (λ o. or_else o (first_value name (own user rid)))
          (kept-value name passes items [] none low tt refl)

  -- Of a request whose header names are in lower case, an internal service reads the user id, the
  -- role and the request id that the client sent itself, and only where the client sent no such
  -- header the verified identity and the gateway's own request id.
  pub forward_headers_identity :
      let headers = forward_headers items user rid in
      (first_value (codes "x-user-id") headers
        ≡ or_else (last_value (codes "x-user-id") items) (some user.user_id))
      × (first_value (codes "x-user-role") headers
          ≡ or_else (last_value (codes "x-user-role") items) (some (codes user.role)))
      × (first_value (codes "x-request-id") headers
          ≡ or_else (last_value (codes "x-request-id") items) (some (codes rid)))
  forward_headers_identity = (
    forwarded_value (codes "x-user-id") refl,
    forwarded_value (codes "x-user-role") refl,
    forwarded_value (codes "x-request-id") refl,
  )
