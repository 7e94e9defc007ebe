-- ===== src/Gateway/Headers.antt =====
-- Which identity an internal service reads from the headers that the gateway forwards.
use mathlib.Core.List.{foldl}
use ordermesh.Prelude.{
  Bool, true, false, ◌≡◌, refl, Option, none, some, [], ◌∷◌, All, Text, text_eq, text_eq_sound,
  Bool-cases, inl, inr, if◌then◌else◌,
}
use ordermesh.Gateway.Proxy.{Headers, lower, skip_headers, is_in, put, keep_header}

-- What `Header(alias=…)` reads: the first value whose name is this one, in whatever case.
abbrev pub first_value : Text → Headers → Option Text
first_value name [] = none
first_value name ((k, v) ∷ d) = if text_eq (lower k) name then some v else first_value name d

-- What the client sent under a name: the value that came last.
abbrev later_value : Text → Option Text → Text × Text → Option Text
later_value name found (k, v) = if text_eq k name then some v else found

abbrev pub last_value : Text → Headers → Option Text
last_value name items = foldl (later_value name) none items

abbrev pub or_else : Option Text → Option Text → Option Text
or_else none o = o
or_else (some v) o = some v

-- Servers hand over header names in lower case.
abbrev pub AreLower : Headers → Type 0
AreLower = All (λ h. lower h.0 ≡ h.0)

pub put-AreLower : (k v : Text) (d : Headers) → lower k ≡ k → AreLower d → AreLower (put k v d)
put-AreLower k v [] e h = (e, tt)
put-AreLower k v ((j, w) ∷ d) e h = elim (Bool-cases (text_eq j k)) [
  | inl same ↦ rw same (h.0, h.1)
  | inr other ↦ rw other (h.0, put-AreLower k v d e h.1)
]

first_value-put :
    (name k v : Text) (d : Headers)
    → lower k ≡ k
    → AreLower d
    → first_value name (put k v d) ≡ (if text_eq k name then some v else first_value name d)
first_value-put name k v [] e h = rw e
first_value-put name k v ((j, w) ∷ d) e h = elim (Bool-cases (text_eq j k)) [
  | inl same ↦ rw (same, h.0, text_eq_sound j k same) (again (text_eq k name))
  | inr other ↦
      rw (other, h.0, first_value-put name k v d e h.1)
        (elim (Bool-cases (text_eq j name)) [
          | inr not_named ↦ rw not_named
          | inl named ↦ rw (named, differs named other)
        ])
]
  where
    again :
        (b : Bool)
        → (if b then some v else first_value name d)
          ≡ (if b then some v else (if b then some w else first_value name d))
    again true = refl
    again false = refl

    differs : text_eq j name ≡ true → text_eq j k ≡ false → text_eq k name ≡ false
    differs named other = elim (Bool-cases (text_eq k name)) [
      | inr e' ↦ e'
      | inl e' ↦ cc (named, text_eq_sound k name e', other)
    ]

-- A name that the gateway lets through.
module _ (name : Text) (passes : is_in name skip_headers ≡ false) where
  skipped_other :
      (k : Text) → lower k ≡ k → is_in (lower k) skip_headers ≡ true → text_eq k name ≡ false
  skipped_other k e skipped = elim (Bool-cases (text_eq k name)) [
    | inr other ↦ other
    | inl same ↦ cc (text_eq_sound k name same, e, skipped, passes)
  ]

  pub kept-value :
      (items d : Headers) (found : Option Text)
      → AreLower items
      → AreLower d
      → first_value name d ≡ found
      → first_value name (foldl keep_header d items) ≡ foldl (later_value name) found items
  kept-value [] d found hi hd e = e
  kept-value ((k, v) ∷ items) d found hi hd e = elim (Bool-cases (is_in (lower k) skip_headers)) [
    | inl skipped ↦ rw (skipped, skipped_other k hi.0 skipped) (kept-value items d found hi.1 hd e)
    | inr passed ↦ rw passed (
        kept-value items (put k v d) _ hi.1 (put-AreLower k v d hi.0 hd)
          (rw (first_value-put name k v d hi.0 hd, e)))
  ]
