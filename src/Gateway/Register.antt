-- ===== src/Gateway/Register.antt =====
-- services/gateway/app/routes_auth.py: `register`.
use text.Mathlib.Text.{◌==◌ as str_eq}
use text.Mathlib.TextEquality.{eq_iff}
use ordermesh.Prelude.{
  String, ◌≡◌, ◌≢◌, refl, sym, none, some, List, [], ◌∷◌, ◌++◌, All, Bool-cases, Option-cases, inl,
  inr,
}
use ordermesh.Prelude.Keys.{HasKeys, AreDistinct, HasKeys-append, AreDistinct-append}
use ordermesh.Shared.Outcome.{Result, ok, raise}
use ordermesh.Shared.Security.{Bcrypt, hash_password}
use ordermesh.Gateway.Model.{User, Db, RegisterRequest, UserResponse, accepts}
use ordermesh.Gateway.Accounts.{find_user, user_response, new_user, insert_user, register, add_user}

-- Keys from the sequence, and no email twice.
pub record IsValid {Hash : Type 0} (db : Db Hash) : Type 0 where
  pub keys : HasKeys (λ (u : User Hash). u.id) db.user_seq db.users
  pub emails : AreDistinct (λ (u : User Hash). u.email) db.users

find_user-none :
    {Hash : Type 0} (email : String) (us : List (User Hash))
    → find_user email us ≡ none
    → All (λ u. email ≢ u.email) us
find_user-none email [] h = tt
find_user-none email (u ∷ us) h = elim (Bool-cases (str_eq u.email email)) [
  | inl e ↦ cc (rw e at h)
  | inr e ↦
      (λ same. cc (e, (eq_iff u.email email).1 (sym same)), find_user-none email us (rw e at h))
]

pub find_user-append :
    {Hash : Type 0} (email : String) (us : List (User Hash)) (u : User Hash)
    → find_user email us ≡ none
    → u.email ≡ email
    → find_user email (us ++ u ∷ []) ≡ some u
find_user-append email [] u h e = rw ((eq_iff u.email email).1 e)
find_user-append email (v ∷ us) u h e = elim (Bool-cases (str_eq v.email email)) [
  | inl same ↦ cc (rw same at h)
  | inr other ↦ rw other (find_user-append email us u (rw other at h) e)
]

module _ {Salt Hash : Type 0} (bcrypt : Bcrypt Salt Hash) (payload : RegisterRequest) (salt : Salt)
    (db : Db Hash) where
  -- How a registration ends.
  pub data Registration (outcome : Result UserResponse × Db Hash) : Type 0 where
    refused : (e : _) → outcome ≡ (raise e, db) → Registration outcome
    added :
        (hash : Hash)
        → find_user payload.email db.users ≡ none
        → hash_password bcrypt payload.password salt ≡ ok hash
        → outcome ≡ (
          ok (user_response (new_user db.user_seq payload hash)),
          insert_user (new_user db.user_seq payload hash) db,
        )
        → Registration outcome

  added_or_not :
      (r : Result Hash)
      → hash_password bcrypt payload.password salt ≡ r
      → find_user payload.email db.users ≡ none
      → Registration (add_user bcrypt payload r db)
  added_or_not (ok hash) e free = added hash free e refl
  added_or_not (raise x) e free = refused x refl

  pub register-Registration : Registration (register bcrypt payload salt db)
  unfolding register
  register-Registration = elim (Bool-cases (accepts payload)) [
    | inr bad ↦ rw bad (refused _ refl)
    | inl good ↦ elim (Option-cases (find_user payload.email db.users)) [
      | inr (u, taken) ↦ rw (good, taken) (refused _ refl)
      | inl free ↦ rw (good, free) (added_or_not _ refl free)
    ]
  ]

  inserted-IsValid :
      (hash : Hash)
      → find_user payload.email db.users ≡ none
      → IsValid db
      → IsValid (insert_user (new_user db.user_seq payload hash) db)
  inserted-IsValid hash free v =
      let u = new_user db.user_seq payload hash in
      record {
        keys = HasKeys-append (λ (x : User Hash). x.id) db.user_seq db.users u refl v.keys;
        emails =
            AreDistinct-append (λ (x : User Hash). x.email) db.users u v.emails
              (find_user-none payload.email db.users free);
      }

  -- Registering keeps the accounts valid: no email is registered twice, whatever the request.
  pub register-IsValid : IsValid db → IsValid (register bcrypt payload salt db).1
  register-IsValid v = go (register bcrypt payload salt db) register-Registration
    where
      go : (outcome : Result UserResponse × Db Hash) → Registration outcome → IsValid outcome.1
      go outcome (refused e eq) = rw eq v
      go outcome (added hash free hashed eq) = rw eq (inserted-IsValid hash free v)
