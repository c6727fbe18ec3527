-- ===== src/Auth/Calls.antt =====
-- Calls of the accounts one after another (apps/api/src/modules/auth/auth.service.ts,
-- apps/api/src/middlewares/requireAuth.ts). A deletion from the cache succeeds.
pub mod Cache
use mathlib.Core.Option
use kartit.Prelude.{
  ℕ, ◌+◌, ◌≤◌, ◌<◌, ◌≡◌, ◌≢◌, refl, sym, ap, ◌∙◌, subst, Bool, true, false, Option, none, some,
  List, [], ◌∷◌, ◌++◌, arith, ◌==◌, if◌then◌else◌, inl, inr, ◌⊎◌, Bool-cases, Option-cases,
  some_inj, none≢some,
}
use kartit.Prelude.Table.{Table, find, find_where, modify, insert, find-modify, find-modify_self}
use kartit.Result.{Result, ok, err, app_error, session_invalid}
use kartit.Shared.Text.{Text}
use kartit.Auth.{
  User, UserRole, Claims, CachedUser, Accounts, put, forget, bump, set_password, set_name, sign_up,
  change_password, update_profile, sign_out_all, check_user, check_payload, cached, require_auth,
  has_email,
}
use kartit.Auth.Calls.Cache.{
  IsCurrent, Grows, Grows-refl, find-insert-some, Grows-insert, Grows-modify, put-same, put-other,
  modify_other, IsCurrent-forget, IsCurrent-forget_only, IsCurrent-set_name, IsCurrent-insert,
  IsCurrent-put,
}

pub data Call (Token : Type 0) : Type 0 where
  signs_up : ℕ → Text → Option Text → Text → Call Token
  changes_password : ℕ → Text → Text → Call Token
  updates_profile : ℕ → Option Text → Call Token
  signs_out_all : ℕ → Call Token
  requests : Bool → Option Token → Call Token

module _ {Token : Type 0} (sign : Claims → Token) (verify : Token → Option Claims)
    (hash_password : Text → Text) (verify_password : Text → Text → Bool) where
  unfoldable pub apply : Call Token → Accounts → Accounts
  apply (signs_up fresh email name password) s =
      (sign_up sign verify hash_password verify_password fresh email name password s).1
  apply (changes_password id current_password new_password) s =
      (change_password sign verify hash_password verify_password id current_password new_password
        s).1
  apply (updates_profile id name) s =
      (update_profile sign verify hash_password verify_password id name s).1
  apply (signs_out_all id) s = (sign_out_all sign verify hash_password verify_password id s).1
  apply (requests answers token) s =
      (require_auth sign verify hash_password verify_password answers token s).1

  unfoldable pub apply_all : List (Call Token) → Accounts → Accounts
  apply_all [] s = s
  apply_all (call ∷ calls) s = apply_all calls (apply call s)

  -- What each call keeps.
  unfoldable pub Kept : Accounts → Accounts → Type 0
  Kept s s' = IsCurrent s' × Grows s.users s'.users

  check_user-Kept :
      (payload : Claims) (s : Accounts)
      → IsCurrent s
      → Kept s (check_user sign verify hash_password verify_password payload s).1
  unfolding check_user Kept
  check_user-Kept payload s current = elim (Option-cases (find payload.sub s.users)) [
    | inl e ↦ rw (check_user, e) (IsCurrent-forget_only payload.sub s current, Grows-refl s.users)
    | inr (u, e) ↦ elim (Bool-cases (payload.tv == u.token_version)) [
      | inl same ↦
          rw (check_user, e, same)
            (IsCurrent-put payload.sub u _ s e refl current, Grows-refl s.users)
      | inr other ↦
          rw (check_user, e, other)
            (IsCurrent-forget_only payload.sub s current, Grows-refl s.users)
    ]
  ]

  require_auth-Kept :
      (answers : Bool) (token : Option Token) (s : Accounts)
      → IsCurrent s
      → Kept s (require_auth sign verify hash_password verify_password answers token s).1
  unfolding require_auth check_payload Kept
  require_auth-Kept answers none s current = (current, Grows-refl s.users)
  require_auth-Kept answers (some token) s current = elim (Option-cases (verify token)) [
    | inl e ↦ rw (require_auth, e) (current, Grows-refl s.users)
    | inr (payload, e) ↦
        elim (Option-cases
          (cached sign verify hash_password verify_password answers payload.sub s)) [
            | inl f ↦ rw (require_auth, e, check_payload, f) (check_user-Kept payload s current)
            | inr (entry, f) ↦ elim (Bool-cases (entry.token_version == payload.tv)) [
              | inl same ↦
                  rw (require_auth, e, check_payload, f, same) (current, Grows-refl s.users)
              | inr other ↦
                  rw (require_auth, e, check_payload, f, other) (check_user-Kept payload s current)
            ]
          ]
  ]

  pub apply-Kept : (call : Call Token) (s : Accounts) → IsCurrent s → Kept s (apply call s)
  unfolding apply sign_up change_password update_profile sign_out_all Kept
  apply-Kept (signs_up fresh email name password) s current =
      elim (Option-cases (find_where (has_email email) s.users)) [
        | inl e ↦
            rw (apply, sign_up, e)
              (IsCurrent-insert fresh _ s current, Grows-insert fresh _ s.users)
        | inr (u, e) ↦ rw (apply, sign_up, e) (current, Grows-refl s.users)
      ]
  apply-Kept (changes_password id current_password new_password) s current =
      elim (Option-cases (find id s.users)) [
        | inl e ↦ rw (apply, change_password, e) (current, Grows-refl s.users)
        | inr (u, e) ↦ elim (Bool-cases (verify_password u.password_hash current_password)) [
          | inl good ↦
              rw (apply, change_password, e, good)
                (IsCurrent-forget id _ s current, Grows-modify id _ s.users (λ v. omega arith))
          | inr bad ↦ rw (apply, change_password, e, bad) (current, Grows-refl s.users)
        ]
      ]
  apply-Kept (updates_profile id name) s current = elim (Option-cases (find id s.users)) [
    | inl e ↦ rw (apply, update_profile, e) (current, Grows-refl s.users)
    | inr (u, e) ↦
        rw (apply, update_profile, e)
          (
            IsCurrent-set_name id name s current,
            Grows-modify id (set_name name) s.users (λ v. omega arith),
          )
  ]
  apply-Kept (signs_out_all id) s current = elim (Option-cases (find id s.users)) [
    | inl e ↦ rw (apply, sign_out_all, e) (current, Grows-refl s.users)
    | inr (u, e) ↦
        rw (apply, sign_out_all, e)
          (IsCurrent-forget id bump s current, Grows-modify id bump s.users (λ v. omega arith))
  ]
  apply-Kept (requests answers token) s current = require_auth-Kept answers token s current

  Grows-trans : (a b c : Table User) → Grows a b → Grows b c → Grows a c
  unfolding Grows
  Grows-trans a b c g h id u e =
      let (v, found, le) = g id u e in
      let (w, found', le') = h id v found in (w, found', omega arith)

  pub apply_all-Kept :
      (calls : List (Call Token)) (s : Accounts) → IsCurrent s → Kept s (apply_all calls s)
  unfolding apply_all Kept
  apply_all-Kept [] s current = (current, Grows-refl s.users)
  apply_all-Kept (call ∷ calls) s current =
      let (next, grows) = apply-Kept call s current in
      let (last, grows') = apply_all-Kept calls (apply call s) next in
      (
        last,
        Grows-trans s.users (apply call s).users (apply_all calls (apply call s)).users grows
            grows',
      )
