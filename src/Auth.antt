-- ===== src/Auth.antt =====
-- Accounts and sessions: `authService` (apps/api/src/modules/auth/auth.service.ts) and the guards of
-- apps/api/src/middlewares/requireAuth.ts. Signed tokens (apps/api/src/lib/jwt.ts) and password hashes
-- (apps/api/src/lib/password.ts) are those of libraries, so parameters. The cache of users is a function, and
-- `answers` tells whether it gives what it holds: an entry may have ended, and Redis may be away.
pub mod Calls
pub mod Sessions
pub mod Tests
use kartit.Prelude.{
  ℕ, ◌+◌, Bool, true, false, not, ◌&&◌, Option, none, some, List, [], ◌∷◌, ◌==◌, if◌then◌else◌,
}
use kartit.Prelude.Table.{Table, find, find_where, modify, insert}
use kartit.Result.{
  Result, ok, err, Error, app_error, conflict, forbidden, record_not_found, email_in_use,
  invalid_credentials, invalid_token, session_invalid, unauthorized_code,
}
use kartit.Shared.Text.{Text, text_eq, to_upper_case}

pub data UserRole : Type 0 where
  customer admin : UserRole

pub record User : Type 0 where
  pub email : Text
  pub name : Option Text
  pub role : UserRole
  pub password_hash : Text
  pub token_version : ℕ

pub record PublicUser : Type 0 where
  pub id : ℕ
  pub email : Text
  pub name : Option Text
  pub role : UserRole

abbrev pub to_public_user : ℕ → User → PublicUser
to_public_user id u = record { id = id; email = u.email; name = u.name; role = u.role }

-- The payload of a token.
pub record Claims : Type 0 where
  pub sub : ℕ
  pub role : UserRole
  pub tv : ℕ

pub record CachedUser : Type 0 where
  pub id : ℕ
  pub role : UserRole
  pub token_version : ℕ

pub record Accounts : Type 0 where
  pub users : Table User
  pub user_cache : ℕ → Option CachedUser

abbrev pub put : ℕ → Option CachedUser → (ℕ → Option CachedUser) → ℕ → Option CachedUser
put id entry cache j = if j == id then entry else cache j

-- `userCache.del`
abbrev pub forget : ℕ → Accounts → Accounts
forget id s = record s { user_cache = put id none s.user_cache }

-- The column of e-mail addresses does not tell capitals from small letters.
abbrev pub has_email : Text → User → Bool
has_email email u = text_eq (to_upper_case u.email) (to_upper_case email)

abbrev pub unauthorized : Error
unauthorized = app_error 401 unauthorized_code

abbrev pub bump : User → User
bump u = record u { token_version = u.token_version + 1 }

abbrev pub set_name : Option Text → User → User
set_name name u = record u { name = name }

module _ {Token : Type 0} (sign : Claims → Token) (verify : Token → Option Claims)
    (hash_password : Text → Text) (verify_password : Text → Text → Bool) where
  abbrev pub token_for : ℕ → User → Token
  token_for id u = sign (record { sub = id; role = u.role; tv = u.token_version })

  abbrev pub new_user : Text → Option Text → Text → User
  new_user email name password = record {
    email = email;
    name = name;
    role = customer;
    password_hash = hash_password password;
    token_version = 0;
  }

  unfoldable pub sign_up :
      ℕ → Text → Option Text → Text → Accounts → Result (PublicUser × Token) × Accounts
  sign_up fresh email name password s = elim (find_where (has_email email) s.users) [
    | some _ ↦ (err (conflict email_in_use), s)
    | none ↦
        let u = new_user email name password in
        (
          ok (to_public_user fresh u, token_for fresh u),
          record s { users = insert fresh u s.users },
        )
  ]

  unfoldable pub sign_in : Text → Text → Accounts → Result (PublicUser × Token)
  sign_in email password s = elim (find_where (has_email email) s.users) [
    | none ↦ err (app_error 401 invalid_credentials)
    | some (id, u) ↦
        if verify_password u.password_hash password
        then ok (to_public_user id u, token_for id u)
        else err (app_error 401 invalid_credentials)
  ]

  unfoldable pub me : ℕ → Accounts → Result PublicUser
  me id s = elim (find id s.users) [
    | none ↦ err record_not_found
    | some u ↦ ok (to_public_user id u)
  ]

  abbrev pub set_password : Text → User → User
  set_password password u = bump (record u { password_hash = hash_password password })

  unfoldable pub change_password :
      ℕ → Text → Text → Accounts → Result (PublicUser × Token) × Accounts
  change_password id current_password new_password s = elim (find id s.users) [
    | none ↦ (err record_not_found, s)
    | some u ↦
        let changed = set_password new_password u in
        if verify_password u.password_hash current_password
        then (
          ok (to_public_user id changed, token_for id changed),
          forget id (record s { users = modify id (set_password new_password) s.users }),
        )
        else (err (app_error 401 invalid_credentials), s)
  ]

  unfoldable pub update_profile : ℕ → Option Text → Accounts → Result PublicUser × Accounts
  update_profile id name s = elim (find id s.users) [
    | none ↦ (err record_not_found, s)
    | some u ↦ (
      ok (to_public_user id (set_name name u)),
      record s { users = modify id (set_name name) s.users },
    )
  ]

  unfoldable pub sign_out_all : ℕ → Accounts → Result (Unit {0}) × Accounts
  sign_out_all id s = elim (find id s.users) [
    | none ↦ (err record_not_found, s)
    | some u ↦ (ok tt, forget id (record s { users = modify id bump s.users }))
  ]

  -- What `requireAuth` does where the cache has no entry that settles the question.
  unfoldable pub check_user : Claims → Accounts → Result (ℕ × UserRole) × Accounts
  check_user payload s = elim (find payload.sub s.users) [
    | none ↦ (err (app_error 401 session_invalid), forget payload.sub s)
    | some u ↦
        let entry : CachedUser = record {
          id = payload.sub;
          role = u.role;
          token_version = u.token_version;
        } in
        if payload.tv == u.token_version
        then (
          ok (payload.sub, u.role),
          record s { user_cache = put payload.sub (some entry) s.user_cache },
        )
        else (err (app_error 401 session_invalid), forget payload.sub s)
  ]

  abbrev pub cached : Bool → ℕ → Accounts → Option CachedUser
  cached answers id s = if answers then s.user_cache id else none

  unfoldable pub check_payload : Bool → Claims → Accounts → Result (ℕ × UserRole) × Accounts
  check_payload answers payload s = elim (cached answers payload.sub s) [
    | none ↦ check_user payload s
    | some entry ↦
        let read = check_user payload s in
        if entry.token_version == payload.tv then (ok (entry.id, entry.role), s) else read
  ]

  -- `answers` tells whether the cache gives what it holds.
  unfoldable pub require_auth : Bool → Option Token → Accounts → Result (ℕ × UserRole) × Accounts
  require_auth answers none s = (err unauthorized, s)
  require_auth answers (some token) s = elim (verify token) [
    | none ↦ (err (app_error 401 invalid_token), s)
    | some payload ↦ check_payload answers payload s
  ]

abbrev pub is_admin : UserRole → Bool
is_admin customer = false
is_admin admin = true

unfoldable pub require_admin : Option (ℕ × UserRole) → Result (Unit {0})
require_admin none = err unauthorized
require_admin (some (id, role)) = if is_admin role then ok tt else err forbidden
