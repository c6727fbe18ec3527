-- ===== src/Auth/Sessions.antt =====
-- Sessions that have been ended (apps/api/src/modules/auth/auth.service.ts, apps/api/src/middlewares/requireAuth.ts).
-- Calls follow one another, and a deletion from the cache succeeds.
use kartit.Prelude.{
  ℕ, ◌≤◌, ◌<◌, ◌≡◌, refl, sym, ap, ◌∙◌, subst, Bool, true, false, Option, none, some, List, arith,
  ◌==◌, inl, inr, Option-cases, some_inj, none≢some,
}
use kartit.Prelude.Table.{Table, find, modify, find-modify_self}
use kartit.Result.{err, app_error, session_invalid}
use kartit.Shared.Text.{Text}
use kartit.Auth.{
  User, Claims, CachedUser, Accounts, bump, set_password, change_password, sign_out_all, check_user,
  check_payload, cached, require_auth,
}
use kartit.Auth.Calls.Cache.{IsCurrent, Grows}
use kartit.Auth.Calls.{
  Call, signs_up, changes_password, updates_profile, signs_out_all, requests, apply, apply_all,
  Kept, apply-Kept, apply_all-Kept,
}

module _ {Token : Type 0} (sign : Claims → Token) (verify : Token → Option Claims)
    (hash_password : Text → Text) (verify_password : Text → Text → Bool) where
  abbrev applied : Call Token → Accounts → Accounts
  applied = apply sign verify hash_password verify_password

  abbrev applied_all : List (Call Token) → Accounts → Accounts
  applied_all = apply_all sign verify hash_password verify_password

  -- A call that ends the sessions of a user: a sign-out of all of them, or a change of the password with
  -- the right one.
  abbrev pub Ends : ℕ → User → Call Token → Type 0
  Ends id u (signs_up _ _ _ _) = ⊥
  Ends id u (changes_password j current_password _) =
      (j ≡ id) × (verify_password u.password_hash current_password ≡ true)
  Ends id u (updates_profile _ _) = ⊥
  Ends id u (signs_out_all j) = j ≡ id
  Ends id u (requests _ _) = ⊥

  modify_found :
      (id : ℕ) (f : User → User) (t : Table User) (u : User)
      → find id t ≡ some u
      → find id (modify id f t) ≡ some (f u)
  modify_found id f t u e = find-modify_self id f t u e

  abbrev Bumped : ℕ → User → Accounts → Call Token → Type 0
  Bumped id u s call =
      (u' : User) × (find id (applied call s).users ≡ some u')
      × (u.token_version < u'.token_version)

  sign_out-Bumped :
      (id : ℕ) (u : User) (s : Accounts)
      → find id s.users ≡ some u
      → Bumped id u s (signs_out_all id)
  unfolding apply sign_out_all
  sign_out-Bumped id u s e =
      rw (apply, sign_out_all, e) (bump u, modify_found id bump s.users u e, omega arith)

  password-Bumped :
      (id : ℕ) (current_password new_password : Text) (u : User) (s : Accounts)
      → find id s.users ≡ some u
      → verify_password u.password_hash current_password ≡ true
      → Bumped id u s (changes_password id current_password new_password)
  unfolding apply change_password
  password-Bumped id current_password new_password u s e good =
      let f = set_password sign verify hash_password verify_password new_password in
      rw (apply, change_password, e, good) (f u, modify_found id f s.users u e, omega arith)

  Ends-Bumped :
      (call : Call Token) (id : ℕ) (u : User) (s : Accounts)
      → find id s.users ≡ some u
      → Ends id u call
      → Bumped id u s call
  Ends-Bumped (signs_up _ _ _ _) id u s e ends = absurd ends
  Ends-Bumped (updates_profile _ _) id u s e ends = absurd ends
  Ends-Bumped (requests _ _) id u s e ends = absurd ends
  Ends-Bumped (changes_password j current_password new_password) id u s e (same, good) =
      subst (λ n. Bumped id u s (changes_password n current_password new_password)) (sym same)
        (password-Bumped id current_password new_password u s e good)
  Ends-Bumped (signs_out_all j) id u s e same =
      subst (λ n. Bumped id u s (signs_out_all n)) (sym same) (sign_out-Bumped id u s e)

  cached-held :
      (answers : Bool) (id : ℕ) (s : Accounts) (entry : CachedUser)
      → cached sign verify hash_password verify_password answers id s ≡ some entry
      → s.user_cache id ≡ some entry
  cached-held true id s entry h = h
  cached-held false id s entry h = absurd (none≢some h)

  entry-differs :
      (p : Claims) (u : User) (s : Accounts) (entry : CachedUser)
      → IsCurrent s
      → find p.sub s.users ≡ some u
      → p.tv < u.token_version
      → s.user_cache p.sub ≡ some entry
      → (entry.token_version == p.tv) ≡ false
  entry-differs p u s entry current found old held =
      let (v, found_v, version) = current p.sub entry held in
      let same : u ≡ v = some_inj (sym found ∙ found_v) in
      let versions : u.token_version ≡ entry.token_version =
        ap (λ x. x.token_version) same ∙ sym version in
      ground arith

  -- A token of an older version is refused, whether or not the cache answers.
  old_token-refused :
      (answers : Bool) (token : Token) (p : Claims) (u : User) (s : Accounts)
      → IsCurrent s
      → verify token ≡ some p
      → find p.sub s.users ≡ some u
      → p.tv < u.token_version
      → (require_auth sign verify hash_password verify_password answers (some token) s).0
        ≡ err (app_error 401 session_invalid)
  unfolding require_auth check_payload check_user
  old_token-refused answers token p u s current e found old =
      let stale : (p.tv == u.token_version) ≡ false = ground arith in
      elim (Option-cases (cached sign verify hash_password verify_password answers p.sub s)) [
        | inl f ↦ rw (require_auth, e, check_payload, f, check_user, found, stale) refl
        | inr (entry, f) ↦
            let differs =
              entry-differs p u s entry current found old (cached-held answers p.sub s entry f) in
            rw (require_auth, e, check_payload, f, differs, check_user, found, stale) refl
      ]

  -- From an empty cache on, whatever calls are made one after another, a call that ends a user's sessions (a
  -- sign-out of all of them, or a change of the password with the right one) makes every token that was
  -- valid then, or older, useless: whatever calls follow, and whether or not the cache answers, the guard
  -- refuses it. A deletion from the cache succeeds.
  pub ended-refused :
      (start : Accounts) (before after : List (Call Token)) (call : Call Token) (answers : Bool)
      (token : Token) (p : Claims) (u : User)
      → ((id : ℕ) → start.user_cache id ≡ none)
      → verify token ≡ some p
      → find p.sub (applied_all before start).users ≡ some u
      → p.tv ≤ u.token_version
      → Ends p.sub u call
      → (require_auth sign verify hash_password verify_password answers
          (some token)
          (applied_all after (applied call (applied_all before start)))).0
        ≡ err (app_error 401 session_invalid)
  unfolding Kept Grows
  ended-refused start before after call answers token p u empty_cache e found valid ends =
      let s = applied_all before start in
      let current =
        (apply_all-Kept sign verify hash_password verify_password before start
          (λ id e h. absurd (none≢some (sym (empty_cache id) ∙ h)))).0 in
      let (u', found', above) = Ends-Bumped call p.sub u s found ends in
      let next = (apply-Kept sign verify hash_password verify_password call s current).0 in
      let (last, grows) =
        apply_all-Kept sign verify hash_password verify_password after (applied call s) next in
      let (u'', found'', no_lower) = grows p.sub u' found' in
      old_token-refused answers token p u'' (applied_all after (applied call s)) last e found''
        (omega arith)
