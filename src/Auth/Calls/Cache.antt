-- ===== src/Auth/Calls/Cache.antt =====
-- What the calls keep of the cache of users (apps/api/src/middlewares/requireAuth.ts), and of the versions.
use kartit.Prelude.{
  ℕ, ◌≤◌, ◌≡◌, refl, sym, ap, ◌∙◌, true, false, Option, none, some, [], ◌∷◌, arith, ◌==◌, inl, inr,
  Bool-cases, none≢some, some_inj,
}
use kartit.Prelude.Table.{Table, find, modify, insert, find-modify}
use kartit.Result.{}
use kartit.Shared.Text.{Text}
use kartit.Auth.{User, CachedUser, Accounts, put, forget, set_name}

-- Every entry of the cache has the version of its user.
abbrev pub IsCurrent : Accounts → Type 0
IsCurrent s =
    (id : ℕ) (e : CachedUser)
    → s.user_cache id ≡ some e
    → (u : User) × (find id s.users ≡ some u) × (e.token_version ≡ u.token_version)

-- A user stays, with a version that is no lower.
unfoldable pub Grows : Table User → Table User → Type 0
Grows t t' =
    (id : ℕ) (u : User)
    → find id t ≡ some u
    → (u' : User) × (find id t' ≡ some u') × (u.token_version ≤ u'.token_version)

pub Grows-refl : (t : Table User) → Grows t t
unfolding Grows
Grows-refl t id u e = (u, e, omega arith)

pub find-insert-some :
    (j k : ℕ) (u v : User) (t : Table User) → find k t ≡ some u → find k (insert j v t) ≡ some u
unfolding find
find-insert-some j k u v [] h = cc
find-insert-some j k u v ((i, w) ∷ t) h = ground (arith, find-insert-some j k u v t)

pub Grows-insert : (j : ℕ) (v : User) (t : Table User) → Grows t (insert j v t)
unfolding Grows
Grows-insert j v t id u e = (u, find-insert-some j id u v t e, omega arith)

pub Grows-modify :
    (j : ℕ) (f : User → User) (t : Table User)
    → ((u : User) → u.token_version ≤ (f u).token_version)
    → Grows t (modify j f t)
unfolding Grows
Grows-modify j f t up id u e = elim (Bool-cases (id == j)) [
  | inl same ↦ (f u, find-modify id j f t ∙ rw (same, e) refl, up u)
  | inr other ↦ (u, find-modify id j f t ∙ rw (other, e) refl, omega arith)
]

pub put-same :
    (j : ℕ) (o : Option CachedUser) (cache : ℕ → Option CachedUser) (id : ℕ)
    → (id == j) ≡ true
    → put j o cache id ≡ o
put-same j o cache id e = rw e refl

pub put-other :
    (j : ℕ) (o : Option CachedUser) (cache : ℕ → Option CachedUser) (id : ℕ)
    → (id == j) ≡ false
    → put j o cache id ≡ cache id
put-other j o cache id e = rw e refl

pub modify_other :
    (id j : ℕ) (f : User → User) (t : Table User)
    → (id == j) ≡ false
    → find id (modify j f t) ≡ find id t
modify_other id j f t other = find-modify id j f t ∙ rw other refl

-- The entry of a user is deleted, whatever becomes of the user's row.
pub IsCurrent-forget :
    (j : ℕ) (f : User → User) (s : Accounts)
    → IsCurrent s
    → IsCurrent (forget j (record s { users = modify j f s.users }))
IsCurrent-forget j f s current id e h = elim (Bool-cases (id == j)) [
  | inl same ↦ absurd (none≢some (sym (put-same j none s.user_cache id same) ∙ h))
  | inr other ↦
      let (u, found, version) = current id e (sym (put-other j none s.user_cache id other) ∙ h) in
      (u, modify_other id j f s.users other ∙ found, version)
]

pub IsCurrent-forget_only : (j : ℕ) (s : Accounts) → IsCurrent s → IsCurrent (forget j s)
IsCurrent-forget_only j s current id e h = elim (Bool-cases (id == j)) [
  | inl same ↦ absurd (none≢some (sym (put-same j none s.user_cache id same) ∙ h))
  | inr other ↦ current id e (sym (put-other j none s.user_cache id other) ∙ h)
]

pub IsCurrent-set_name :
    (j : ℕ) (name : Option Text) (s : Accounts)
    → IsCurrent s
    → IsCurrent (record s { users = modify j (set_name name) s.users })
IsCurrent-set_name j name s current id e h =
    let (u, found, version) = current id e h in
    elim (Bool-cases (id == j)) [
      | inl same ↦ (
        set_name name u,
        find-modify id j (set_name name) s.users ∙ rw (same, found) refl,
        version,
      )
      | inr other ↦ (u, find-modify id j (set_name name) s.users ∙ rw (other, found) refl, version)
    ]

pub IsCurrent-insert :
    (j : ℕ) (v : User) (s : Accounts)
    → IsCurrent s
    → IsCurrent (record s { users = insert j v s.users })
IsCurrent-insert j v s current id e h =
    let (u, found, version) = current id e h in
    (u, find-insert-some j id u v s.users found, version)

-- The entry of a user who has just been read.
pub IsCurrent-put :
    (j : ℕ) (u : User) (entry : CachedUser) (s : Accounts)
    → find j s.users ≡ some u
    → entry.token_version ≡ u.token_version
    → IsCurrent s
    → IsCurrent (record s { user_cache = put j (some entry) s.user_cache })
IsCurrent-put j u entry s found version current id e h = elim (Bool-cases (id == j)) [
  | inl same ↦
      let here : id ≡ j = ground arith in
      let entry_is : entry ≡ e =
        some_inj (sym (put-same j (some entry) s.user_cache id same) ∙ h) in
      (u, ap (λ n. find n s.users) here ∙ found, ap (λ x. x.token_version) (sym entry_is) ∙ version)
  | inr other ↦ current id e (sym (put-other j (some entry) s.user_cache id other) ∙ h)
]
