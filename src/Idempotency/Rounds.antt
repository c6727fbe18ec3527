-- ===== src/Idempotency/Rounds.antt =====
-- The rounds of `postgresPath` (apps/api/src/middlewares/idempotency-postgres.ts): two are enough where no other
-- request comes in between, and their result is that of the specification.
mod Rows
use kartit.Prelude.{
  ℕ, ◌+◌, ◌≤◌, ◌<◌, ◌≡◌, refl, sym, ap, ◌∙◌, Bool, true, false, not, ◌&&◌, ◌||◌, Option, none, some,
  List, [], ◌∷◌, arith, leb, ltb, if◌then◌else◌, inl, inr, ◌⊎◌, Bool-cases, Option-cases,
}
use kartit.Prelude.Table.{Table, find_where, count, insert, erase, IsDistinct}
use kartit.Shared.Text.{Text, text_eq, text_eq_refl}
use kartit.Idempotency.{ClaimResult, claimed, blocked, KeyRow, is_in_progress}
use kartit.Idempotency.Durable.{
  Round, has_key, is_recoverable, new_row, or_default, answer_row, postgres_path, create_row,
  cleanup_recoverable_claims, remove_recoverable_claim, delete_where,
}
use kartit.Idempotency.Spec.{Claim, free, working, answered, arrive}
use Rows.{
  count-delete_where, find_where-delete_none, find_where-delete_some, IsDistinct-delete_where,
  find_where-erase_found, find_where-insert,
}

module _ {Body : Type 0} (empty_object : Body) (user key : Text) (now : ℕ) where
  -- The claim that a row stands for at the time, and that the table stands for.
  abbrev pub row_claim : KeyRow Body → Claim Body
  row_claim row =
      if is_recoverable now row
      then free
      else if is_in_progress row.status
      then working row.request_hash
      else answered row.request_hash (or_default row.response_status 200)
          (or_default row.response_body empty_object)

  abbrev pub found_claim : Option (ℕ × KeyRow Body) → Claim Body
  found_claim none = free
  found_claim (some (id, row)) = row_claim row

  unfoldable pub table_claim : Table (KeyRow Body) → Claim Body
  table_claim rows = found_claim (find_where (has_key user key) rows)

  -- The primary key and the unique pair.
  abbrev pub IsUnique : Table (KeyRow Body) → Type 0
  IsUnique rows = (count (has_key user key) rows ≤ 1) × IsDistinct rows

  -- No other request between `create` and `findUnique`, and a deletion that is asked for succeeds.
  abbrev pub IsQuiet : Round Body → Type 0
  IsQuiet round =
      ((rows : Table (KeyRow Body)) → round.meanwhile rows ≡ rows) × (round.deleted ≡ true)

  IsUnique-cleanup :
      (landed : Bool) (rows : Table (KeyRow Body))
      → IsUnique rows
      → IsUnique (cleanup_recoverable_claims landed now rows)
  unfolding cleanup_recoverable_claims
  IsUnique-cleanup true rows (single, distinct) = (
    omega (arith, count-delete_where (has_key user key) (is_recoverable now) rows),
    IsDistinct-delete_where (is_recoverable now) rows distinct,
  )
  IsUnique-cleanup false rows unique = unique

  table_claim-cleanup :
      (landed : Bool) (rows : Table (KeyRow Body))
      → IsUnique rows
      → table_claim (cleanup_recoverable_claims landed now rows) ≡ table_claim rows
  unfolding cleanup_recoverable_claims table_claim
  table_claim-cleanup false rows unique = refl
  table_claim-cleanup true rows (single, distinct) =
      elim (Option-cases (find_where (has_key user key) rows)) [
        | inl e ↦
            ap found_claim
              (find_where-delete_none (has_key user key) (is_recoverable now) rows e ∙ sym e)
        | inr ((id, row), e) ↦
            ap found_claim
              (find_where-delete_some (has_key user key) (is_recoverable now) rows id row single e)
            ∙ dropped id row (is_recoverable now row) refl
            ∙ ap found_claim (sym e)
      ]
    where
      dropped :
          (id : ℕ) (row : KeyRow Body) (b : Bool)
          → is_recoverable now row ≡ b
          → found_claim (if b then none else some (id, row)) ≡ row_claim row
      dropped id row true e = rw e refl
      dropped id row false e = refl

  answer_row-arrive :
      (h : Text) (row : KeyRow Body)
      → is_recoverable now row ≡ false
      → (answer_row empty_object h row ≡ (arrive h (row_claim row)).0)
        × ((arrive h (row_claim row)).1 ≡ row_claim row)
  answer_row-arrive h row fresh = elim (Bool-cases (is_in_progress row.status)) [
    | inl e ↦ elim (Bool-cases (text_eq row.request_hash h)) [
      | inl same ↦ rw (fresh, e, same) (refl, refl)
      | inr other ↦ rw (fresh, e, other) (refl, refl)
    ]
    | inr e ↦ elim (Bool-cases (text_eq row.request_hash h)) [
      | inl same ↦ rw (fresh, e, same) (refl, refl)
      | inr other ↦ rw (fresh, e, other) (refl, refl)
    ]
  ]

  abbrev Served : Text → Claim Body → ClaimResult Body × Table (KeyRow Body) → Type 0
  Served h c (result, after) = (result ≡ (arrive h c).0) × (table_claim after ≡ (arrive h c).1)

  has_key_new :
      (h : Text) (expires_at : ℕ)
      → has_key {Body = Body} user key (new_row user key h expires_at now) ≡ true
  has_key_new h expires_at = ground (arith, text_eq_refl user, text_eq_refl key)

  row_claim-new_row :
      (h : Text) (expires_at : ℕ)
      → now < expires_at
      → row_claim (new_row user key h expires_at now) ≡ working h
  row_claim-new_row h expires_at soon = ground arith

  -- A round that finds the key free.
  round-free :
      (round : Round Body) (rounds : List (Round Body)) (id : ℕ) (h : Text) (expires_at : ℕ)
      (rows : Table (KeyRow Body))
      → now < expires_at
      → find_where (has_key user key) (cleanup_recoverable_claims round.cleaned now rows) ≡ none
      → Served h free
          (postgres_path (round ∷ rounds) empty_object id user key h expires_at now rows)
  unfolding postgres_path create_row table_claim
  round-free round rounds id h expires_at rows soon e =
      let cleaned = cleanup_recoverable_claims round.cleaned now rows in
      let row = new_row user key h expires_at now in
      rw (postgres_path, create_row, e)
        (
          refl,
          ap found_claim
                (find_where-insert (has_key user key) id row cleaned e (has_key_new h expires_at))
              ∙ row_claim-new_row h expires_at soon,
        )

  -- A round that finds a row that stays.
  round-held :
      (round : Round Body) (rounds : List (Round Body)) (id found : ℕ) (h : Text) (expires_at : ℕ)
      (row : KeyRow Body) (rows : Table (KeyRow Body))
      → IsQuiet round
      → is_recoverable now row ≡ false
      → find_where (has_key user key) (cleanup_recoverable_claims round.cleaned now rows)
        ≡ some (found, row)
      → postgres_path (round ∷ rounds) empty_object id user key h expires_at now rows
        ≡ (answer_row empty_object h row, cleanup_recoverable_claims round.cleaned now rows)
  unfolding postgres_path create_row remove_recoverable_claim
  round-held round rounds id found h expires_at row rows (quiet, deletes) fresh e =
      let cleaned = cleanup_recoverable_claims round.cleaned now rows in
      rw
        (
          postgres_path,
          create_row,
          e,
          quiet cleaned,
          e,
          remove_recoverable_claim,
          fresh,
          quiet cleaned,
        )
        refl

  -- A round that finds a row that it may delete.
  round-recovered :
      (round : Round Body) (rounds : List (Round Body)) (id found : ℕ) (h : Text) (expires_at : ℕ)
      (row : KeyRow Body) (rows : Table (KeyRow Body))
      → IsQuiet round
      → is_recoverable now row ≡ true
      → find_where (has_key user key) (cleanup_recoverable_claims round.cleaned now rows)
        ≡ some (found, row)
      → postgres_path (round ∷ rounds) empty_object id user key h expires_at now rows
        ≡ postgres_path rounds empty_object id user key h expires_at now
            (erase found (cleanup_recoverable_claims round.cleaned now rows))
  unfolding postgres_path create_row remove_recoverable_claim
  round-recovered round rounds id found h expires_at row rows (quiet, deletes) old e =
      let cleaned = cleanup_recoverable_claims round.cleaned now rows in
      rw
        (
          postgres_path,
          create_row,
          e,
          quiet cleaned,
          e,
          remove_recoverable_claim,
          old,
          deletes,
          quiet cleaned,
        )
        refl

  row_claim-old : (row : KeyRow Body) → is_recoverable now row ≡ true → row_claim row ≡ free
  row_claim-old row old = rw old refl

  cleanup-none :
      (landed : Bool) (rows : Table (KeyRow Body))
      → find_where (has_key user key) rows ≡ none
      → find_where (has_key user key) (cleanup_recoverable_claims landed now rows) ≡ none
  unfolding cleanup_recoverable_claims
  cleanup-none true rows e = find_where-delete_none (has_key user key) (is_recoverable now) rows e
  cleanup-none false rows e = e

  -- Two rounds of `postgresPath` are enough where, in the first, no other request comes between the two
  -- statements and a deletion succeeds, the new claim ends later than now, and ids and keys are unique: the
  -- request is answered as the specification answers it for the claim that the table stands for, a row that has
  -- ended or is stale being free, and the table then stands for the claim that the specification gives.
  pub postgres_path-arrive :
      (first second : Round Body) (rounds : List (Round Body)) (id : ℕ) (h : Text) (expires_at : ℕ)
      (rows : Table (KeyRow Body))
      → IsQuiet first
      → now < expires_at
      → IsUnique rows
      → let (result, after) =
          postgres_path (first ∷ second ∷ rounds) empty_object id user key h expires_at now rows in
        (result ≡ (arrive h (table_claim rows)).0)
        × (table_claim after ≡ (arrive h (table_claim rows)).1)
  unfolding table_claim
  postgres_path-arrive first second rounds id h expires_at rows quiet soon unique =
      let cleaned = cleanup_recoverable_claims first.cleaned now rows in
      let (single, distinct) = IsUnique-cleanup first.cleaned rows unique in
      let same : table_claim rows ≡ table_claim cleaned =
        sym (table_claim-cleanup first.cleaned rows unique) in
      elim (Option-cases (find_where (has_key user key) cleaned)) [
        | inl e ↦
            let free_now : table_claim rows ≡ free = same ∙ ap found_claim e in
            rw free_now (round-free first (second ∷ rounds) id h expires_at rows soon e)
        | inr ((found, row), e) ↦
            let claim : table_claim rows ≡ row_claim row = same ∙ ap found_claim e in
            elim (Bool-cases (is_recoverable now row)) [
              | inl old ↦
                  let gone =
                    find_where-erase_found (has_key user key) cleaned found row distinct single e in
                  rw
                    (
                      claim ∙ row_claim-old row old,
                      round-recovered first (second ∷ rounds) id found h expires_at row rows quiet
                          old e,
                    )
                    (round-free second rounds id h expires_at (erase found cleaned) soon
                      (cleanup-none second.cleaned (erase found cleaned) gone))
              | inr fresh ↦
                  let (answer, kept) = answer_row-arrive h row fresh in
                  rw
                    (
                      claim,
                      round-held first (second ∷ rounds) id found h expires_at row rows quiet fresh
                          e,
                    )
                    (answer, ap found_claim e ∙ sym kept)
            ]
      ]
