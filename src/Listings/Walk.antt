-- ===== src/Listings/Walk.antt =====
-- Page after page of ordersService.list (apps/api/src/modules/orders/orders.service.ts), each from the cursor that
-- the page before it gave.
use kartit.Prelude.{
  ℕ, zero, suc, ◌≤◌, ◌<◌, ◌≡◌, ◌≢◌, refl, sym, ap, ◌∙◌, Bool, true, false, Option, none, some, [],
  ◌∷◌, ◌++◌, length, take, arith, ltb, ◌==◌, inl, inr, Bool-cases, Option-cases,
}
use kartit.Prelude.Table.{Table, find, IsDistinct}
use kartit.Store.{Db, Order}
use kartit.Listings.{Page, page, behind, from_cursor, last_id, list_orders, visible_orders}

-- Where a reader stops: behind a page that gives no cursor, or with no pages left to take.
pub data Stop : Type 0 where
  came_to_end pages_used_up : Stop

module _ {ℓ} {V : Type ℓ} where
  -- At most so many pages.
  unfoldable pub walk : ℕ → (Option ℕ → Page V) → Option ℕ → Table V × Stop
  walk zero next cursor = ([], pages_used_up)
  walk (suc pages) next cursor =
      let got = next cursor in
      elim got.next_cursor [
        | none ↦ (got.items, came_to_end)
        | some c ↦ let (items, stop) = walk pages next (some c) in (got.items ++ items, stop)
      ]

  find-append-none :
      (k c : ℕ) (xs ys : Table V) (v : V) → find k (xs ++ ((c, v) ∷ ys)) ≡ none → (c == k) ≡ false
  unfolding find
  find-append-none k c [] ys v h = ground arith
  find-append-none k c ((j, w) ∷ xs) ys v h = ground (arith, find-append-none k c xs ys v)

  -- The rows behind one that is in a table of distinct keys.
  behind-append :
      (c : ℕ) (v : V) (xs ys : Table V)
      → IsDistinct (xs ++ ((c, v) ∷ ys))
      → behind c (xs ++ ((c, v) ∷ ys)) ≡ ys
  unfolding behind IsDistinct
  behind-append c v [] ys d = ground arith
  behind-append c v ((j, w) ∷ xs) ys d =
      let other = find-append-none j c xs ys v d.0 in ground (arith, behind-append c v xs ys d.1)

  find-behind-none : (j d : ℕ) (rows : Table V) → find j rows ≡ none → find j (behind d rows) ≡ none
  unfolding find behind
  find-behind-none j d [] h = refl
  find-behind-none j d ((i, w) ∷ rows) h = ground (arith, find-behind-none j d rows)

  -- The rows behind a row that itself lies behind the cursor.
  behind-behind :
      (d c : ℕ) (v : V) (rows xs ys : Table V)
      → IsDistinct rows
      → behind d rows ≡ xs ++ ((c, v) ∷ ys)
      → behind c rows ≡ ys
  unfolding behind IsDistinct
  behind-behind d c v [] [] ys dis e = cc
  behind-behind d c v [] (x ∷ xs) ys dis e = cc
  behind-behind d c v ((j, w) ∷ rows) xs ys dis e = elim (Bool-cases (d == j)) [
    | inl here ↦
        let rest : rows ≡ xs ++ ((c, v) ∷ ys) = rw here at e in
        let other = find-append-none j c xs ys v (rw rest at dis.0) in
        rw other (rw rest (behind-append c v xs ys (rw rest at dis.1)))
    | inr there ↦
        let rest : behind d rows ≡ xs ++ ((c, v) ∷ ys) = rw there at e in
        let gone : find j (xs ++ ((c, v) ∷ ys)) ≡ none =
          rw rest at (find-behind-none j d rows dis.0) in
        let other = find-append-none j c xs ys v gone in
        rw other (behind-behind d c v rows xs ys dis.1 rest)
  ]

  -- A page that is full, cut off behind its last row.
  record Cut (items rest : Table V) : Type ℓ where
    front : Table V
    id : ℕ
    row : V
    back : Table V
    whole : rest ≡ front ++ ((id, row) ∷ back)
    joined : items ++ back ≡ rest
    last : last_id items ≡ some id
    shorter : length back < length rest

  last_id-cons : (x y : ℕ × V) (rows : Table V) → last_id (x ∷ y ∷ rows) ≡ last_id (y ∷ rows)
  unfolding last_id
  last_id-cons (i, v) y rows = refl

  cut : (m : ℕ) (rest : Table V) → m < length rest → Cut (take (suc m) rest) rest
  unfolding last_id
  cut m [] h = absurd (omega arith)
  cut zero ((i, v) ∷ rest) h = record {
    front = [];
    id = i;
    row = v;
    back = rest;
    whole = refl;
    joined = refl;
    last = refl;
    shorter = omega arith;
  }
  cut (suc m) ((i, v) ∷ []) h = absurd (omega arith)
  cut (suc m) ((i, v) ∷ y ∷ rest) h =
      let inner = cut m (y ∷ rest) (omega arith) in
      record {
        front = (i, v) ∷ inner.front;
        id = inner.id;
        row = inner.row;
        back = inner.back;
        whole = ap (◌∷◌ (i, v)) inner.whole;
        joined = ap (◌∷◌ (i, v)) inner.joined;
        last = last_id-cons (i, v) y (take m rest) ∙ inner.last;
        shorter = omega (arith, inner.shorter);
      }

  take-take : (n : ℕ) (rows : Table V) → take n (take (suc n) rows) ≡ take n rows
  take-take zero rows = refl
  take-take (suc n) [] = refl
  take-take (suc n) (x ∷ rows) = ap (◌∷◌ x) (take-take n rows)

  take-short : (n : ℕ) (rows : Table V) → length rows ≤ n → take (suc n) rows ≡ rows
  take-short n [] h = refl
  take-short zero (x ∷ rows) h = absurd (omega arith)
  take-short (suc n) (x ∷ rows) h = ap (◌∷◌ x) (take-short n rows (omega arith))

  length-take_longer :
      (n : ℕ) (rows : Table V) → n < length rows → length (take (suc n) rows) ≡ suc n
  length-take_longer n [] h = absurd (omega arith)
  length-take_longer zero (x ∷ rows) h = refl
  length-take_longer (suc n) (x ∷ rows) h = ap suc (length-take_longer n rows (omega arith))

  find-append_self : (c : ℕ) (v : V) (xs ys : Table V) → find c (xs ++ ((c, v) ∷ ys)) ≢ none
  unfolding find
  find-append_self c v [] ys = λ h. ground arith
  find-append_self c v ((j, w) ∷ xs) ys = λ h. find-append_self c v xs ys (ground arith)

  -- The reader's cursor is none, or a row's.
  abbrev IsThere : Option ℕ → Table V → Type ℓ
  IsThere none rows = Unit
  IsThere (some c) rows = find c rows ≢ none

  find-behind : (c d : ℕ) (rows : Table V) → find c (behind d rows) ≢ none → find c rows ≢ none
  find-behind c d rows there = λ gone. there (find-behind-none c d rows gone)

  module _ (stray : ℕ → Table V) where
    from_cursor-behind :
        (c : ℕ) (rows : Table V)
        → find c rows ≢ none
        → from_cursor stray (some c) rows ≡ behind c rows
    from_cursor-behind c rows there = elim (Option-cases (find c rows)) [
      | inl gone ↦ absurd (there gone)
      | inr (v, e) ↦ rw (from_cursor, e) refl
    ]

    page-last :
        (cursor : Option ℕ) (limit : ℕ) (rows : Table V)
        → length (from_cursor stray cursor rows) ≤ limit
        → page stray cursor limit rows
          ≡ record { items = from_cursor stray cursor rows; next_cursor = none }
    unfolding page
    page-last cursor limit rows h =
        let all_there = take-short limit (from_cursor stray cursor rows) h in
        let no_more : ltb limit (length (from_cursor stray cursor rows)) ≡ false = ground arith in
        rw (page, all_there, no_more) refl

    page-full :
        (cursor : Option ℕ) (limit : ℕ) (rows : Table V)
        → limit < length (from_cursor stray cursor rows)
        → page stray cursor limit rows ≡ record {
          items = take limit (from_cursor stray cursor rows);
          next_cursor = last_id (take limit (from_cursor stray cursor rows));
        }
    unfolding page
    page-full cursor limit rows h =
        let size = length-take_longer limit (from_cursor stray cursor rows) h in
        let more : ltb limit (suc limit) ≡ true = ground arith in
        rw (page, size, more, take-take limit (from_cursor stray cursor rows)) refl

    -- A row of what is left to read is a row, and what lies behind it is what is left behind it.
    from_cursor-whole :
        (cursor : Option ℕ) (c : ℕ) (v : V) (rows xs ys : Table V)
        → IsDistinct rows
        → IsThere cursor rows
        → from_cursor stray cursor rows ≡ xs ++ ((c, v) ∷ ys)
        → (find c rows ≢ none) × (from_cursor stray (some c) rows ≡ ys)
    from_cursor-whole none c v rows xs ys d there e =
        let row : find c rows ≢ none = rw e (find-append_self c v xs ys) in
        (row, from_cursor-behind c rows row ∙ rw e (behind-append c v xs ys (rw e at d)))
    from_cursor-whole (some k) c v rows xs ys d there e =
        let left : behind k rows ≡ xs ++ ((c, v) ∷ ys) =
          sym (from_cursor-behind k rows there) ∙ e in
        let row : find c rows ≢ none =
          find-behind c k rows (rw left (find-append_self c v xs ys)) in
        (row, from_cursor-behind c rows row ∙ behind-behind k c v rows xs ys d left)

    walk-from :
        (pages : ℕ) (cursor : Option ℕ) (m : ℕ) (rows : Table V)
        → IsDistinct rows
        → IsThere cursor rows
        → length (from_cursor stray cursor rows) < pages
        → walk pages (λ c. page stray c (suc m) rows) cursor
          ≡ (from_cursor stray cursor rows, came_to_end)
    unfolding walk
    walk-from zero cursor m rows d there h = absurd (omega arith)
    walk-from (suc pages) cursor m rows d there h =
        elim (Bool-cases (ltb (suc m) (length (from_cursor stray cursor rows)))) [
          | inr e ↦
              let only = page-last cursor (suc m) rows (ground arith) in
              rw (walk, only) (ap (λ p. (p.items, came_to_end)) only)
          | inl e ↦
              let above : suc m < length (from_cursor stray cursor rows) = ground arith in
              let c = cut m (from_cursor stray cursor rows) (omega (arith, above)) in
              let (row, next) =
                from_cursor-whole cursor c.id c.row rows c.front c.back d there c.whole in
              let rest =
                walk-from pages (some c.id) m rows d row (rw next (omega (arith, c.shorter))) in
              let full = page-full cursor (suc m) rows above in
              rw (walk, full, c.last, full, rest, next) (ap (λ x. (x, came_to_end)) c.joined)
        ]

-- A reader who takes page after page of the orders, with a limit above 0 and at most one page more than
-- there are orders to be seen, comes to a page that gives no cursor, and has by then every order that is
-- to be seen, once and in their order. Ids are distinct.
pub walk-list_orders :
    (stray : ℕ → Table Order) (user_id : ℕ) (is_admin : Bool) (m : ℕ) (db : Db)
    → IsDistinct (visible_orders user_id is_admin db)
    → walk
        (suc (length (visible_orders user_id is_admin db)))
        (λ cursor. list_orders stray user_id is_admin cursor (suc m) db)
        none
      ≡ (visible_orders user_id is_admin db, came_to_end)
walk-list_orders stray user_id is_admin m db d =
    walk-from stray (suc (length (visible_orders user_id is_admin db))) none m
      (visible_orders user_id is_admin db) d tt (omega arith)
