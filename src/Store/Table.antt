-- ===== src/Store/Table.antt =====
-- What SQL statements do to the rows of a table.
use vibe_terminal.Base.{
  ◌≡◌, ◌∙◌, ◌||◌, any, refl, Bool, true, not, Option, none, some, List, [], ◌∷◌, arith,
  if◌then◌else◌, filter, count, Bool-cases, inl, inr, subst, All,
}

module _ {ℓ} {A : Type ℓ} where
  -- `update … set … where p`
  unfoldable pub update_where : (A → Bool) → (A → A) → List A → List A
  update_where p f [] = []
  update_where p f (r ∷ rows) = (if p r then f r else r) ∷ update_where p f rows

  -- `delete … where p`
  abbrev pub delete_where : (A → Bool) → List A → List A
  delete_where p = filter (λ r. not (p r))

  -- The first row of `select … where p`
  unfoldable pub find_where : (A → Bool) → List A → Option A
  find_where p [] = none
  find_where p (r ∷ rows) = if p r then some r else find_where p rows

  -- `order by`, where `before` is the strict order of the keys. Rows with equal keys keep their
  -- order, which SQLite leaves open.
  insert_by : (A → A → Bool) → A → List A → List A
  insert_by before r [] = r ∷ []
  insert_by before r (s ∷ rows) = if before s r then s ∷ insert_by before r rows else r ∷ s ∷ rows

  unfoldable pub order_by : (A → A → Bool) → List A → List A
  unfolding insert_by
  order_by before [] = []
  order_by before (r ∷ rows) = insert_by before r (order_by before rows)

  pub All-update_where {κ} :
      (P : A → Type κ) (p : A → Bool) (f : A → A)
      → ((r : A) → p r ≡ true → P r → P (f r))
      → (rows : List A) → All P rows
      → All P (update_where p f rows)
  unfolding update_where
  All-update_where P p f keep [] h = tt
  All-update_where P p f keep (r ∷ rows) h =
      ground (arith, keep r, All-update_where P p f keep rows h.1)

  -- An update that affects no row finds none.
  pub find_where-none : (p : A → Bool) (rows : List A) → count p rows ≡ 0 → find_where p rows ≡ none
  unfolding find_where
  find_where-none p [] h = refl
  find_where-none p (r ∷ rows) h = ground (arith, find_where-none p rows)

  pub find_where-some :
      (p : A → Bool) (rows : List A) (r : A) → find_where p rows ≡ some r → p r ≡ true
  unfolding find_where
  find_where-some p [] r h = cc
  find_where-some p (s ∷ rows) r h = ground (arith, find_where-some p rows r)

  pub find_where_All {κ} :
      (Q : A → Type κ) (p : A → Bool) (rows : List A) (r : A)
      → find_where p rows ≡ some r
      → All Q rows
      → Q r
  unfolding find_where
  find_where_All Q p [] r e h = cc
  find_where_All Q p (s ∷ rows) r e h = elim (Bool-cases (p s)) [
    | inl yes_p ↦ subst Q (ground arith) h.0
    | inr no_p ↦ find_where_All Q p rows r (ground arith) h.1
  ]

  All-insert_by {κ} :
      (P : A → Type κ) (before : A → A → Bool) (r : A) (rows : List A)
      → P r
      → All P rows
      → All P (insert_by before r rows)
  unfolding insert_by
  All-insert_by P before r [] p h = (p, tt)
  All-insert_by P before r (x ∷ rows) p h = ground (arith, All-insert_by P before r rows p h.1)

  -- Sorting keeps what holds of every row.
  pub All-order_by {κ} :
      (P : A → Type κ) (before : A → A → Bool) (rows : List A)
      → All P rows
      → All P (order_by before rows)
  unfolding order_by
  All-order_by P before [] h = tt
  All-order_by P before (r ∷ rows) h =
      All-insert_by P before r (order_by before rows) h.0 (All-order_by P before rows h.1)

  any-insert_by :
      (p : A → Bool) (before : A → A → Bool) (r : A) (rows : List A)
      → any p (insert_by before r rows) ≡ (p r || any p rows)
  unfolding insert_by
  any-insert_by p before r [] = refl
  any-insert_by p before r (x ∷ rows) = ground (arith, any-insert_by p before r rows)

  pub any-order_by :
      (p : A → Bool) (before : A → A → Bool) (rows : List A)
      → any p (order_by before rows) ≡ any p rows
  unfolding order_by
  any-order_by p before [] = refl
  any-order_by p before (r ∷ rows) =
      any-insert_by p before r (order_by before rows) ∙ ground (arith, any-order_by p before rows)
