-- ===== src/Store/Table.antt =====
-- Rows with a text key: `SELECT … WHERE key = ?`, `UPDATE … WHERE key = ?`, `DELETE … WHERE …`.
use mathlib.Core.Option
use kite_kvm.Prelude.{
  List, Option, String, [], arith, eq_iff, if◌then◌else◌, none, refl, some, str_eq, ◌++◌, ◌∷◌, ◌≡◌,
  Bool, contains, keep, leb, ℕ, ◌∙◌,
}

module _ {A : Type 0} (key : A → String) where
  -- SELECT … WHERE key = ?
  unfoldable pub find : String → List A → Option A
  find k [] = none
  find k (r ∷ rows) = if str_eq (key r) k then some r else find k rows

  -- UPDATE … SET … WHERE key = ?
  unfoldable pub update_at : String → (A → A) → List A → List A
  update_at k f [] = []
  update_at k f (r ∷ rows) = (if str_eq (key r) k then f r else r) ∷ update_at k f rows

  -- DELETE … WHERE key = ?
  unfoldable pub delete_at : String → List A → List A
  delete_at k [] = []
  delete_at k (r ∷ rows) =
      let rest = delete_at k rows in if str_eq (key r) k then rest else r ∷ rest

  pub find-update_at :
      (j k : String) (f : A → A) (rows : List A)
      → ((r : A) → key (f r) ≡ k)
      → find j (update_at k f rows)
        ≡ (if str_eq k j then Option.map f (find j rows) else find j rows)
  unfolding find update_at
  find-update_at j k f [] h = ground arith
  find-update_at j k f (r ∷ rows) h = ground (
    arith,
    h r,
    eq_iff (key r) k,
    eq_iff (key r) j,
    eq_iff k j,
    eq_iff (key (f r)) j,
    find-update_at j k f rows h,
  )

  -- the same of an update that leaves the row's own key
  pub find-update_at_same :
      (j k : String) (f : A → A) (rows : List A)
      → ((r : A) → key (f r) ≡ key r)
      → find j (update_at k f rows)
        ≡ (if str_eq k j then Option.map f (find j rows) else find j rows)
  unfolding find update_at
  find-update_at_same j k f [] h = ground arith
  find-update_at_same j k f (r ∷ rows) h = ground (
    arith,
    h r,
    eq_iff (key r) k,
    eq_iff (key r) j,
    eq_iff k j,
    eq_iff (key (f r)) j,
    find-update_at_same j k f rows h,
  )

  pub find-delete_at :
      (j k : String) (rows : List A)
      → find j (delete_at k rows) ≡ (if str_eq k j then none else find j rows)
  unfolding find delete_at
  find-delete_at j k [] = ground arith
  find-delete_at j k (r ∷ rows) =
      ground (arith, eq_iff (key r) k, eq_iff (key r) j, eq_iff k j, find-delete_at j k rows)

  pub find-append :
      (j : String) (rows : List A) (r : A)
      → find j (rows ++ r ∷ [])
        ≡ elim (find j rows) [ some x ↦ some x | none ↦ if str_eq (key r) j then some r else none ]
  unfolding find
  find-append j [] r = refl
  find-append j (x ∷ rows) r = ground (arith, find-append j rows r)

  -- the row that is found has the key
  pub key-find : (k : String) (rows : List A) (r : A) → find k rows ≡ some r → key r ≡ k
  unfolding find
  key-find k [] r h = cc
  key-find k (x ∷ rows) r h = ground (arith, eq_iff (key x) k, key-find k rows r)

  -- an update without a row to set changes nothing
  pub update_at-missing :
      (k : String) (f : A → A) (rows : List A) → find k rows ≡ none → update_at k f rows ≡ rows
  unfolding find update_at
  update_at-missing k f [] h = refl
  update_at-missing k f (r ∷ rows) h = ground (arith, update_at-missing k f rows)

-- SELECT … ORDER BY a column of numbers: rows with equal values keep the order of the table.
module _ {A : Type 0} (by : A → ℕ) where
  unfoldable pub insert_by : A → List A → List A
  insert_by x [] = x ∷ []
  insert_by x (y ∷ ys) =
      let rest = insert_by x ys in if leb (by x) (by y) then x ∷ y ∷ ys else y ∷ rest

  unfoldable pub in_order : List A → List A
  in_order [] = []
  in_order (x ∷ xs) = insert_by x (in_order xs)

-- a column of a table
abbrev pub column : {A : Type 0} → (A → String) → List A → List String
column key [] = []
column key (x ∷ xs) = key x ∷ column key xs

module _ {A : Type 0} (by : A → ℕ) (key : A → String) (p : A → Bool) (k : String) where
  contains-insert_by :
      (x : A) (ys : List A)
      → contains k (column key (keep p (insert_by by x ys)))
        ≡ contains k (column key (keep p (x ∷ ys)))
  unfolding insert_by keep contains
  contains-insert_by x [] = refl
  contains-insert_by x (y ∷ ys) = ground (arith, contains-insert_by x ys)

  -- the order decides nothing about what is there
  pub contains-in_order :
      (xs : List A)
      → contains k (column key (keep p (in_order by xs))) ≡ contains k (column key (keep p xs))
  unfolding in_order keep contains
  contains-in_order [] = refl
  contains-in_order (x ∷ xs) =
      contains-insert_by x (in_order by xs) ∙ ground (arith, contains-in_order xs)
