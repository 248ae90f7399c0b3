-- ===== src/Db/Grouping.antt =====
-- SQL's GROUP BY: the groups of a table's rows by their key.
use openvpn_server.Base.{
  ◌≡◌, ◌↔◌, refl, sym, ap, ◌∙◌, subst, Bool, true, false, Bool-cases, inl, inr, List, [], ◌∷◌,
  if◌then◌else◌, select,
}

module _ {A K : Type 0} (eq : K → K → Bool) (key : A → K) where
  unfoldable pub insert_group : K → A → List (K × List A) → List (K × List A)
  insert_group j x [] = (j, x ∷ []) ∷ []
  insert_group j x ((k, xs) ∷ groups) =
      if eq k j then (k, x ∷ xs) ∷ groups else (k, xs) ∷ insert_group j x groups

  -- The keys, each with its rows in their order.
  unfoldable pub group_by : List A → List (K × List A)
  group_by [] = []
  group_by (x ∷ xs) = insert_group (key x) x (group_by xs)

  -- The rows under a key.
  unfoldable pub group_at : K → List (K × List A) → List A
  group_at j [] = []
  group_at j ((k, xs) ∷ groups) = if eq k j then xs else group_at j groups

  module _ (eq_iff : (a b : K) → (eq a b ≡ true) ↔ (a ≡ b)) where
    group_at-insert_same :
        (j : K) (x : A) (groups : List (K × List A))
        → group_at j (insert_group j x groups) ≡ x ∷ group_at j groups
    unfolding group_at insert_group
    group_at-insert_same j x [] = rw ((eq_iff j j).1 refl) refl
    group_at-insert_same j x ((k, xs) ∷ groups) = elim (Bool-cases (eq k j)) [
      | inl same ↦ rw (same, same) refl
      | inr other ↦ rw (other, other) (group_at-insert_same j x groups)
    ]

    group_at-insert_other :
        (i j : K) (x : A) (groups : List (K × List A))
        → eq j i ≡ false
        → group_at i (insert_group j x groups) ≡ group_at i groups
    unfolding group_at insert_group
    group_at-insert_other i j x [] h = rw h refl
    group_at-insert_other i j x ((k, xs) ∷ groups) h = elim (Bool-cases (eq k j)) [
      | inl same ↦
          let differs = subst (λ y. eq y i ≡ false) (sym ((eq_iff k j).0 same)) h in
          rw (same, differs) refl
      | inr other ↦ elim (Bool-cases (eq k i)) [
        | inl here ↦ rw (other, here) refl
        | inr later ↦ rw (other, later) (group_at-insert_other i j x groups h)
      ]
    ]

    -- The rows under a key are those of the table that have it.
    pub group_at-group_by :
        (j : K) (xs : List A) → group_at j (group_by xs) ≡ select (λ x. eq (key x) j) xs
    unfolding group_at group_by select
    group_at-group_by j [] = refl
    group_at-group_by j (x ∷ xs) = elim (Bool-cases (eq (key x) j)) [
      | inl same ↦ rw same (
          subst
            (λ k. group_at j (insert_group k x (group_by xs)) ≡ x ∷ select (λ y. eq (key y) j) xs)
            (sym ((eq_iff (key x) j).0 same))
            (group_at-insert_same j x (group_by xs) ∙ ap (λ l. x ∷ l) (group_at-group_by j xs)))
      | inr other ↦
          rw other (group_at-insert_other j (key x) x (group_by xs) other ∙ group_at-group_by j xs)
    ]
