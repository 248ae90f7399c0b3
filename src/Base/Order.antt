-- ===== src/Base/Order.antt =====
-- ORDER BY with a total and transitive order: the first row is the greatest, and no row is lost.
use mathlib.Core.Path.{◌≡◌}
use mathlib.Core.Logic.{inl, inr}
use mathlib.Core.Bool.{Bool, true, false}
use mathlib.Core.Option.{some}
use mathlib.Core.List.{List, [], ◌∷◌}
use native.Mathlib.Omega.{arith}
use openvpn_server.Base.Tests.{Bool-cases}
use openvpn_server.Base.Lists.{Member, head?}
use openvpn_server.Base.Tables.{
  insert_sorted, order_by, select, Member-insert_sorted, Member-select, Member-order_by,
}

pub record IsOrder {A : Type 0} (le : A → A → Bool) : Type 0 where
  pub total : (a b : A) → le a b ≡ false → le b a ≡ true
  pub trans : (a b c : A) → le a b ≡ true → le b c ≡ true → le a c ≡ true

-- What stands in a list stands in the sorted list, and a row that passes the test in the selection.
module _ {A : Type 0} where
  Member-insert_sorted_of :
      (le : A → A → Bool) (a x : A) (xs : List A)
      → Member a (x ∷ xs)
      → Member a (insert_sorted le x xs)
  unfolding insert_sorted
  Member-insert_sorted_of le a x [] m = m
  Member-insert_sorted_of le a x (y ∷ ys) m = ground (arith, Member-insert_sorted_of le a x ys)

  pub Member-order_by_of :
      (le : A → A → Bool) (a : A) (xs : List A) → Member a xs → Member a (order_by le xs)
  unfolding order_by
  Member-order_by_of le a [] m = m
  Member-order_by_of le a (x ∷ xs) (inl e) = Member-insert_sorted_of le a x (order_by le xs) (inl e)
  Member-order_by_of le a (x ∷ xs) (inr m) =
      Member-insert_sorted_of le a x (order_by le xs) (inr (Member-order_by_of le a xs m))

  pub Member-select_of :
      (test : A → Bool) (a : A) (xs : List A)
      → Member a xs
      → test a ≡ true
      → Member a (select test xs)
  unfolding select
  Member-select_of test a [] m h = m
  Member-select_of test a (x ∷ xs) m h = ground (arith, Member-select_of test a xs)

module _ {A : Type 0} (le : A → A → Bool) (o : IsOrder le) where
  le_refl : (a : A) → le a a ≡ true
  le_refl a = elim (Bool-cases (le a a)) [ inl e ↦ e | inr e ↦ o.total a a e ]

  -- The first row of the list stands before every other.
  abbrev Least : List A → Type 0
  Least [] = Unit
  Least (x ∷ xs) = (y : A) → Member y (x ∷ xs) → le x y ≡ true

  Least-insert_sorted : (x : A) (xs : List A) → Least xs → Least (insert_sorted le x xs)
  unfolding insert_sorted
  Least-insert_sorted x [] h = λ y m. ground (arith, le_refl x)
  Least-insert_sorted x (y ∷ ys) h = elim (Bool-cases (le x y)) [
    | inl e ↦
        rw e
          (λ z m. elim m [ inl same ↦ rw same (le_refl x) | inr rest ↦ o.trans x y z e (h z rest) ])
    | inr e ↦ rw e (λ z m. elim m [
      | inl same ↦ rw same (le_refl y)
      | inr rest ↦ elim (Member-insert_sorted le z x ys rest) [
        | inl new ↦ rw new (o.total x y e)
        | inr old ↦ h z (inr old)
      ]
    ])
  ]

  Least-order_by : (xs : List A) → Least (order_by le xs)
  unfolding order_by
  Least-order_by [] = tt
  Least-order_by (x ∷ xs) = Least-insert_sorted x (order_by le xs) (Least-order_by xs)

  Member-of_head : (x : A) (ys : List A) → head? ys ≡ some x → Member x ys
  Member-of_head x [] h = cc
  Member-of_head x (y ∷ ys) h = inl (cc)

  Least-of_head :
      (x : A) (ys : List A) → head? ys ≡ some x → Least ys → (y : A) → Member y ys → le x y ≡ true
  Least-of_head x [] h l y m = elim m [ ]
  Least-of_head x (z ∷ ys) h l y m = let e : z ≡ x = cc in rw (← e) (l y m)

  -- `ORDER BY ... LIMIT 1` returns a row of the selection that stands before every other.
  pub head-order_by :
      (test : A → Bool) (x : A) (xs : List A)
      → head? (order_by le (select test xs)) ≡ some x
      → Member x xs × (test x ≡ true) × ((y : A) → Member y xs → test y ≡ true → le x y ≡ true)
  head-order_by test x xs h =
      let (found, passes) = Member-select test x xs (
        Member-order_by le x (select test xs)
          (Member-of_head x (order_by le (select test xs)) h)) in
      (
        found,
        passes,
        λ y m t.
            Least-of_head x (order_by le (select test xs)) h (Least-order_by (select test xs)) y
              (Member-order_by_of le y (select test xs) (Member-select_of test y xs m t)),
      )
