-- ===== src/Base/Tables.antt =====
-- Database tables as lists of rows: what SQL's SELECT, UPDATE, DELETE and ORDER BY do to them.
use Prim.Native.Nat.{ℕ, zero, suc}
use mathlib.Core.Path.{◌≡◌, refl, subst}
use mathlib.Core.Logic.{◌⊎◌, inl, inr}
use mathlib.Core.Bool.{Bool, true, false}
use mathlib.Core.List.{List, [], ◌∷◌, ◌++◌}
use native.Mathlib.Omega.{arith}
use openvpn_server.Base.Tests.{if◌then◌else◌}
use openvpn_server.Base.Lists.{Member, take}

module _ {ℓ} {A : Type ℓ} where
  -- SELECT ... WHERE test
  unfoldable pub select : (A → Bool) → List A → List A
  select test [] = []
  select test (x ∷ xs) = if test x then x ∷ select test xs else select test xs

  -- DELETE ... WHERE test
  unfoldable pub delete_where : (A → Bool) → List A → List A
  delete_where test [] = []
  delete_where test (x ∷ xs) = if test x then delete_where test xs else x ∷ delete_where test xs

  -- UPDATE ... SET set WHERE test
  unfoldable pub update_where : (A → Bool) → (A → A) → List A → List A
  update_where test set [] = []
  update_where test set (x ∷ xs) = (if test x then set x else x) ∷ update_where test set xs

  unfoldable pub insert_sorted : (A → A → Bool) → A → List A → List A
  insert_sorted le x [] = x ∷ []
  insert_sorted le x (y ∷ ys) = if le x y then x ∷ y ∷ ys else y ∷ insert_sorted le x ys

  -- ORDER BY, for `le x y` when `x` may stand before `y`; stable.
  unfoldable pub order_by : (A → A → Bool) → List A → List A
  order_by le [] = []
  order_by le (x ∷ xs) = insert_sorted le x (order_by le xs)

module _ {A : Type 0} where
  pub Member-select :
      (test : A → Bool) (x : A) (xs : List A)
      → Member x (select test xs)
      → Member x xs × (test x ≡ true)
  unfolding select
  Member-select test x [] m = elim m [ ]
  Member-select test x (y ∷ ys) m = ground (arith, Member-select test x ys)

  pub Member-insert_sorted :
      (le : A → A → Bool) (a x : A) (xs : List A)
      → Member a (insert_sorted le x xs)
      → Member a (x ∷ xs)
  unfolding insert_sorted
  Member-insert_sorted le a x [] m = m
  Member-insert_sorted le a x (y ∷ ys) m = ground (arith, Member-insert_sorted le a x ys)

  pub Member-order_by :
      (le : A → A → Bool) (a : A) (xs : List A) → Member a (order_by le xs) → Member a xs
  unfolding order_by
  Member-order_by le a [] m = m
  Member-order_by le a (x ∷ xs) m =
      ground (arith, Member-insert_sorted le a x (order_by le xs) m, Member-order_by le a xs)

  pub Member-take : (n : ℕ) (a : A) (xs : List A) → Member a (take n xs) → Member a xs
  Member-take zero a xs m = elim m [ ]
  Member-take (suc n) a [] m = m
  Member-take (suc n) a (x ∷ xs) m = ground (arith, Member-take n a xs)

  pub Member-delete_where :
      (test : A → Bool) (x : A) (xs : List A)
      → Member x (delete_where test xs)
      → Member x xs × (test x ≡ false)
  unfolding delete_where
  Member-delete_where test x [] m = elim m [ ]
  Member-delete_where test x (y ∷ ys) m = ground (arith, Member-delete_where test x ys)

  pub Member-snoc : (x y : A) (xs : List A) → Member x (xs ++ y ∷ []) → Member x xs ⊎ (x ≡ y)
  Member-snoc x y [] (inl e) = inr e
  Member-snoc x y [] (inr m) = elim m [ ]
  Member-snoc x y (z ∷ xs) (inl e) = inl (inl e)
  Member-snoc x y (z ∷ xs) (inr m) = elim (Member-snoc x y xs m) [
    | inl old ↦ inl (inr old)
    | inr new ↦ inr new
  ]

  pub Member-snoc_self : (x : A) (xs : List A) → Member x (xs ++ x ∷ [])
  Member-snoc_self x [] = inl refl
  Member-snoc_self x (y ∷ xs) = inr (Member-snoc_self x xs)

  pub Member-update_where :
      (test : A → Bool) (set : A → A) (x : A) (xs : List A)
      → Member x xs
      → test x ≡ true
      → Member (set x) (update_where test set xs)
  unfolding update_where
  Member-update_where test set x [] m t = elim m [ ]
  Member-update_where test set x (y ∷ ys) m t = elim m [
    | inl is ↦ inl (subst (λ u. set x ≡ (if test u then set u else u)) is (rw t refl))
    | inr later ↦ inr (Member-update_where test set x ys later t)
  ]

  pub Member-append : (x : A) (xs ys : List A) → Member x (xs ++ ys) → Member x xs ⊎ Member x ys
  Member-append x [] ys m = inr m
  Member-append x (y ∷ xs) ys m = elim m [
    | inl is ↦ inl (inl is)
    | inr later ↦ elim (Member-append x xs ys later) [
      | inl left ↦ inl (inr left)
      | inr right ↦ inr right
    ]
  ]

  pub Member-append_left : (x : A) (xs ys : List A) → Member x xs → Member x (xs ++ ys)
  Member-append_left x [] ys m = elim m [ ]
  Member-append_left x (y ∷ xs) ys (inl e) = inl e
  Member-append_left x (y ∷ xs) ys (inr m) = inr (Member-append_left x xs ys m)
