-- ===== src/Base/Sorting.antt =====
-- Rows of a table as lists: the first that passes a test, the order of an ORDER BY, and rows whose
-- keys are all different.
use Prim.Native.Nat.{suc, ℕ, zero}
use mathlib.Core.Path.{◌≡◌, refl}
use mathlib.Core.Bool.{Bool, true, false, ◌||◌, ◌&&◌}
use mathlib.Core.Option.{Option, none, some}
use mathlib.Core.List.{List, [], ◌∷◌, ◌++◌}
use native.Mathlib.Omega.{arith}
use sendry.Base.Tests.{if◌then◌else◌}
use sendry.Base.Bytes.{Text, text_eq, text_eq_iff, text_eq_refl}
use sendry.Base.Lists.{length, take, select, any, All, All-map}

module _ {ℓ} {A : Type ℓ} where
  unfoldable pub find : (A → Bool) → List A → Option A
  find p [] = none
  find p (x ∷ xs) = if p x then some x else find p xs

  -- How many elements pass the test.
  unfoldable pub count : (A → Bool) → List A → ℕ
  count p [] = 0
  count p (x ∷ xs) = let rest = count p xs in if p x then suc rest else rest

  unfoldable pub insert_in_order : (A → A → Bool) → A → List A → List A
  insert_in_order before x [] = x ∷ []
  insert_in_order before x (y ∷ ys) =
      let rest = insert_in_order before x ys in if before x y then x ∷ y ∷ ys else y ∷ rest

  -- A stable sort: rows that are equal in the order keep their places.
  unfoldable pub order_by : (A → A → Bool) → List A → List A
  order_by before [] = []
  order_by before (x ∷ xs) = insert_in_order before x (order_by before xs)

  any-insert_in_order :
      (before : A → A → Bool) (p : A → Bool) (x : A) (ys : List A)
      → any p (insert_in_order before x ys) ≡ (p x || any p ys)
  unfolding any insert_in_order
  any-insert_in_order before p x [] = refl
  any-insert_in_order before p x (y ∷ ys) = ground (arith, any-insert_in_order before p x ys)

  pub any-order_by :
      (before : A → A → Bool) (p : A → Bool) (xs : List A) → any p (order_by before xs) ≡ any p xs
  unfolding any order_by
  any-order_by before p [] = refl
  any-order_by before p (x ∷ xs) =
      ground (arith, any-insert_in_order before p x (order_by before xs), any-order_by before p xs)

  length-insert_in_order :
      (before : A → A → Bool) (x : A) (ys : List A)
      → length (insert_in_order before x ys) ≡ suc (length ys)
  unfolding insert_in_order
  length-insert_in_order before x [] = refl
  length-insert_in_order before x (y ∷ ys) = ground (arith, length-insert_in_order before x ys)

  pub length-order_by :
      (before : A → A → Bool) (xs : List A) → length (order_by before xs) ≡ length xs
  unfolding order_by
  length-order_by before [] = refl
  length-order_by before (x ∷ xs) =
      ground
        (arith, length-insert_in_order before x (order_by before xs), length-order_by before xs)

  pub length-select : (p : A → Bool) (xs : List A) → length (select p xs) ≡ count p xs
  unfolding select count
  length-select p [] = refl
  length-select p (x ∷ xs) = ground (arith, length-select p xs)

  pub count-select :
      (p q : A → Bool) (xs : List A) → count p (select q xs) ≡ count (λ x. q x && p x) xs
  unfolding select count
  count-select p q [] = refl
  count-select p q (x ∷ xs) = ground (arith, count-select p q xs)

  All-insert_in_order {κ} :
      (before : A → A → Bool) (P : A → Type κ) (x : A) (ys : List A)
      → P x
      → All P ys
      → All P (insert_in_order before x ys)
  unfolding insert_in_order
  All-insert_in_order before P x [] h hs = (h, tt)
  All-insert_in_order before P x (y ∷ ys) h hs =
      ground (arith, All-insert_in_order before P x ys h hs.1)

  pub All-order_by {κ} :
      (before : A → A → Bool) (P : A → Type κ) (xs : List A) → All P xs → All P (order_by before xs)
  unfolding order_by
  All-order_by before P [] h = tt
  All-order_by before P (x ∷ xs) h =
      All-insert_in_order before P x (order_by before xs) h.0 (All-order_by before P xs h.1)

  pub All-take {κ} : (P : A → Type κ) (n : ℕ) (xs : List A) → All P xs → All P (take n xs)
  All-take P zero xs h = tt
  All-take P (suc n) [] h = tt
  All-take P (suc n) (x ∷ xs) h = (h.0, All-take P n xs h.1)

module _ {ℓ} {A : Type ℓ} (key : A → Text) where
  -- Another row with the key of `x`.
  unfoldable pub has_key : Text → List A → Bool
  has_key k = any (λ y. text_eq (key y) k)

  abbrev pub DistinctKeys : List A → Type 0
  DistinctKeys [] = Unit {0}
  DistinctKeys (x ∷ xs) = (has_key (key x) xs ≡ false) × DistinctKeys xs

  DistinctKeys-insert_in_order :
      (before : A → A → Bool) (x : A) (ys : List A)
      → has_key (key x) ys ≡ false
      → DistinctKeys ys
      → DistinctKeys (insert_in_order before x ys)
  unfolding insert_in_order has_key any
  DistinctKeys-insert_in_order before x [] h hs = (refl, tt)
  DistinctKeys-insert_in_order before x (y ∷ ys) h hs = ground (
    arith,
    any-insert_in_order before (λ z. text_eq (key z) (key y)) x ys,
    DistinctKeys-insert_in_order before x ys,
    text_eq_iff (key x) (key y),
    text_eq_iff (key y) (key x),
  )

  pub DistinctKeys-order_by :
      (before : A → A → Bool) (xs : List A) → DistinctKeys xs → DistinctKeys (order_by before xs)
  unfolding order_by has_key
  DistinctKeys-order_by before [] h = tt
  DistinctKeys-order_by before (x ∷ xs) h =
      DistinctKeys-insert_in_order before x (order_by before xs)
        (rw (any-order_by before (λ y. text_eq (key y) (key x)) xs) h.0)
        (DistinctKeys-order_by before xs h.1)

  has_key-take :
      (k : Text) (n : ℕ) (xs : List A) → has_key k xs ≡ false → has_key k (take n xs) ≡ false
  unfolding has_key any
  has_key-take k zero xs h = refl
  has_key-take k (suc n) [] h = refl
  has_key-take k (suc n) (x ∷ xs) h = ground (arith, has_key-take k n xs)

  pub DistinctKeys-take : (n : ℕ) (xs : List A) → DistinctKeys xs → DistinctKeys (take n xs)
  DistinctKeys-take zero xs h = tt
  DistinctKeys-take (suc n) [] h = tt
  DistinctKeys-take (suc n) (x ∷ xs) h = (has_key-take (key x) n xs h.0, DistinctKeys-take n xs h.1)

  pub has_key-select :
      (k : Text) (p : A → Bool) (xs : List A)
      → has_key k xs ≡ false
      → has_key k (select p xs) ≡ false
  unfolding has_key any select
  has_key-select k p [] h = refl
  has_key-select k p (x ∷ xs) h = ground (arith, has_key-select k p xs)

  pub DistinctKeys-select :
      (p : A → Bool) (xs : List A) → DistinctKeys xs → DistinctKeys (select p xs)
  unfolding select
  DistinctKeys-select p [] h = tt
  DistinctKeys-select p (x ∷ xs) h =
      ground (arith, has_key-select (key x) p xs h.0, DistinctKeys-select p xs h.1)

  pub has_key-others :
      (k : Text) (xs : List A)
      → has_key k xs ≡ false
      → All (λ (x : A). text_eq (key x) k ≡ false) xs
  unfolding has_key any
  has_key-others k [] h = tt
  has_key-others k (x ∷ xs) h = ground (arith, has_key-others k xs)

  -- Every row has its own key in the list.
  pub has_key-own : (xs : List A) → All (λ (x : A). has_key (key x) xs ≡ true) xs
  unfolding has_key any
  has_key-own [] = tt
  has_key-own (x ∷ xs) = (
    ground (arith, text_eq_refl (key x)),
    All-map (λ (y : A). has_key (key y) xs ≡ true) (λ (y : A). has_key (key y) (x ∷ xs) ≡ true) xs
        (λ y h. ground arith) (has_key-own xs),
  )

  pub has_key-append :
      (k : Text) (xs ys : List A) → has_key k (xs ++ ys) ≡ (has_key k xs || has_key k ys)
  unfolding has_key any
  has_key-append k [] ys = refl
  has_key-append k (x ∷ xs) ys = ground (arith, has_key-append k xs ys)

  -- A key that no row of the second list has in the first one is not in the second.
  absent_of_fresh :
      (x : A) (xs ys : List A)
      → All (λ (y : A). has_key (key y) (x ∷ xs) ≡ false) ys
      → (has_key (key x) ys ≡ false) × All (λ (y : A). has_key (key y) xs ≡ false) ys
  unfolding has_key any
  absent_of_fresh x xs [] a = (refl, tt)
  absent_of_fresh x xs (y ∷ ys) a =
      ground (
        arith,
        absent_of_fresh x xs ys a.1,
        text_eq_iff (key x) (key y),
        text_eq_iff (key y) (key x),
      )

  pub DistinctKeys-append :
      (xs ys : List A)
      → DistinctKeys xs
      → DistinctKeys ys
      → All (λ (y : A). has_key (key y) xs ≡ false) ys
      → DistinctKeys (xs ++ ys)
  DistinctKeys-append [] ys dx dy a = dy
  DistinctKeys-append (x ∷ xs) ys dx dy a =
      let f = absent_of_fresh x xs ys a in
      (ground (arith, has_key-append (key x) xs ys, f.0), DistinctKeys-append xs ys dx.1 dy f.1)

  -- A row that is found and does not pass a test is not among those that do.
  pub has_key-select_found :
      (k : Text) (p : A → Bool) (x : A) (xs : List A)
      → DistinctKeys xs
      → find (λ y. text_eq (key y) k) xs ≡ some x
      → p x ≡ false
      → has_key k (select p xs) ≡ false
  unfolding has_key any find select
  has_key-select_found k p x [] d f h = refl
  has_key-select_found k p x (y ∷ ys) d f h = ground (
    arith,
    text_eq_iff (key y) k,
    has_key-select (key y) p ys d.0,
    has_key-select_found k p x ys d.1,
  )

  -- One that is found and passes is.
  pub has_key-select_passes :
      (k : Text) (p : A → Bool) (x : A) (xs : List A)
      → find (λ y. text_eq (key y) k) xs ≡ some x
      → p x ≡ true
      → has_key k (select p xs) ≡ true
  unfolding has_key any find select
  has_key-select_passes k p x [] f h = absurd cc
  has_key-select_passes k p x (y ∷ ys) f h =
      ground (arith, text_eq_iff (key y) k, has_key-select_passes k p x ys)
