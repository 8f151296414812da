-- ===== src/Jobs/Creating.antt =====
-- The items that CreateItems of internal/web/repository/job.go adds, with the ids of uuid.New.
use sendry.Base.{
  ℕ, suc, ◌≡◌, ◌≢◌, ◌≤◌, refl, false, ◌||◌, List, [], ◌∷◌, ◌++◌, Text, text_eq, All, any, arith,
  has_key, DistinctKeys, Bool,
}
use sendry.Jobs.{SendJobItem}
use sendry.Jobs.Repository.{new_item, new_items}
use sendry.Jobs.Requests.{with_ids}
use sendry.Jobs.Changes.{item_key, has_row}

-- What uuid.New promises: no id comes twice.
abbrev pub AllDifferent : (ℕ → Text) → Type 0
AllDifferent ids = (n m : ℕ) → n ≢ m → text_eq (ids n) (ids m) ≡ false

module _ (ids : ℕ → Text) (now : ℕ) where
  pub has_key-new :
      (k : Text) (m : ℕ) (is : List SendJobItem)
      → ((n : ℕ) → m ≤ n → text_eq (ids n) k ≡ false)
      → has_key item_key k (new_items now (with_ids ids m is)) ≡ false
  unfolding has_key any new_items with_ids new_item
  has_key-new k m [] f = refl
  has_key-new k m (i ∷ is) f =
      ground (arith, f m, has_key-new k (suc m) is (λ n h. f n (omega arith)))

  pub distinct-new :
      (m : ℕ) (is : List SendJobItem)
      → AllDifferent ids
      → DistinctKeys item_key (new_items now (with_ids ids m is))
  unfolding new_items with_ids new_item
  distinct-new m [] d = tt
  distinct-new m (i ∷ is) d =
      (has_key-new (ids m) (suc m) is (λ n h. d n m (omega arith)), distinct-new (suc m) is d)

  pub fresh-new :
      (m : ℕ) (is old : List SendJobItem)
      → ((n : ℕ) → has_key item_key (ids n) old ≡ false)
      → All
          (λ (i : SendJobItem). has_key item_key i.id old ≡ false)
          (new_items now (with_ids ids m is))
  unfolding new_items with_ids new_item
  fresh-new m [] old f = tt
  fresh-new m (i ∷ is) old f = (f m, fresh-new (suc m) is old f)

pub has_row-append :
    (p : SendJobItem → Bool) (k : Text) (xs ys : List SendJobItem)
    → has_row p k (xs ++ ys) ≡ (has_row p k xs || has_row p k ys)
unfolding has_row any
has_row-append p k [] ys = refl
has_row-append p k (x ∷ xs) ys = ground (arith, has_row-append p k xs ys)
