-- ===== src/Queue/Storage/Retention.antt =====
-- What the cleanups of internal/queue/storage.go delete and keep.
use sendry.Base.{
  ℕ, zero, suc, ◌+◌, ◌-◌, ◌≡◌, ◌<◌, refl, Bool, Bool-cases, true, not, ◌&&◌, inl, inr, none, some,
  Option-cases, List, [], ◌∷◌, ◌++◌, All, any, select, Text, text_eq, text_eq_iff, text_eq_refl,
  lookup, ltb, if◌then◌else◌, length, length-append, take, arith,
}
use mathlib.Core.List.{append-nil}
use native.Mathlib.Nat.{sub-zero}
use sendry.Queue.Message.{Stored}
use sendry.Queue.Bolt.{Env}
use sendry.Queue.Storage.{Db, parse_timestamp_from_key}
use sendry.Queue.Storage.Cleanup.{
  is_old_delivered, old_delivered, delete_messages, cleanup_delivered, aged_items, surplus,
  delete_items, cleanup_dlq,
}

module _ (e : Env) where
  open e use {msgs, index}

  delete_messages-get :
      (ks : List Text) (b : msgs.Carrier) (k : Text)
      → msgs.get (delete_messages e ks b) k
        ≡ (if any (λ j. text_eq j k) ks then none else msgs.get b k)
  unfolding delete_messages any
  delete_messages-get [] b k = refl
  delete_messages-get (j ∷ ks) b k =
      ground (arith, delete_messages-get ks (msgs.delete b j) k, msgs.get-delete b j k)

  -- The keys that are collected are those of the entries whose value passes the test.
  old_delivered-any :
      (max_age now : ℕ) (es : List (Text × Stored)) (b : msgs.Carrier) (k : Text) (v : Stored)
      → All (λ p. msgs.get b p.0 ≡ some p.1) es
      → msgs.get b k ≡ some v
      → any (λ j. text_eq j k) (old_delivered max_age now es)
        ≡ (any (λ p. text_eq p.0 k) es && is_old_delivered max_age now v)
  unfolding old_delivered any
  old_delivered-any max_age now [] b k v a g = refl
  old_delivered-any max_age now ((j, w) ∷ es) b k v a g =
      ground (arith, old_delivered-any max_age now es b k v a.1 g, text_eq_iff j k, a.0)

  lookup-any :
      (es : List (Text × Stored)) (k : Text) (v : Stored)
      → lookup k es ≡ some v
      → any (λ p. text_eq p.0 k) es ≡ true
  unfolding lookup any
  lookup-any [] k v h = cc
  lookup-any ((j, w) ∷ es) k v h = ground (arith, lookup-any es k v)

  -- CleanupDelivered with an age deletes the delivered messages that were last updated before
  -- `now - max_age`, and nothing else: what is corrupted, has another status or is younger stays as
  -- it was.
  cleanup_delivered-get :
      (max_age now : ℕ) (db : Db e) (k : Text)
      → 0 < max_age
      → msgs.get (cleanup_delivered e max_age now db).1.messages k ≡ elim (msgs.get db.messages k) [
        | none ↦ none
        | some v ↦ if is_old_delivered max_age now v then none else some v
      ]
  unfolding cleanup_delivered
  cleanup_delivered-get max_age now db k h =
      let es = msgs.entries db.messages in
      let ks = old_delivered max_age now es in
      elim (Option-cases (msgs.get db.messages k)) [
        | inl g ↦ ground (arith, g, delete_messages-get ks db.messages k)
        | inr (v, g) ↦ ground (
          arith,
          g,
          delete_messages-get ks db.messages k,
          old_delivered-any max_age now es db.messages k v (msgs.entries-get db.messages) g,
          lookup-any es k v,
          msgs.lookup-entries db.messages k,
        )
      ]

abbrev pub Item : Type 0
Item = Text × Text

any-select :
    (test : Text → Bool) (k : Text) (items : List Item)
    → any (λ a. text_eq k a.0) (select (λ i. test i.0) items)
      ≡ (test k && any (λ a. text_eq k a.0) items)
unfolding any select
any-select test k [] = ground arith
any-select test k ((j, v) ∷ items) = ground (arith, any-select test k items, text_eq_iff k j)

take-step :
    (n : ℕ) (m : Item) (ms : List Item)
    → take n (m ∷ ms) ≡ (if ltb 0 n then m ∷ take (n - 1) ms else [])
take-step zero m ms = refl
take-step (suc n) m ms = let e : suc n - 1 ≡ n = omega arith in rw e (ground arith)

take_none : (n : ℕ) → ◌≡◌ {A = List Item} (take n []) []
take_none zero = refl
take_none (suc n) = refl

present-more :
    (z : Item) (zs ys : List Item)
    → All (λ i. any (λ a. text_eq i.0 a.0) zs ≡ true) ys
    → All (λ i. any (λ a. text_eq i.0 a.0) (z ∷ zs) ≡ true) ys
unfolding any
present-more z zs [] h = tt
present-more z zs (y ∷ ys) h = (ground (arith, h.0), present-more z zs ys h.1)

-- Every item of a list has a key of the list.
present : (ys : List Item) → All (λ i. any (λ a. text_eq i.0 a.0) ys ≡ true) ys
present [] = tt
present ((k, v) ∷ ys) = (unfold any in rw text_eq_refl, present-more (k, v) ys ys (present ys))

surplus-take :
    (test : Text → Bool) (all items : List Item) (n d : ℕ)
    → All (λ i. any (λ a. text_eq i.0 a.0) all ≡ true) items
    → surplus (select (λ i. test i.0) all) n d items
      ≡ take (n - d) (select (λ i. not (test i.0)) items)
unfolding surplus select
surplus-take test all [] n d h = ground (arith, take_none (n - d))
surplus-take test all ((k, v) ∷ items) n d h = ground (
  arith,
  any-select test k all,
  h.0,
  surplus-take test all items n d h.1,
  surplus-take test all items n (d + 1) h.1,
  take-step (n - d) (k, v) (select (λ i. not (test i.0)) items),
)

length-select :
    (test : Item → Bool) (items : List Item)
    → length (select test items) + length (select (λ i. not (test i)) items) ≡ length items
unfolding select
length-select test [] = omega arith
length-select test (i ∷ items) = ground (arith, length-select test items)

module _ (e : Env) where
  -- Older than `max_age`, if an age is set.
  pub is_aged : ℕ → ℕ → Text → Bool
  is_aged max_age now k = ltb 0 max_age && ltb (parse_timestamp_from_key e k + max_age) now

  aged_items-select :
      (max_age now : ℕ) (items : List Item)
      → aged_items e max_age now items ≡ select (λ i. is_aged max_age now i.0) items
  unfolding aged_items select is_aged
  aged_items-select max_age now [] = ground arith
  aged_items-select max_age now (i ∷ items) = ground (arith, aged_items-select max_age now items)

  delete_items-append :
      (xs ys : List Item) (db : Db e)
      → delete_items e ys (delete_items e xs db) ≡ delete_items e (xs ++ ys) db
  unfolding delete_items
  delete_items-append [] ys db = refl
  delete_items-append ((k, v) ∷ xs) ys db = delete_items-append xs ys _

  abbrev excess : ℕ → List Item → List Item
  excess count young = if ltb 0 count then take (length young - count) young else []

  delete_both :
      (aged young : List Item) (count : ℕ) (db : Db e)
      → ◌≡◌ {A = ℕ × Db e}
          (if ltb 0 count && ltb count (length young)
            then (
              length aged + length (take (length young - count) young),
              delete_items e (take (length young - count) young) (delete_items e aged db),
            )
            else (length aged, delete_items e aged db))
          (length (aged ++ excess count young), delete_items e (aged ++ excess count young) db)
  delete_both aged young count db = elim (Bool-cases (ltb 0 count)) [
    | inr unset ↦ rw (unset, append-nil aged)
    | inl set ↦ elim (Bool-cases (ltb count (length young))) [
      | inl more ↦ rw (set, more, delete_items-append, length-append aged)
      | inr fits ↦
          let e0 : length young - count ≡ 0 = ground (arith, fits) in
          rw (set, fits, e0, append-nil aged)
    ]
  ]

  -- The dead letters that a cleanup deletes: those that are too old, and as many of the first of
  -- the others as are more than `max_count`, if a count is set.
  pub victims : ℕ → ℕ → ℕ → List Item → List Item
  victims max_age max_count now items =
      let young = select (λ i. not (is_aged max_age now i.0)) items in
      select (λ i. is_aged max_age now i.0) items
      ++ (if ltb 0 max_count then take (length young - max_count) young else [])

  -- CleanupDLQ deletes exactly the dead letters that are older than the age, and of the others the
  -- first in the order of the index, until no more than `max_count` are left, with their messages;
  -- and it returns their number. An age or a count of 0 deletes nothing.
  cleanup_dlq-victims :
      (max_age max_count now : ℕ) (db : Db e)
      → let gone = victims max_age max_count now (e.index.entries db.dead_letter) in
        cleanup_dlq e max_age max_count now db ≡ (length gone, delete_items e gone db)
  unfolding cleanup_dlq victims
  cleanup_dlq-victims max_age max_count now db =
      let items = e.index.entries db.dead_letter in
      let aged = select (λ i. is_aged max_age now i.0) items in
      let young = select (λ i. not (is_aged max_age now i.0)) items in
      let total = length-select (λ i. is_aged max_age now i.0) items in
      let count : length items - length aged ≡ length young = omega (arith, total) in
      let over =
        surplus-take (is_aged max_age now) items items (length young - max_count) 0
          (present items) in
      rw (aged_items-select max_age now items, count, over, sub-zero)
        (delete_both aged young max_count db)
