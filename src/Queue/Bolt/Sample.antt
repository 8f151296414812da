-- ===== src/Queue/Bolt/Sample.antt =====
-- A bucket and a text form of the time that keep the laws, on which the storage can be run: an
-- association list in the order of the writes, and unary numerals.
use sendry.Base.{
  ℕ, zero, suc, ◌≡◌, refl, false, Bool-cases, inl, inr, Option, none, some, List, [], ◌∷◌, ◌++◌,
  Text, Dict, text_eq, text_eq_iff, lookup, remove, lookup-remove, All, length, if◌then◌else◌,
  arith,
}
use sendry.Queue.Message.{Stored}
use sendry.Queue.Bolt.{BucketApi, Env}

-- The entries that count.
unfoldable pub newest : {V : Type 0} → Dict V → Dict V
newest [] = []
newest ((k, v) ∷ b) = (k, v) ∷ remove k (newest b)

pub lookup-newest : {V : Type 0} → (k : Text) (b : Dict V) → lookup k (newest b) ≡ lookup k b
unfolding newest lookup
lookup-newest k [] = refl
lookup-newest k ((j, v) ∷ b) = ground (arith, lookup-remove j k (newest b), lookup-newest k b)

remove-All :
    {V : Type 0}
    → (P : Text × V → Type 0) (k : Text) (b : Dict V) → All P b
    → All (λ p. P p × (text_eq k p.0 ≡ false)) (remove k b)
unfolding remove
remove-All P k [] h = tt
remove-All P k ((j, v) ∷ b) h = elim (Bool-cases (text_eq j k)) [
  | inl same ↦ rw (same, remove) (remove-All P k b h.1)
  | inr differ ↦
      rw (differ, remove)
        ((h.0, ground (arith, differ, text_eq_iff j k, text_eq_iff k j)), remove-All P k b h.1)
]

All-map :
    {A : Type 0} {P Q : A → Type 0} (xs : List A) → ((x : A) → P x → Q x) → All P xs → All Q xs
All-map [] f h = tt
All-map (x ∷ xs) f h = (f x h.0, All-map xs f h.1)

pub newest-All : {V : Type 0} → (b : Dict V) → All (λ p. lookup p.0 b ≡ some p.1) (newest b)
unfolding newest lookup
newest-All [] = tt
newest-All ((k, v) ∷ b) = (
  ground (arith, text_eq_iff k k),
  All-map (remove k (newest b)) (λ p h. ground (arith, h.0, h.1))
      (remove-All (λ p. lookup p.0 b ≡ some p.1) k (newest b) (newest-All b)),
)

-- An empty key is refused, as bbolt does.
abbrev pub dict_put : {V : Type 0} → Dict V → Text → V → Option (Dict V)
dict_put b [] v = none
dict_put b (c ∷ k) v = some ((c ∷ k, v) ∷ b)

pub dict_put-get :
    {V : Type 0}
    → (b c : Dict V) (k j : Text) (v : V) → dict_put b k v ≡ some c
    → lookup j c ≡ (if text_eq k j then some v else lookup j b)
unfolding lookup
dict_put-get b c [] j v h = absurd (ground arith)
dict_put-get b c (d ∷ k) j v h = let same : c ≡ (d ∷ k, v) ∷ b = ground arith in rw same refl

pub lookup-empty : {V : Type 0} (k : Text) → ◌≡◌ {A = Option V} (lookup k []) none
unfolding lookup
lookup-empty k = refl

abbrev pub dict_bucket : (V : Type 0) → BucketApi V
dict_bucket V = record {
  Carrier = Dict V;
  empty = [];
  get = λ b k. lookup k b;
  put = dict_put;
  delete = λ b k. remove k b;
  entries = newest;
  get-empty = lookup-empty;
  get-put = dict_put-get;
  get-delete = λ b k j. lookup-remove k j b;
  entries-get = newest-All;
  lookup-entries = λ b k. lookup-newest k b;
}

abbrev pub numeral : ℕ → Text
numeral zero = []
numeral (suc n) = b'1' ∷ numeral n

pub numeral-length : (t : ℕ) → length (numeral t) ≡ t
numeral-length zero = refl
numeral-length (suc n) = omega (arith, numeral-length n)

pub numeral_unique :
    (t u : ℕ) (x y : Text) → numeral t ++ (b':' ∷ x) ≡ numeral u ++ (b':' ∷ y) → x ≡ y
numeral_unique zero zero x y h = ground arith
numeral_unique zero (suc u) x y h = absurd (ground arith)
numeral_unique (suc t) zero x y h = absurd (ground arith)
numeral_unique (suc t) (suc u) x y h = numeral_unique t u x y (ground arith)

abbrev pub sample : Env
sample = record {
  msgs = dict_bucket Stored;
  index = dict_bucket Text;
  format = numeral;
  parse = length;
  stored_len = λ v. 1;
  parse-format = numeral-length;
  format-unique = numeral_unique;
}
