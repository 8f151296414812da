-- ===== src/Queue/Bolt.antt =====
-- What the storage of internal/queue uses of go.etcd.io/bbolt, which is not part of the repository,
-- and of the text form of a time (RFC3339Nano): parameters, with the laws that the code relies on.
pub mod Sample
use sendry.Base.{
  ℕ, ◌≡◌, ◌≢◌, List, [], ◌∷◌, ◌++◌, Option, none, some, Text, text_eq, lookup, All, if◌then◌else◌,
}
use sendry.Queue.Message.{Stored}

-- A bucket. `put` gives `none` where bbolt returns an error, as for an empty key; `entries` is what
-- a cursor runs through, key after key.
pub record BucketApi (V : Type 0) : Type 1 where
  pub Carrier : Type 0
  pub empty : Carrier
  pub get : Carrier → Text → Option V
  pub put : Carrier → Text → V → Option Carrier
  pub delete : Carrier → Text → Carrier
  pub entries : Carrier → List (Text × V)
  pub get-empty : (k : Text) → get empty k ≡ none
  pub get-put :
      (b c : Carrier) (k j : Text) (v : V)
      → put b k v ≡ some c
      → get c j ≡ (if text_eq k j then some v else get b j)
  pub get-delete :
      (b : Carrier) (k j : Text) → get (delete b k) j ≡ (if text_eq k j then none else get b j)
  pub entries-get : (b : Carrier) → All (λ p. get b p.0 ≡ some p.1) (entries b)
  pub lookup-entries : (b : Carrier) (k : Text) → lookup k (entries b) ≡ get b k

-- `format` is `t.Format(time.RFC3339Nano)`, and `parse` is `time.Parse`, with the zero time where
-- it fails; `stored_len` is the length of a stored value in bytes.
pub record Env : Type 1 where
  pub msgs : BucketApi Stored
  pub index : BucketApi Text
  pub format : ℕ → Text
  pub parse : Text → ℕ
  pub stored_len : Stored → ℕ
  pub parse-format : (t : ℕ) → parse (format t) ≡ t
  pub format-unique :
      (t u : ℕ) (x y : Text) → format t ++ (b':' ∷ x) ≡ format u ++ (b':' ∷ y) → x ≡ y
