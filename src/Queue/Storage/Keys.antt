-- ===== src/Queue/Storage/Keys.antt =====
-- The keys of the indexes of internal/queue/storage.go.
use sendry.Base.{ℕ, ◌≡◌, ◌≢◌, refl, none, some, [], ◌∷◌, ◌++◌, All, Text, arith}
use sendry.Queue.Bolt.{Env}
use sendry.Queue.Storage.{before_last_colon, make_index_key, parse_timestamp_from_key}

abbrev pub NoColon : Text → Type 0
NoColon s = All (λ c. c ≢ b':') s

no_colon : (s : Text) → NoColon s → before_last_colon s ≡ none
unfolding before_last_colon
no_colon [] n = refl
no_colon (c ∷ s) n = ground (arith, no_colon s n.1, n.0)

before_colon : (s id : Text) → NoColon id → before_last_colon (s ++ (b':' ∷ id)) ≡ some s
unfolding before_last_colon
before_colon [] id n = ground (arith, no_colon id n)
before_colon (c ∷ s) id n = ground (arith, before_colon s id n)

-- The time of a key can be read back if the id has no ':' in it.
pub parse-make_index_key :
    (e : Env) (t : ℕ) (id : Text)
    → NoColon id
    → parse_timestamp_from_key e (make_index_key e t id) ≡ t
unfolding parse_timestamp_from_key make_index_key
parse-make_index_key e t id n = ground (arith, before_colon (e.format t) id n, e.parse-format t)
