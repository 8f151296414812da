-- ===== src/Api/Issuing.antt =====
-- The life of a key: internal/web/repository/apikey.go under APIAuth of
-- internal/web/middleware/middleware.go.
use sendry.Base.{
  ℕ, ◌≡◌, refl, ap, true, false, not, none, some, List, [], ◌∷◌, ◌++◌, Text, codes, text_eq,
  text_eq_refl, find, select, has_key, any, has_prefix, arith, inl, inr, Dict, lookup,
}
use sendry.Api.{ApiKey}
use sendry.Api.Keys.{
  KeyOptions, create_key, get_by_hash, update_key, key_id, affecting, deactivate, activate,
  delete_key,
}
use sendry.Api.Limits.{KeyCounter, counter_of, reset_minute, reset_hours, exceeds, allow_key}
use sendry.Api.Auth.{refusal_of, token_of, is_expired, within_limits, api_auth}

token_of-bearer : (key x : Text) → token_of (codes "Bearer " ++ key) x ≡ key
unfolding token_of has_prefix
token_of-bearer key x = refl

module _ (id : Text) (k : ApiKey) (own : k.id ≡ id) where
  get_by_hash-last :
      (ks : List ApiKey)
      → get_by_hash k.key_hash ks ≡ none
      → get_by_hash k.key_hash (ks ++ (k ∷ [])) ≡ some k
  unfolding get_by_hash find
  get_by_hash-last [] e = ground (arith, text_eq_refl k.key_hash)
  get_by_hash-last (x ∷ xs) e = ground (arith, get_by_hash-last xs)

  has_key-last : (ks : List ApiKey) → has_key key_id id (ks ++ (k ∷ [])) ≡ true
  unfolding has_key any
  has_key-last [] = ground (arith, own, text_eq_refl id)
  has_key-last (x ∷ xs) = ground (arith, has_key-last xs)

  update_key-last :
      (f : ApiKey → ApiKey) (ks : List ApiKey)
      → has_key key_id id ks ≡ false
      → update_key f id (ks ++ (k ∷ [])) ≡ ks ++ (f k ∷ [])
  unfolding has_key any update_key
  update_key-last f [] e = ground (arith, own, text_eq_refl id)
  update_key-last f (x ∷ xs) e = ground (arith, update_key-last f xs)

  select-last :
      (ks : List ApiKey)
      → has_key key_id id ks ≡ false
      → select (λ x. not (text_eq x.id id)) (ks ++ (k ∷ [])) ≡ ks
  unfolding has_key any select
  select-last [] e = ground (arith, own, text_eq_refl id)
  select-last (x ∷ xs) e = ground (arith, select-last xs)

-- A key without a counter has not met a limit.
within_limits-new :
    (k : ApiKey) (now : ℕ) (m : Dict KeyCounter)
    → lookup k.id m ≡ none
    → (within_limits k now m).0 ≡ true
unfolding within_limits allow_key counter_of reset_minute reset_hours exceeds
within_limits-new k now m e = ground (arith, e)

-- The key that is issued, with its hash new and its id in neither the table nor the counters, lets a
-- request in that gives it as its token, if it has not expired; it lets none in after it has been
-- deactivated, and is as before when it is activated again; and deleting it leaves the table as before.
pub api_auth-create_key :
    (hash_key : Text → Text) (id random x_api_key : Text) (o : KeyOptions) (ks : List ApiKey)
    (now : ℕ) (m : Dict KeyCounter)
    → get_by_hash (hash_key (codes "sk_" ++ random)) ks ≡ none
    → has_key key_id id ks ≡ false
    → lookup id m ≡ none
    → is_expired now (create_key hash_key id random o ks).0 ≡ false
    → let (made, key, ks') = create_key hash_key id random o ks in
      let answer = λ (keys : List ApiKey).
        (api_auth hash_key (codes "Bearer " ++ key) x_api_key now keys m).0 in
      (answer ks' ≡ inr made)
      × ((off : List ApiKey) × (deactivate id ks' ≡ some off)
          × (answer off ≡ inl (refusal_of 401 (codes "API key is inactive")))
          × (activate id off ≡ some ks'))
      × (delete_key id ks' ≡ some ks)
      × (answer ks ≡ inl (refusal_of 401 (codes "Invalid API key")))
unfolding create_key api_auth deactivate activate delete_key affecting
api_auth-create_key hash_key id random x_api_key o ks now m fresh new unmet lives =
    let key = codes "sk_" ++ random in
    let made = (create_key hash_key id random o ks).0 in
    let off : ApiKey = record made { active = false } in
    (
      rw
          (
            api_auth,
            token_of-bearer key x_api_key,
            get_by_hash-last id made refl ks fresh,
            lives,
            within_limits-new made now m unmet,
          )
          refl,
      (
        ks ++ (off ∷ []),
        rw (deactivate, affecting, has_key-last id made refl ks)
            (ap some (update_key-last id made refl _ ks new)),
        rw (api_auth, token_of-bearer key x_api_key, get_by_hash-last id off refl ks fresh) refl,
        rw (activate, affecting, has_key-last id off refl ks)
            (ap some (update_key-last id off refl _ ks new)),
      ),
      rw (delete_key, affecting, has_key-last id made refl ks)
          (ap some (select-last id made refl ks new)),
      rw (api_auth, token_of-bearer key x_api_key, fresh) refl,
    )
