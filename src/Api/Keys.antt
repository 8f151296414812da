-- ===== src/Api/Keys.antt =====
-- The statements of internal/web/repository/apikey.go on the rows of the keys. SHA-256 and the random
-- bytes of a new key are parameters.
use sendry.Base.{
  ℕ, Bool, true, false, not, Option, none, some, List, [], ◌∷◌, ◌++◌, Text, codes, text_eq,
  if◌then◌else◌, find, select, has_key,
}
use sendry.Api.{ApiKey}

pub record KeyOptions : Type 0 where
  pub name : Text
  pub allowed_domains : List Text
  pub expires_at : Option ℕ
  pub rate_limit_minute : ℕ
  pub rate_limit_hour : ℕ

-- The key is shown once; the table holds its hash.
unfoldable pub create_key :
    (Text → Text) → Text → Text → KeyOptions → List ApiKey → ApiKey × Text × List ApiKey
create_key hash_key id random o ks =
    let key = codes "sk_" ++ random in
    let made : ApiKey = record {
      id = id;
      name = o.name;
      key_hash = hash_key key;
      allowed_domains = o.allowed_domains;
      rate_limit_minute = o.rate_limit_minute;
      rate_limit_hour = o.rate_limit_hour;
      last_used_at = none;
      expires_at = o.expires_at;
      active = true;
    } in
    (made, key, ks ++ (made ∷ []))

unfoldable pub get_key : Text → List ApiKey → Option ApiKey
get_key id = find (λ k. text_eq k.id id)

unfoldable pub get_by_hash : Text → List ApiKey → Option ApiKey
get_by_hash h = find (λ k. text_eq k.key_hash h)

unfoldable pub update_key : (ApiKey → ApiKey) → Text → List ApiKey → List ApiKey
update_key f id [] = []
update_key f id (k ∷ ks) =
    let rest = update_key f id ks in if text_eq k.id id then f k ∷ rest else k ∷ rest

unfoldable pub update_last_used : Text → ℕ → List ApiKey → List ApiKey
update_last_used id now = update_key (λ k. record k { last_used_at = some now }) id

abbrev pub key_id : ApiKey → Text
key_id k = k.id

-- An UPDATE or a DELETE that meets no row is an error, `none`.
unfoldable pub affecting : Text → List ApiKey → List ApiKey → Option (List ApiKey)
affecting id ks ks' = if has_key key_id id ks then some ks' else none

unfoldable pub deactivate : Text → List ApiKey → Option (List ApiKey)
deactivate id ks = affecting id ks (update_key (λ k. record k { active = false }) id ks)

unfoldable pub activate : Text → List ApiKey → Option (List ApiKey)
activate id ks = affecting id ks (update_key (λ k. record k { active = true }) id ks)

unfoldable pub toggle_active : Text → List ApiKey → Option (Bool × List ApiKey)
toggle_active id ks = elim (get_key id ks) [
  | none ↦ none
  | some k ↦
      let now_active = not k.active in
      some (now_active, update_key (λ k. record k { active = now_active }) id ks)
]

unfoldable pub delete_key : Text → List ApiKey → Option (List ApiKey)
delete_key id ks = affecting id ks (select (λ k. not (text_eq k.id id)) ks)

unfoldable pub update_settings :
    Text → Text → List Text → ℕ → ℕ → List ApiKey → Option (List ApiKey)
update_settings id name domains minute hour ks = affecting id ks (
    update_key
      (λ k. record k {
        name = name;
        allowed_domains = domains;
        rate_limit_minute = minute;
        rate_limit_hour = hour;
      })
      id ks)
