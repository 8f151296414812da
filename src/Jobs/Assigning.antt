-- ===== src/Jobs/Assigning.antt =====
-- Which server and which variant the function CampaignSend of internal/web/handlers/campaigns.go gives
-- to each recipient.
use native.Mathlib.Nat.{mod-add-mod, mod-lt, mod-one, zero-mod}
use sendry.Base.{
  ℕ, zero, suc, ◌+◌, ◌%◌, ◌<◌, ◌≡◌, refl, sym, ◌∙◌, some, List, [], ◌∷◌, Text, arith, length,
  if◌then◌else◌, ltb, inl, inr, Bool-cases,
}
use sendry.Jobs.{SendJobItem, Recipient, CampaignVariant}
use sendry.Jobs.Requests.{get_elem?, item_for, assign_items}

get_elem?-some {ℓ} :
    {A : Type ℓ} (xs : List A) (n : ℕ) → n < length xs → (x : A) × (get_elem? xs n ≡ some x)
unfolding get_elem?
get_elem?-some [] n h = absurd (omega arith)
get_elem?-some (x ∷ xs) zero h = (x, refl)
get_elem?-some (x ∷ xs) (suc n) h = get_elem?-some xs n (omega arith)

-- The recipients from number `n` on get the variants and the servers in turn.
pub data InTurn (job_id : Text) (variants : List CampaignVariant) (servers : List Text)
    : ℕ → List Recipient → List SendJobItem → Type 0 where
  nobody : {n : ℕ} → InTurn job_id variants servers n [] []
  somebody :
      {n : ℕ} {rs : List Recipient} {is : List SendJobItem} (r : Recipient) (v : CampaignVariant)
      (server : Text)
      → get_elem? variants (n % length variants) ≡ some v
      → get_elem? servers (n % length servers) ≡ some server
      → InTurn job_id variants servers (n + 1) rs is
      → InTurn job_id variants servers n (r ∷ rs) (item_for job_id r v server ∷ is)

next_variant : (n l : ℕ) → 0 < l → (if ltb 1 l then (n % l + 1) % l else n % l) ≡ (n + 1) % l
next_variant n l h = elim (Bool-cases (ltb 1 l)) [
  | inl b ↦ rw b (mod-add-mod n l 1)
  | inr b ↦ let one : l ≡ 1 = ground arith in rw (b, one) (mod-one n ∙ sym (mod-one (n + 1)))
]

module _ (job_id : Text) (variants : List CampaignVariant) (servers : List Text)
    (some_variant : 0 < length variants) (some_server : 0 < length servers) where
  assign_items-from :
      (n : ℕ) (rs : List Recipient)
      → (is : List SendJobItem) × (assign_items job_id variants servers
            (n % length servers)
            (n % length variants)
            rs
          ≡ some is)
        × InTurn job_id variants servers n rs is
  unfolding assign_items
  assign_items-from n [] = ([], refl, nobody)
  assign_items-from n (r ∷ rs) =
      let (v, ev) = get_elem?-some variants (n % length variants) (mod-lt n some_variant) in
      let (server, es) = get_elem?-some servers (n % length servers) (mod-lt n some_server) in
      let (is, e, t) = assign_items-from (n + 1) rs in
      (
        item_for job_id r v server ∷ is,
        rw
            (
              assign_items,
              next_variant n (length variants) some_variant,
              mod-add-mod n (length servers) 1,
              ev,
              es,
              e,
            )
            refl,
        somebody r v server ev es t,
      )

  assign_items-at :
      (n i j : ℕ) (rs : List Recipient)
      → i ≡ n % length servers
      → j ≡ n % length variants
      → (is : List SendJobItem) × (assign_items job_id variants servers i j rs ≡ some is)
        × InTurn job_id variants servers n rs is
  assign_items-at n i j rs e f = rw (e, f) (assign_items-from n rs)

  -- With at least one variant and one server, the loop of CampaignSend runs to its end without an index
  -- out of range: the recipient number n, counted from 0, gets an item with the variant n modulo the
  -- number of variants and the server n modulo the number of servers, and there are no other items. The
  -- weights of the variants change nothing.
  pub assign_items-InTurn :
      (rs : List Recipient)
      → (is : List SendJobItem) × (assign_items job_id variants servers 0 0 rs ≡ some is)
        × InTurn job_id variants servers 0 rs is
  assign_items-InTurn rs =
      assign_items-at 0 0 0 rs (sym (zero-mod (length servers))) (sym (zero-mod (length variants)))
