-- ===== src/Api/Turns.antt =====
-- The round robin of internal/web/router/router.go, and when it panics.
use native.Mathlib.Nat.{mod-add-mod, mod-one, zero-mod}
use sendry.Base.{
  ℕ, zero, suc, ◌+◌, ◌%◌, ◌≤◌, ◌<◌, ◌≡◌, ◌≢◌, ◌↔◌, refl, sym, ap, ◌∙◌, none, List, [], ◌∷◌, Text,
  text_eq_refl, length, ◌==◌, false, Bool-cases, inl, inr, Dict, lookup, insert, lookup-insert,
  arith,
}
use sendry.Api.{ServerInfo}
use sendry.Api.Selection.{
  RouterConfig, round_robin, server_at, counter_at, round_robin_select, choose_server,
  select_server,
}

server_at-none : (ss : List ServerInfo) (n : ℕ) → (server_at ss n ≡ none) ↔ (length ss ≤ n)
unfolding server_at
server_at-none [] n = ground arith
server_at-none (s ∷ ss) zero = ground arith
server_at-none (s ∷ ss) (suc n) = ground (arith, server_at-none ss n)

counter_at-insert : (k : Text) (v : ℕ) (m : Dict ℕ) → counter_at k (insert k v m) ≡ v
counter_at-insert k v m = ground (arith, lookup-insert k k v m, text_eq_refl k)

module _ (cfg : RouterConfig) (domain : Text) where
  -- The counters after some requests for the domain that prefer no server.
  unfoldable pub counters_after : ℕ → List ServerInfo → Dict ℕ → Dict ℕ
  counters_after zero servers m = m
  counters_after (suc k) servers m =
      (choose_server cfg [] domain servers (counters_after k servers m)).1

  -- A single server is taken without the counter.
  choose_server-one :
      (servers : List ServerInfo) (m : Dict ℕ)
      → length servers ≡ 1
      → choose_server cfg [] domain servers m ≡ (server_at servers 0, m)
  unfolding choose_server select_server
  choose_server-one servers m one = rw one refl

  choose_server-turn :
      (servers : List ServerInfo) (m : Dict ℕ)
      → cfg.strategy ≡ round_robin
      → (length servers == 1) ≡ false
      → choose_server cfg [] domain servers m ≡ round_robin_select domain servers m
  unfolding choose_server select_server
  choose_server-turn servers m turns more = rw (more, turns) refl

  counter_at-turn :
      (servers : List ServerInfo) (m : Dict ℕ)
      → counter_at domain (round_robin_select domain servers m).1
        ≡ (counter_at domain m + 1) % length servers
  unfolding round_robin_select
  counter_at-turn servers m =
      counter_at-insert domain ((counter_at domain m + 1) % length servers) m

  counters_after-at :
      (k : ℕ) (servers : List ServerInfo)
      → cfg.strategy ≡ round_robin
      → counter_at domain (counters_after k servers []) ≡ k % length servers
  unfolding counters_after lookup
  counters_after-at zero servers turns = sym (zero-mod (length servers))
  counters_after-at (suc k) servers turns =
      let m = counters_after k servers [] in
      let l = length servers in
      let before = counters_after-at k servers turns in
      elim (Bool-cases (l == 1)) [
        | inl one ↦
            let is_one : l ≡ 1 = ground (arith, one) in
            ap (λ r. counter_at domain r.1) (choose_server-one servers m is_one)
            ∙ (before ∙ rw is_one (mod-one k ∙ sym (mod-one (suc k))))
        | inr more ↦
            let next : suc k ≡ k + 1 = omega arith in
            ap (λ r. counter_at domain r.1) (choose_server-turn servers m turns more)
            ∙ counter_at-turn servers m
            ∙ ap (λ x. (x + 1) % l) before
            ∙ mod-add-mod k l 1
            ∙ ap (λ x. x % l) (sym next)
      ]

  -- In the strategy round_robin, after `k` requests for a domain on the servers `old`, the first ones
  -- for it, the next one, for which the domain has the servers `new`, panics on an index out of range
  -- exactly if `new` is not a single server and has not more servers than the rest of `k` by the number
  -- of the old ones. So it never does while the servers stay the same, and may do so after one is taken
  -- away, but not if only one is left. The requests prefer no server.
  pub choose_server-panics :
      (k : ℕ) (old new : List ServerInfo)
      → cfg.strategy ≡ round_robin
      → 0 < length old
      → 0 < length new
      → ((choose_server cfg [] domain new (counters_after k old [])).0 ≡ none)
        ↔ ((length new ≢ 1) × (length new ≤ k % length old))
  unfolding round_robin_select
  choose_server-panics k old new turns some_old some_new =
      let m = counters_after k old [] in
      elim (Bool-cases (length new == 1)) [
        | inl one ↦
            let is_one : length new ≡ 1 = ground (arith, one) in
            rw (choose_server-one new m is_one) (
              λ e. absurd (ground (arith, is_one, (server_at-none new 0).0 e)),
              λ h. absurd (h.0 is_one),
            )
        | inr more ↦
            let index = server_at-none new (k % length old) in
            rw (choose_server-turn new m turns more, counters_after-at k old turns)
              (λ e. (λ one. absurd (ground (arith, one, more)), index.0 e), λ h. index.1 h.1)
      ]
