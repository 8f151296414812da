-- ===== src/Api/Selection.antt =====
-- Which server a mail goes to: getDeployedServers and selectServer of internal/web/router/router.go. The
-- domains and the configuration are parameters, and so are the mail servers, whose answers may depend on
-- all calls so far.
use sendry.Base.{
  ℕ, zero, suc, ◌+◌, ◌%◌, Bool, true, false, ◌&&◌, Option, none, some, List, [], ◌∷◌, Text, codes,
  text_eq, is_empty, ltb, ◌==◌, length, if◌then◌else◌, Dict, lookup, insert, find, ◌⊎◌,
}
use sendry.Api.{MailRequest, deployed, Deployment, SenderDomain, ServerInfo, Call}

pub data Strategy : Type 0 where
  round_robin weighted first_healthy : Strategy

-- The settings of config.MultiSendConfig, the servers that Manager.GetClient knows and Client.Send.
pub record RouterConfig : Type 0 where
  pub strategy : Strategy
  pub weights : Dict ℕ
  pub failover_enabled : Bool
  pub max_retries : ℕ
  pub domains : List SenderDomain
  pub knows_server : Text → Bool
  pub send_mail : List Call → Text → MailRequest → Text ⊎ Text

unfoldable pub is_deployed : Deployment → Bool
is_deployed d = elim d.status [ deployed ↦ true | _ ↦ false ]

abbrev pub counter_at : Text → Dict ℕ → ℕ
counter_at k m = elim (lookup k m) [ none ↦ 0 | some n ↦ n ]

-- servers[n]; `none` is a panic.
unfoldable pub server_at : List ServerInfo → ℕ → Option ServerInfo
server_at [] n = none
server_at (s ∷ ss) zero = some s
server_at (s ∷ ss) (suc n) = server_at ss n

-- The counter is stored before the server is taken.
unfoldable pub round_robin_select : Text → List ServerInfo → Dict ℕ → Option ServerInfo × Dict ℕ
round_robin_select domain servers m =
    let n = counter_at domain m in (server_at servers n, insert domain ((n + 1) % length servers) m)

unfoldable pub total_weight : List ServerInfo → ℕ
total_weight [] = 0
total_weight (s ∷ ss) = s.weight + total_weight ss

-- The first server whose weights up to it are more than the counter.
unfoldable pub cumulative_select : ℕ → ℕ → List ServerInfo → Option ServerInfo
cumulative_select n cumulative [] = none
cumulative_select n cumulative (s ∷ ss) =
    let rest = cumulative_select n (cumulative + s.weight) ss in
    if ltb n (cumulative + s.weight) then some s else rest

-- A remainder by 0 is a panic, before anything is stored.
unfoldable pub weighted_select : List ServerInfo → Dict ℕ → Option ServerInfo × Dict ℕ
weighted_select servers m =
    let n = counter_at (codes "_weighted") m in
    let total = total_weight servers in
    if total == 0 then (none, m) else (
      elim (cumulative_select n 0 servers) [ some s ↦ some s | none ↦ server_at servers 0 ],
      insert (codes "_weighted") ((n + 1) % total) m,
    )

module _ (cfg : RouterConfig) where
  open cfg use {strategy, weights, failover_enabled, max_retries, domains, knows_server, send_mail}

  unfoldable pub get_by_domain : Text → Option SenderDomain
  get_by_domain name = find (λ d. text_eq d.domain name) domains

  unfoldable pub weight_of : Text → ℕ
  weight_of server = elim (lookup server weights) [ none ↦ 1 | some w ↦ w ]

  unfoldable pub get_deployed_servers : List Deployment → List ServerInfo
  get_deployed_servers [] = []
  get_deployed_servers (d ∷ ds) =
      let rest = get_deployed_servers ds in
      if is_deployed d && knows_server d.server_name
      then record { server = d.server_name; weight = weight_of d.server_name } ∷ rest
      else rest

  unfoldable pub select_server : Text → List ServerInfo → Dict ℕ → Option ServerInfo × Dict ℕ
  select_server domain servers m =
      if length servers == 1 then (server_at servers 0, m) else elim strategy [
        | weighted ↦ weighted_select servers m
        | first_healthy ↦ (server_at servers 0, m)
        | round_robin ↦ round_robin_select domain servers m
      ]

  unfoldable pub choose_server : Text → Text → List ServerInfo → Dict ℕ → Option ServerInfo × Dict ℕ
  choose_server prefer domain servers m =
      if is_empty prefer
      then select_server domain servers m
      else elim (find (λ s. text_eq s.server prefer) servers) [
        | some s ↦ (some s, m)
        | none ↦ select_server domain servers m
      ]
