-- ===== src/IpFilter.antt =====
-- internal/ipfilter/ipfilter.go. Package net is a parameter: addresses, networks and their parsers.
pub mod Entries
pub mod Headers
mod Tests
use sendry.Base.{
  ℕ, ◌≡◌, ◌↔◌, Bool, true, false, not, Option, none, some, List, [], ◌∷◌, ◌++◌, Text, codes,
  is_empty, any, contains, trim_space, split_first, if◌then◌else◌,
}

-- `make_net i ones bits` is `net.IPNet{IP: i, Mask: net.CIDRMask(ones, bits)}`, `is_v4 i` is
-- `i.To4() != nil`, and `split_host_port` gives the host. A mask of full width leaves one address.
pub record NetApi : Type 1 where
  pub Ip : Type 0
  pub Net : Type 0
  pub parse_ip : Text → Option Ip
  pub parse_cidr : Text → Option Net
  pub is_v4 : Ip → Bool
  pub make_net : Ip → ℕ → ℕ → Net
  pub net_contains : Net → Ip → Bool
  pub split_host_port : Text → Option Text
  pub single-contains :
      (i j : Ip)
      → let n : ℕ = if is_v4 i then 32 else 128 in
        (net_contains (make_net i n n) j ≡ true) ↔ (i ≡ j)

-- The parts of an HTTP request that are read; an absent header is the empty text.
pub record HttpRequest : Type 0 where
  pub x_forwarded_for : Text
  pub x_real_ip : Text
  pub remote_addr : Text

module _ (api : NetApi) where
  open api use {Ip, Net, parse_ip, parse_cidr, is_v4, make_net, net_contains, split_host_port}

  -- One turn of the loop of New: the networks of an entry, none if it is empty or invalid.
  unfoldable pub entry_nets : Text → List Net
  entry_nets s =
      let t = trim_space s in
      if is_empty t
      then []
      else if contains (codes "/") t
      then elim (parse_cidr t) [ none ↦ [] | some n ↦ n ∷ [] ]
      else elim (parse_ip t) [
        | none ↦ []
        | some i ↦ (if is_v4 i then make_net i 32 32 else make_net i 128 128) ∷ []
      ]

  -- New
  unfoldable pub new_filter : List Text → List Net
  new_filter [] = []
  new_filter (s ∷ entries) = entry_nets s ++ new_filter entries

  abbrev pub enabled : List Net → Bool
  enabled nets = not (is_empty nets)

  unfoldable pub is_allowed : List Net → Ip → Bool
  is_allowed nets i = if is_empty nets then true else any (λ n. net_contains n i) nets

  unfoldable pub is_allowed_string : List Net → Text → Bool
  is_allowed_string nets s = elim (parse_ip s) [ none ↦ false | some i ↦ is_allowed nets i ]

  unfoldable pub is_allowed_addr : List Net → Text → Bool
  is_allowed_addr nets addr = elim (split_host_port addr) [
    | none ↦ is_allowed_string nets addr
    | some host ↦ is_allowed_string nets host
  ]

  remote_ip : Text → Option Ip
  remote_ip addr = elim (split_host_port addr) [ none ↦ parse_ip addr | some host ↦ parse_ip host ]

  -- strings.Split(s, ",")[0]
  abbrev pub first_part : Text → Text
  first_part s = elim (split_first b',' s) [ none ↦ s | some (a, b) ↦ a ]

  real_ip : HttpRequest → Option Ip
  unfolding remote_ip
  real_ip r =
      if is_empty r.x_real_ip
      then remote_ip r.remote_addr
      else elim (parse_ip (trim_space r.x_real_ip)) [
        | some i ↦ some i
        | none ↦ remote_ip r.remote_addr
      ]

  -- GetClientIP
  unfoldable pub get_client_ip : HttpRequest → Option Ip
  unfolding real_ip
  get_client_ip r =
      if is_empty r.x_forwarded_for
      then real_ip r
      else elim (parse_ip (trim_space (first_part r.x_forwarded_for))) [
        | some i ↦ some i
        | none ↦ real_ip r
      ]

  -- HTTPMiddleware: whether the request reaches the handler behind it; else it is Forbidden.
  unfoldable pub http_middleware : List Net → HttpRequest → Bool
  http_middleware nets r =
      if enabled nets
      then elim (get_client_ip r) [ none ↦ false | some i ↦ is_allowed nets i ]
      else true
