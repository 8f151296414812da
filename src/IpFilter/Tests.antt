-- ===== src/IpFilter/Tests.antt =====
-- The properties of the filter at concrete inputs: addresses are texts, and a network is an address.
use sendry.Base.{
  ◌≡◌, ◌↔◌, ◌⊎◌, true, false, none, some, List, [], ◌∷◌, Text, codes, text_eq, text_eq_iff,
}
use sendry.IpFilter.{NetApi, new_filter, is_allowed, enabled}
use sendry.IpFilter.Entries.{Listed, new_filter-Listed}

abbrev net : NetApi
net = record {
  Ip = Text;
  Net = Text;
  parse_ip = λ s. some s;
  parse_cidr = λ s. none;
  is_v4 = λ i. true;
  make_net = λ i n m. i;
  net_contains = text_eq;
  split_host_port = λ s. none;
  single-contains = text_eq_iff;
}

abbrev entries : List Text
entries = codes " 10.0.0.1" ∷ codes "oops/" ∷ []

new_filter-Listed_example :
    (is_allowed net (new_filter net entries) (codes "10.0.0.1") ≡ true)
    ↔ ((enabled net (new_filter net entries) ≡ false) ⊎ Listed net (codes "10.0.0.1") entries)
new_filter-Listed_example = new_filter-Listed net entries (codes "10.0.0.1")
