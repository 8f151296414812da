-- ===== src/IpFilter/Headers.antt =====
-- The address that internal/ipfilter/ipfilter.go takes an HTTP request to come from.
use sendry.Base.{◌≡◌, true, false, some, List, Text, is_empty, trim_space, arith}
use sendry.IpFilter.{NetApi, HttpRequest, first_part, get_client_ip, http_middleware, is_allowed}

module _ (api : NetApi) where
  open api use {Ip, Net, parse_ip}

  -- Whatever address a request comes from, the filter lets it through if the first part of its
  -- header X-Forwarded-For is the text of an allowed address.
  http_middleware-forwarded :
      (nets : List Net) (r : HttpRequest) (i : Ip) (addr : Text)
      → is_empty r.x_forwarded_for ≡ false
      → parse_ip (trim_space (first_part api r.x_forwarded_for)) ≡ some i
      → is_allowed api nets i ≡ true
      → http_middleware api nets (record r { remote_addr = addr }) ≡ true
  unfolding http_middleware get_client_ip
  http_middleware-forwarded nets r i addr e p h = ground (arith, e, p, h)
