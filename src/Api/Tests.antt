-- ===== src/Api/Tests.antt =====
-- The properties of the sending API at concrete inputs: two servers, of which the first refuses all.
use sendry.Base.{
  ◌++◌, find, ◌+◌, ◌-◌, ◌≤◌, ◌≡◌, ◌↔◌, ◌≢◌, length, refl, true, none, some, List, [], ◌∷◌, Text,
  codes, text_eq, ◌⊎◌, inl, inr, arith, any, has_key, lookup, if◌then◌else◌,
}
use sendry.Api.{ApiKey, ApiSendRequest, MailRequest, deployed, ServerInfo, ApiState}
use sendry.Api.Limits.{KeyCounter}
use sendry.Api.Auth.{api_auth, refusal_of, is_expired, token_of}
use sendry.Api.Content.{Engine, sender_domain_of}
use sendry.Api.Selection.{RouterConfig, round_robin, choose_server}
use sendry.Api.Router.{get_send, router_send, retries_for, send_with_failover}
use sendry.Api.Handlers.{ApiRequest, serve_send}
use sendry.Api.Windows.{KeyRequest, allowed_of, allowed_of-Within}
use sendry.Api.Turns.{counters_after, choose_server-panics}
use sendry.Api.Failover.{Ends, send_with_failover-Ends}
use sendry.Api.Senders.{Configured}
use sendry.Api.Records.{Recorded, OthersKept, router_send-Recorded}
use sendry.Api.Issuing.{api_auth-create_key}
use sendry.Api.Keys.{get_by_hash, KeyOptions, create_key, deactivate, activate, delete_key}
use sendry.Api.Serving.{IsGood, MaySend, serve_send-MaySend}

abbrev two_servers : List ServerInfo
two_servers =
    record { server = codes "a"; weight = 1 } ∷ record { server = codes "b"; weight = 1 } ∷ []

abbrev three_servers : List ServerInfo
three_servers = record { server = codes "c"; weight = 1 } ∷ two_servers

abbrev config : RouterConfig
config = record {
  strategy = round_robin;
  weights = [];
  failover_enabled = true;
  max_retries = 2;
  domains =
      record {
        domain = codes "x.com";
        deployments = record { server_name = codes "a"; status = deployed } ∷ [];
      }
      ∷ [];
  knows_server = λ server. true;
  send_mail = λ calls server mail.
      if text_eq server (codes "a") then inl (codes "down") else inr (codes "7");
}

abbrev engine : Engine
engine = record {
  Value = Text;
  str = λ s. s;
  render = λ html source vars. inr source;
  templates = [];
  globals = [];
  public_url = [];
  public_upload_url = [];
}

abbrev test_mail : MailRequest
test_mail = record {
  from = codes "u@x.com";
  to = codes "v@y.com" ∷ [];
  cc = [];
  bcc = [];
  subject = codes "hi";
  body = [];
  html = [];
  headers = [];
}

abbrev test_body : ApiSendRequest Text
test_body = record {
  from = codes "u@x.com";
  to = codes "v@y.com" ∷ [];
  cc = [];
  bcc = [];
  subject = codes "hi";
  body = [];
  html = [];
  headers = [];
  template_id = [];
  template_name = [];
  values = [];
  prefer_server = [];
}

abbrev request : ApiRequest Text
request = record { authorization = codes "Bearer k"; x_api_key = []; request = some test_body }

abbrev state : ApiState
state = record {
  keys =
      record {
        id = codes "1";
        name = [];
        key_hash = codes "k";
        allowed_domains = codes "x.com" ∷ [];
        rate_limit_minute = 0;
        rate_limit_hour = 0;
        last_used_at = none;
        expires_at = none;
        active = true;
      }
      ∷ [];
  sends = [];
  rr_counters = [];
  calls = [];
}

serve_send-MaySend_example :
    ((serve_send config engine (λ s. s) request (codes "i") 0 state []).1.calls ≡ state.calls)
    ⊎ ((k : ApiKey) × (req : ApiSendRequest Text) × IsGood
          (λ s. s)
          (token_of (codes "Bearer k") [])
          0
          state.keys
          k
        × (request.request ≡ some req)
        × MaySend k (sender_domain_of req.from)
        × Configured config (sender_domain_of req.from))
unfolding any text_eq
serve_send-MaySend_example =
    serve_send-MaySend config engine (λ s. s) request (codes "i") 0 state [] (refl, tt)

send_with_failover-Ends_example :
    Ends config two_servers test_mail [] (1 + retries_for config) ((2 - 1) - retries_for config) (
      send_with_failover config test_mail two_servers
        (record { server = codes "a"; weight = 1 })
        [])
unfolding has_key any text_eq
send_with_failover-Ends_example =
    send_with_failover-Ends config two_servers test_mail []
      (record { server = codes "a"; weight = 1 }) refl

choose_server-panics_example :
    ((choose_server config []
        (codes "x.com")
        two_servers
        (counters_after config (codes "x.com") 2 three_servers [])).0
      ≡ none)
    ↔ ((length two_servers ≢ 1) × (2 ≤ 2))
choose_server-panics_example =
    choose_server-panics config (codes "x.com") 2 three_servers two_servers refl (omega arith)
      (omega arith)

abbrev counter : KeyCounter
counter = record { minute_count = 1; hour_count = 1; minute_reset = 10; hour_reset = 20 }

abbrev requests : List KeyRequest
requests =
    record { key = codes "1"; limit_minute = 2; limit_hour = 0; time = 3 }
    ∷ record { key = codes "2"; limit_minute = 1; limit_hour = 0; time = 4 }
    ∷ record { key = codes "1"; limit_minute = 2; limit_hour = 0; time = 5 }
    ∷ []

allowed_of-Within_example : (allowed_of (codes "1") requests ((codes "1", counter) ∷ [])).0 + 1 ≤ 2
unfolding lookup text_eq
allowed_of-Within_example =
    allowed_of-Within (codes "1") 2 counter requests ((codes "1", counter) ∷ []) refl (omega arith)
      (omega arith)
      (
        λ e. (refl, omega arith, omega arith),
        (λ e. absurd cc, (λ e. (refl, omega arith, omega arith), tt)),
      )

router_send-Recorded_example :
    Recorded config
      (codes "i")
      5
      []
      []
      (router_send config engine test_body (codes "1") (codes "i") 5 state)
    × OthersKept
        (codes "i")
        []
        (router_send config engine test_body (codes "1") (codes "i") 5 state).1.sends
unfolding get_send find
router_send-Recorded_example =
    router_send-Recorded config engine test_body (codes "1") (codes "i") 5 state refl

abbrev options : KeyOptions
options = record {
  name = codes "app";
  allowed_domains = [];
  expires_at = some 9;
  rate_limit_minute = 1;
  rate_limit_hour = 0;
}

api_auth-create_key_example :
    let (made, key, ks) = create_key (λ s. s) (codes "2") (codes "r") options state.keys in
    let answer =
      λ (keys : List ApiKey). (api_auth (λ s. s) (codes "Bearer " ++ key) [] 5 keys []).0 in
    (answer ks ≡ inr made)
    × ((off : List ApiKey) × (deactivate (codes "2") ks ≡ some off)
        × (answer off ≡ inl (refusal_of 401 (codes "API key is inactive")))
        × (activate (codes "2") off ≡ some ks))
    × (delete_key (codes "2") ks ≡ some state.keys)
    × (answer state.keys ≡ inl (refusal_of 401 (codes "Invalid API key")))
unfolding find get_by_hash has_key any text_eq lookup is_expired create_key
api_auth-create_key_example =
    api_auth-create_key (λ s. s) (codes "2") (codes "r") [] options state.keys 5 [] refl refl refl
      refl
