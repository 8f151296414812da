-- ===== src/Api/Router.antt =====
-- The sending of the EmailRouter of internal/web/router/router.go, with its failover.
use sendry.Base.{
  ℕ, zero, suc, ◌-◌, ◌&&◌, ◌||◌, not, Option, none, some, List, [], ◌∷◌, ◌++◌, Text, codes, text_eq,
  is_empty, ltb, leb, length, if◌then◌else◌, find, any, ◌⊎◌, inl, inr,
}
use sendry.Api.{
  ApiSendRequest, MailRequest, send_pending, send_sent, send_failed, SendRow, ServerInfo, Call,
  ApiState,
}
use sendry.Api.Content.{
  RouterError, invalid_request, domain_not_found, no_servers, all_servers_failed, send_failed,
  Engine, sender_domain_of, build_send_request, error_text_of,
}
use sendry.Api.Selection.{RouterConfig, get_by_domain, get_deployed_servers, choose_server}

abbrev pub server_key : ServerInfo → Text
server_key s = s.server

-- The first server whose name is not among those that were tried.
unfoldable pub next_untried : List Text → List ServerInfo → Option ServerInfo
next_untried tried servers = find (λ s. not (any (text_eq s.server) tried)) servers

unfoldable pub get_send : Text → List SendRow → Option SendRow
get_send id = find (λ r. text_eq r.id id)

unfoldable pub update_send : (SendRow → SendRow) → Text → List SendRow → List SendRow
update_send f id [] = []
update_send f id (r ∷ rs) =
    let rest = update_send f id rs in if text_eq r.id id then f r ∷ rest else r ∷ rest

module _ (cfg : RouterConfig) where
  open cfg use {failover_enabled, max_retries, send_mail}

  -- The id that the server gave and its name, or the error; and the calls.
  unfoldable pub failover_loop :
      ℕ
      → List ServerInfo
      → List Text
      → MailRequest
      → List Call
      → (RouterError ⊎ (Text × Text)) × List Call
  failover_loop zero servers tried req calls = (inl all_servers_failed, calls)
  failover_loop (suc n) servers tried req calls = elim (next_untried tried servers) [
    | none ↦ failover_loop n servers tried req calls
    | some s ↦
        let calls' = record { called = s.server; mail = req } ∷ calls in
        elim (send_mail calls s.server req) [
          | inr id ↦ (inr (id, s.server), calls')
          | inl err ↦ failover_loop n servers (s.server ∷ tried) req calls'
        ]
  ]

  unfoldable pub retries_for : ℕ
  retries_for = if failover_enabled && ltb 0 max_retries then max_retries else 1

  -- attempt < maxRetries && attempt < len(servers)-1
  unfoldable pub attempts_for : List ServerInfo → ℕ
  attempts_for servers =
      let others = length servers - 1 in if leb retries_for others then retries_for else others

  unfoldable pub send_with_failover :
      MailRequest
      → List ServerInfo
      → ServerInfo
      → List Call
      → (RouterError ⊎ (Text × Text)) × List Call
  send_with_failover req servers primary calls =
      let calls' = record { called = primary.server; mail = req } ∷ calls in
      elim (send_mail calls primary.server req) [
        | inr id ↦ (inr (id, primary.server), calls')
        | inl err ↦
            if not failover_enabled || leb (length servers) 1
            then (inl (send_failed primary.server err), calls')
            else failover_loop (attempts_for servers) servers (primary.server ∷ []) req calls'
      ]

  -- The record of the mail is written before it is sent, and gets the result; the answer has the id of
  -- the record, the status, the server and the server's id.
  unfoldable pub send_recorded :
      SendRow
      → MailRequest
      → List ServerInfo
      → ServerInfo
      → ℕ
      → ApiState
      → (RouterError ⊎ SendRow) × ApiState
  send_recorded row req servers primary now st =
      let (answer, calls') = send_with_failover req servers primary st.calls in
      let rows = st.sends ++ (row ∷ []) in
      elim answer [
        | inl err ↦ (
          inl err,
          record st {
            sends =
                update_send
                  (λ r. record r {
                    status = send_failed;
                    error_message = error_text_of err;
                    server_msg_id = [];
                    sent_at = none;
                  })
                  row.id rows;
            calls = calls';
          },
        )
        | inr (msg, server) ↦ (
          inr (record row { status = send_sent; server_name = server; server_msg_id = msg }),
          record st {
            sends =
                update_send
                  (λ r. record r {
                    status = send_sent;
                    error_message = [];
                    server_msg_id = msg;
                    sent_at = some now;
                  })
                  row.id rows;
            calls = calls';
          },
        )
      ]

module _ (cfg : RouterConfig) (e : Engine) where
  -- `none` is a panic. The id is that of uuid.New.
  unfoldable pub router_send :
      ApiSendRequest e.Value
      → Text
      → Text
      → ℕ
      → ApiState
      → Option (RouterError ⊎ SendRow) × ApiState
  router_send req key_id id now st =
      if is_empty req.from
      then (some (inl (invalid_request (codes "from is required"))), st)
      else if is_empty req.to
      then (some (inl (invalid_request (codes "to is required"))), st)
      else let domain = sender_domain_of req.from in
        if is_empty domain
        then (some (inl (invalid_request (codes "invalid from address"))), st)
        else elim (get_by_domain cfg domain) [
          | none ↦ (some (inl domain_not_found), st)
          | some d ↦
              let servers = get_deployed_servers cfg d.deployments in
              if is_empty servers
              then (some (inl no_servers), st)
              else elim (build_send_request e req) [
                | inl err ↦ (some (inl err), st)
                | inr (mail, template) ↦
                    let (chosen, m) =
                      choose_server cfg req.prefer_server domain servers st.rr_counters in
                    elim chosen [
                      | none ↦ (none, record st { rr_counters = m })
                      | some primary ↦
                          let row : SendRow = record {
                            id = id;
                            api_key_id = key_id;
                            from_address = req.from;
                            to_addresses = req.to;
                            cc_addresses = req.cc;
                            bcc_addresses = req.bcc;
                            subject = mail.subject;
                            template_id = template;
                            sender_domain = domain;
                            server_name = primary.server;
                            server_msg_id = [];
                            status = send_pending;
                            error_message = [];
                            sent_at = none;
                          } in
                          let (answer, st') =
                            send_recorded cfg row mail servers primary now
                              (record st { rr_counters = m }) in
                          (some answer, st')
                    ]
              ]
        ]
