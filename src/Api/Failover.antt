-- ===== src/Api/Failover.antt =====
-- Which servers the failover of internal/web/router/router.go calls.
use sendry.Base.{
  ℕ, zero, suc, ◌+◌, ◌-◌, ◌≤◌, ◌<◌, ◌≡◌, refl, ◌∙◌, Bool, true, false, not, ◌||◌, none, some, List,
  [], ◌∷◌, ◌++◌, Text, text_eq, text_eq_iff, text_eq_refl, length, if◌then◌else◌, find, count, any,
  arith, has_key, DistinctKeys, ◌⊎◌, inl, inr, leb, Bool-cases, Option-cases,
}
use sendry.Api.{MailRequest, ServerInfo, Call}
use sendry.Api.Content.{RouterError, all_servers_failed, send_failed}
use sendry.Api.Selection.{RouterConfig}
use sendry.Api.Router.{
  server_key, next_untried, failover_loop, retries_for, attempts_for, send_with_failover,
}

abbrev pub call_key : Call → Text
call_key c = c.called

abbrev pub is_untried : List Text → ServerInfo → Bool
is_untried tried s = not (any (text_eq s.server) tried)

next_untried-new :
    (tried : List Text) (servers : List ServerInfo) (s : ServerInfo)
    → next_untried tried servers ≡ some s
    → (any (text_eq s.server) tried ≡ false) × (has_key server_key s.server servers ≡ true)
unfolding next_untried find has_key any
next_untried-new tried [] s e = absurd cc
next_untried-new tried (x ∷ xs) s e =
    ground (arith, text_eq_refl s.server, next_untried-new tried xs s)

next_untried-none :
    (tried : List Text) (servers : List ServerInfo)
    → next_untried tried servers ≡ none
    → count (is_untried tried) servers ≡ 0
unfolding next_untried find count
next_untried-none tried [] e = refl
next_untried-none tried (x ∷ xs) e = ground (arith, next_untried-none tried xs)

-- A server that is tried is one less to try.
count-tried :
    (tried : List Text) (s : Text) (servers : List ServerInfo)
    → count (is_untried (s ∷ tried)) servers
        + (if any (text_eq s) tried then 0 else if has_key server_key s servers then 1 else 0)
      ≤ count (is_untried tried) servers
unfolding count any has_key
count-tried tried s [] = ground arith
count-tried tried s (x ∷ xs) = ground (arith, count-tried tried s xs, text_eq_iff x.server s)

abbrev pub names : List Call → List Text
names [] = []
names (c ∷ cs) = c.called ∷ names cs

has_key-names : (k : Text) (own : List Call) → has_key call_key k own ≡ any (text_eq k) (names own)
unfolding has_key any
has_key-names k [] = refl
has_key-names k (c ∷ cs) =
    ground (arith, text_eq_iff c.called k, text_eq_iff k c.called, has_key-names k cs)

count-all : (servers : List ServerInfo) → count (is_untried []) servers ≡ length servers
unfolding count any
count-all [] = refl
count-all (s ∷ ss) = ground (arith, count-all ss)

abbrev Answer : Type 0
Answer = (RouterError ⊎ (Text × Text)) × List Call

-- How a mail that was sent to some servers, none of them twice, ends: at the latest one, which took it;
-- or at none, with so many servers left that were not tried; or at the only one that is tried.
pub data Ends (cfg : RouterConfig) (servers : List ServerInfo) (mail : MailRequest)
    (before : List Call) (most left : ℕ) (r : (RouterError ⊎ (Text × Text)) × List Call)
    : Type 0 where
  taken :
      (server id : Text) (rest : List Call)
      → r ≡ (inr (id, server), (record { called = server; mail = mail } ∷ rest) ++ before)
      → cfg.send_mail (rest ++ before) server mail ≡ inr id
      → DistinctKeys call_key (record { called = server; mail = mail } ∷ rest)
      → length rest < most
      → Ends cfg servers mail before most left r
  exhausted :
      (own : List Call)
      → r ≡ (inl all_servers_failed, own ++ before)
      → DistinctKeys call_key own
      → length own ≤ most
      → count (is_untried (names own)) servers ≤ left
      → Ends cfg servers mail before most left r
  not_again :
      (server err : Text)
      → r ≡ (inl (send_failed server err), record { called = server; mail = mail } ∷ before)
      → cfg.send_mail before server mail ≡ inl err
      → (cfg.failover_enabled ≡ false) ⊎ (length servers ≤ 1)
      → Ends cfg servers mail before most left r

module _ (cfg : RouterConfig) (servers : List ServerInfo) (mail : MailRequest)
    (before : List Call) where
  Ends-more :
      (a b c d : ℕ) (r : Answer)
      → a ≤ c
      → b ≤ d
      → Ends cfg servers mail before a b r
      → Ends cfg servers mail before c d r
  Ends-more a b c d r h g (taken server id rest e f k l) = taken server id rest e f k (omega arith)
  Ends-more a b c d r h g (exhausted own e k l q) = exhausted own e k (omega arith) (omega arith)
  Ends-more a b c d r h g (not_again server err e f q) = not_again server err e f q

  -- The next server is called: it takes the mail, or the loop goes on.
  after_call :
      (n : ℕ) (own : List Call) (s : ServerInfo)
      → next_untried (names own) servers ≡ some s
      → has_key call_key s.server own ≡ false
      → DistinctKeys call_key own
      → Ends cfg servers mail before
          (length own + suc n)
          (count (is_untried (names own)) servers - suc n)
          (failover_loop cfg n servers
            (s.server ∷ names own)
            mail
            (record { called = s.server; mail = mail } ∷ (own ++ before)))
      → Ends cfg servers mail before
          (length own + suc n)
          (count (is_untried (names own)) servers - suc n)
          (failover_loop cfg (suc n) servers (names own) mail (own ++ before))
  unfolding failover_loop
  after_call n own s e new d go_on = go (cfg.send_mail (own ++ before) s.server mail) refl
    where
      go :
          (x : Text ⊎ Text)
          → cfg.send_mail (own ++ before) s.server mail ≡ x
          → Ends cfg servers mail before
              (length own + suc n)
              (count (is_untried (names own)) servers - suc n)
              (failover_loop cfg (suc n) servers (names own) mail (own ++ before))
      go (inr id) q = taken s.server id own (rw (failover_loop, e, q) refl) q (new, d) (omega arith)
      go (inl err) q = rw (failover_loop, e, q) go_on

  failover_loop-Ends :
      (n : ℕ) (own : List Call)
      → DistinctKeys call_key own
      → Ends cfg servers mail before
          (length own + n)
          (count (is_untried (names own)) servers - n)
          (failover_loop cfg n servers (names own) mail (own ++ before))
  unfolding failover_loop
  failover_loop-Ends zero own d = exhausted own refl d (omega arith) (omega arith)
  failover_loop-Ends (suc n) own d = elim (Option-cases (next_untried (names own) servers)) [
    | inl e ↦
        let z = next_untried-none (names own) servers e in
        rw (failover_loop, e)
          (Ends-more (length own + n) (count (is_untried (names own)) servers - n)
            (length own + suc n) (count (is_untried (names own)) servers - suc n)
            (failover_loop cfg n servers (names own) mail (own ++ before)) (omega arith)
            (omega (arith, z)) (failover_loop-Ends n own d))
    | inr (s, e) ↦
        let (fresh, here) = next_untried-new (names own) servers s e in
        let own' : List Call = record { called = s.server; mail = mail } ∷ own in
        let d' : DistinctKeys call_key own' = (has_key-names s.server own ∙ fresh, d) in
        let fewer : count (is_untried (names own')) servers + 1
            ≤ count (is_untried (names own)) servers =
          ground (arith, count-tried (names own) s.server servers) in
        after_call n own s e d'.0 d (
          Ends-more (length own' + n) (count (is_untried (names own')) servers - n)
            (length own + suc n) (count (is_untried (names own)) servers - suc n)
            (failover_loop cfg n servers (names own') mail (own' ++ before)) (omega arith)
            (omega (arith, fewer)) (failover_loop-Ends n own' d'))
  ]

  primary_tried :
      (primary : ServerInfo)
      → has_key server_key primary.server servers ≡ true
      → count (is_untried (primary.server ∷ [])) servers + 1 ≤ length servers
  unfolding any
  primary_tried primary here =
      ground (arith, count-tried [] primary.server servers, count-all servers)

  enough_attempts :
      (n : ℕ)
      → n + 1 ≤ length servers
      → (1 + attempts_for cfg servers ≤ 1 + retries_for cfg)
        × (n - attempts_for cfg servers ≤ (length servers - 1) - retries_for cfg)
  unfolding attempts_for
  enough_attempts n h = ground arith

  no_failover : (on : Bool) (n : ℕ) → (not on || leb n 1) ≡ true → (on ≡ false) ⊎ (n ≤ 1)
  no_failover false n h = inl refl
  no_failover true n h = inr (ground arith)

  -- If failover is on, a mail to servers of which the first choice is one goes to at most as many servers
  -- as there are retries and one more, and to none of them twice. It ends at the server that takes it,
  -- whose id and name are the answer; or with the error that all servers failed, and then those that were
  -- not tried are at most as many as the retries are short of the other servers. Without failover, or if
  -- there is one server only, the error is that of the first choice.
  pub send_with_failover-Ends :
      (primary : ServerInfo)
      → has_key server_key primary.server servers ≡ true
      → Ends cfg servers mail before
          (1 + retries_for cfg)
          ((length servers - 1) - retries_for cfg)
          (send_with_failover cfg mail servers primary before)
  unfolding send_with_failover has_key any
  send_with_failover-Ends primary here = go (cfg.send_mail before primary.server mail) refl
    where
      go :
          (x : Text ⊎ Text)
          → cfg.send_mail before primary.server mail ≡ x
          → Ends cfg servers mail before
              (1 + retries_for cfg)
              ((length servers - 1) - retries_for cfg)
              (send_with_failover cfg mail servers primary before)
      go (inr id) q =
          taken primary.server id [] (rw (send_with_failover, q) refl) q (refl, tt) (omega arith)
      go (inl err) q = elim (Bool-cases (not cfg.failover_enabled || leb (length servers) 1)) [
        | inl b ↦
            not_again primary.server err (rw (send_with_failover, q, b) refl) q
              (no_failover cfg.failover_enabled (length servers) b)
        | inr b ↦
            let own : List Call = record { called = primary.server; mail = mail } ∷ [] in
            let few = enough_attempts _ (primary_tried primary here) in
            rw (send_with_failover, q, b)
              (Ends-more (1 + attempts_for cfg servers)
                (count (is_untried (names own)) servers - attempts_for cfg servers)
                (1 + retries_for cfg) ((length servers - 1) - retries_for cfg)
                (failover_loop cfg (attempts_for cfg servers) servers (names own) mail
                  (own ++ before))
                few.0 few.1 (failover_loop-Ends (attempts_for cfg servers) own (refl, tt)))
      ]
