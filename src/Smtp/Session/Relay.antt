-- ===== src/Smtp/Session/Relay.antt =====
-- Who may send, by the commands of internal/smtp/session.go.
use sendry.Base.{
  ℕ, ◌≡◌, ◌⊎◌, inl, inr, refl, Bool-cases, true, false, not, ◌&&◌, some, Option-cases, List, [],
  ◌∷◌, Text, Dict, is_empty, text_eq, lookup, arith,
}
use sendry.Email.{extract_domain}
use sendry.Smtp.Backend.{Backend, AuthConfig, AuthFailures, is_domain_allowed, check_auth_blocked}
use sendry.Smtp.Session.{
  Session, Parsers, new_session_state, authenticate, check_credentials, mail, rcpt, reset,
  auth_required, extract_ip,
}

-- The commands of a connection, each at its time, and what other connections do to the failures.
pub data Command : Type 0 where
  authenticates : Text → Text → Text → Command
  mails : Text → Command
  rcpts : Text → Command
  resets : Command
  failures_change : AuthFailures → Command

-- A name that the configuration gives a password.
abbrev pub IsUser : Backend → Text → Type 0
IsUser b name =
    (a : AuthConfig) × (users : Dict Text) × (password : Text) × (b.auth ≡ some a)
    × (a.users ≡ some users)
    × (lookup name users ≡ some password)

module _ (b : Backend) (ps : Parsers) (remote_addr : Text) where
  unfoldable pub command : ℕ × Command → Session × AuthFailures → Session × AuthFailures
  command (now, authenticates identity username password) (s, m) =
      (authenticate b ps remote_addr now identity username password (s, m)).1
  command (now, mails from) (s, m) = ((mail b ps from s).1, m)
  command (now, rcpts to) (s, m) = (rcpt to s, m)
  command (now, resets) (s, m) = (reset s, m)
  command (now, failures_change m') (s, m) = (s, m')

  unfoldable pub run_commands : List (ℕ × Command) → Session × AuthFailures → Session × AuthFailures
  run_commands [] w = w
  run_commands (o ∷ os) w = run_commands os (command o w)

  -- The user of a session is nobody or a configured one, and its sender is empty or was accepted.
  pub record IsPermitted (s : Session) : Type 0 where
    pub known : (s.auth_user ≡ []) ⊎ IsUser b s.auth_user
    pub accepted :
        (s.from ≡ [])
        ⊎ ((auth_required b ≡ true → is_empty s.auth_user ≡ false)
            × ((extract_domain ps.parse_address s.from ≡ [])
                ⊎ (is_domain_allowed b (extract_domain ps.parse_address s.from) ≡ true)))

  check_credentials-cases :
      (now : ℕ) (ip username password : Text) (s : Session) (m : AuthFailures)
      → let s' = (check_credentials b now ip username password (s, m)).1.0 in
        (s' ≡ s) ⊎ ((s' ≡ record s { auth_user = username }) × IsUser b username)
  unfolding check_credentials
  check_credentials-cases now ip username password s m = elim (Option-cases b.auth) [
    | inl h ↦ inl (ground (arith, h))
    | inr (a, h) ↦ elim (Option-cases a.users) [
      | inl u ↦ inl (ground (arith, h, u))
      | inr (users, u) ↦ elim (Option-cases (lookup username users)) [
        | inl l ↦ inl (ground (arith, h, u, l))
        | inr (expected, l) ↦ elim (Bool-cases (text_eq expected password)) [
          | inl same ↦ inr (ground (arith, h, u, l, same), (a, users, expected, h, u, l))
          | inr differ ↦ inl (ground (arith, h, u, l, differ))
        ]
      ]
    ]
  ]

  authenticate-cases :
      (now : ℕ) (identity username password : Text) (s : Session) (m : AuthFailures)
      → let s' = (authenticate b ps remote_addr now identity username password (s, m)).1.0 in
        (s' ≡ s) ⊎ ((s' ≡ record s { auth_user = username }) × IsUser b username)
  unfolding authenticate
  authenticate-cases now identity username password s m =
      elim (Bool-cases (not (is_empty identity) && not (text_eq identity username))) [
        | inl other ↦ inl (ground (arith, other))
        | inr same ↦ elim (Bool-cases (check_auth_blocked b now (extract_ip ps remote_addr) m)) [
          | inl blocked ↦ inl (ground (arith, same, blocked))
          | inr free ↦
              rw (same, free)
                (check_credentials-cases now (extract_ip ps remote_addr) username password s m)
        ]
      ]

  domain_cases :
      (domain : Text)
      → (not (is_empty domain) && not (is_domain_allowed b domain)) ≡ false
      → (domain ≡ []) ⊎ (is_domain_allowed b domain ≡ true)
  domain_cases [] h = inl refl
  domain_cases (c ∷ domain) h = inr (ground arith)

  with_user :
      (name : Text) (s : Session)
      → IsUser b name
      → is_empty name ≡ false
      → IsPermitted s
      → IsPermitted (record s { auth_user = name })
  with_user name s user named p = record {
    known = inr user;
    accepted = elim p.accepted [
      | inl none_yet ↦ inl none_yet
      | inr (was, d) ↦ inr ((λ r. named), d)
    ];
  }

  mail-IsPermitted : (from : Text) (s : Session) → IsPermitted s → IsPermitted (mail b ps from s).1
  unfolding mail
  mail-IsPermitted from s p = elim (Bool-cases (auth_required b && is_empty s.auth_user)) [
    | inl anonymous ↦ rw (anonymous, mail) p
    | inr known ↦
        let domain = extract_domain ps.parse_address from in
        elim (Bool-cases (not (is_empty domain) && not (is_domain_allowed b domain))) [
          | inl refused ↦ rw (known, refused, mail) p
          | inr passed ↦
              rw (known, passed, mail)
                (record {
                  known = p.known;
                  accepted = inr ((λ r. ground (arith, known, r)), domain_cases domain passed);
                })
        ]
  ]

  authenticate-IsPermitted :
      (now : ℕ) (identity username password : Text) (s : Session) (m : AuthFailures)
      → (IsUser b username → is_empty username ≡ false)
      → IsPermitted s
      → IsPermitted (authenticate b ps remote_addr now identity username password (s, m)).1.0
  authenticate-IsPermitted now identity username password s m named p =
      elim (authenticate-cases now identity username password s m) [
        | inl same ↦ rw same p
        | inr (changed, user) ↦ rw changed (with_user username s user (named user) p)
      ]

  command-IsPermitted :
      (o : ℕ × Command) (s : Session) (m : AuthFailures)
      → ((name : Text) → IsUser b name → is_empty name ≡ false)
      → IsPermitted s
      → IsPermitted (command o (s, m)).0
  unfolding command
  command-IsPermitted (now, authenticates identity username password) s m named p =
      authenticate-IsPermitted now identity username password s m (named username) p
  command-IsPermitted (now, mails from) s m named p = mail-IsPermitted from s p
  command-IsPermitted (now, rcpts to) s m named p = record {
    known = p.known;
    accepted = p.accepted;
  }
  command-IsPermitted (now, resets) s m named p = record { known = p.known; accepted = inl refl }
  command-IsPermitted (now, failures_change m') s m named p = p

  run-IsPermitted_from :
      (os : List (ℕ × Command)) (s : Session) (m : AuthFailures)
      → ((name : Text) → IsUser b name → is_empty name ≡ false)
      → IsPermitted s
      → IsPermitted (run_commands os (s, m)).0
  unfolding run_commands
  run-IsPermitted_from [] s m named p = p
  run-IsPermitted_from (o ∷ os) s m named p =
      let w = command o (s, m) in
      run-IsPermitted_from os w.0 w.1 named (command-IsPermitted o s m named p)

  -- After any commands of a connection, in any order, with any passwords and whatever the other
  -- connections do meanwhile, the sender of the session is empty, or its domain is empty or allowed
  -- and, where authentication is required, the user is one with a configured password. No
  -- configured user has an empty name.
  pub run-IsPermitted :
      (os : List (ℕ × Command)) (m : AuthFailures)
      → ((name : Text) → IsUser b name → is_empty name ≡ false)
      → IsPermitted (run_commands os (new_session_state, m)).0
  run-IsPermitted os m named =
      run-IsPermitted_from os new_session_state m named
        (record { known = inl refl; accepted = inl refl })
