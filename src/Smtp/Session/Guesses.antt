-- ===== src/Smtp/Session/Guesses.antt =====
-- How many passwords can be tried by the function that Auth of internal/smtp/session.go gives away.
use sendry.Base.{
  Bool, is_empty, text_eq, not, ◌&&◌, if◌then◌else◌, ℕ, suc, ◌+◌, ◌≡◌, ◌≤◌, ◌<◌, refl, ap, true,
  false, Option, none, some, List, [], ◌∷◌, Text, codes, Dict, text_eq_refl, lookup, lookup-insert,
  length, arith,
}
use sendry.Smtp.Backend.{
  Backend, AuthConfig, AuthFailures, SmtpError, smtp_error, plain_error, check_auth_blocked,
  is_blocked, record_auth_failure, add_failure, in_window, found_failure,
}
use sendry.Smtp.Session.{Session, Parsers, authenticate, check_credentials, knows, extract_ip}

-- A try of a password, with the identity that a client of the PLAIN exchange may give.
pub record Attempt : Type 0 where
  pub at : ℕ
  pub identity : Text
  pub username : Text
  pub password : Text

module _ (b : Backend) (ps : Parsers) (remote_addr : Text) where
  abbrev pub try_password :
      Attempt → Session × AuthFailures → Option SmtpError × (Session × AuthFailures)
  try_password a w = authenticate b ps remote_addr a.at a.identity a.username a.password w

  unfoldable pub try_all : List Attempt → Session × AuthFailures → Session × AuthFailures
  try_all [] w = w
  try_all (a ∷ rest) w = try_all rest (try_password a w).1

  -- An identity other than that of the user, which is refused before anything is looked up.
  abbrev pub is_foreign : Attempt → Bool
  is_foreign a = not (is_empty a.identity) && not (text_eq a.identity a.username)

  -- Not the password of a configured user.
  abbrev pub IsWrong : Dict Text → Attempt → Type 0
  IsWrong users a = (is_foreign a ≡ false) × (knows (lookup a.username users) a.password ≡ false)

  -- Wrong ones, none of them later than the window allows after the one before it.
  abbrev pub Guesses : Dict Text → ℕ → List Attempt → Type 0
  Guesses users t [] = Unit {0}
  Guesses users t (a ∷ rest) =
      IsWrong users a × (a.at ≤ t + b.auth_failure_window) × Guesses users a.at rest

  abbrev pub last_at : ℕ → List Attempt → ℕ
  last_at t [] = t
  last_at t (a ∷ rest) = last_at a.at rest

  wrong-records :
      (auth : AuthConfig) (users : Dict Text) (a : Attempt) (s : Session) (m : AuthFailures)
      → b.auth ≡ some auth
      → auth.users ≡ some users
      → IsWrong users a
      → check_auth_blocked b a.at (extract_ip ps remote_addr) m ≡ false
      → (try_password a (s, m)).1
        ≡ (s, (record_auth_failure b a.at (extract_ip ps remote_addr) m).1)
  unfolding authenticate check_credentials
  wrong-records auth users a s m h u wrong free = ground (arith, h, u, wrong.0, wrong.1, free)

  abbrev ip : Text
  ip = extract_ip ps remote_addr

  -- A failure at a time will be the one after `k` others, and none of them has blocked the address.
  abbrev Ready : ℕ → ℕ → AuthFailures → Type 0
  Ready k at m =
      let f = in_window b at (found_failure ip m) in
      (f.count ≡ k) × (f.blocked_at ≡ none) × (check_auth_blocked b at ip m ≡ false)

  record-lookup :
      (at : ℕ) (m : AuthFailures)
      → lookup ip (record_auth_failure b at ip m).1 ≡ some (add_failure b at (found_failure ip m))
  unfolding record_auth_failure
  record-lookup at m =
      ground (arith, lookup-insert ip ip (add_failure b at (found_failure ip m)) m, text_eq_refl ip)

  fresh-Ready : (at : ℕ) (m : AuthFailures) → lookup ip m ≡ none → Ready 0 at m
  unfolding in_window check_auth_blocked
  fresh-Ready at m h = ground (arith, h)

  record-Ready :
      (k at next : ℕ) (m : AuthFailures)
      → Ready k at m
      → suc k < b.max_auth_failures
      → next ≤ at + b.auth_failure_window
      → Ready (suc k) next (record_auth_failure b at ip m).1
  unfolding add_failure check_auth_blocked is_blocked in_window
  record-Ready k at next m r h w = ground (arith, record-lookup at m, r.0, r.1)

  record-blocks :
      (k at now : ℕ) (m : AuthFailures)
      → Ready k at m
      → b.max_auth_failures ≤ suc k
      → now < at + b.auth_block_duration
      → check_auth_blocked b now ip (record_auth_failure b at ip m).1 ≡ true
  unfolding add_failure check_auth_blocked is_blocked
  record-blocks k at now m r h w = ground (arith, record-lookup at m, r.0, r.1)

  try_all-cons :
      (a : Attempt) (rest : List Attempt) (s : Session) (m : AuthFailures)
      (w : Session × AuthFailures)
      → (try_password a (s, m)).1 ≡ w
      → try_all (a ∷ rest) (s, m) ≡ try_all rest w
  unfolding try_all
  try_all-cons a rest s m w h = ap (try_all rest) h

  all-block :
      (auth : AuthConfig) (users : Dict Text) (k now : ℕ) (a : Attempt) (rest : List Attempt)
      (s : Session) (m : AuthFailures)
      → b.auth ≡ some auth
      → auth.users ≡ some users
      → IsWrong users a
      → Guesses users a.at rest
      → k + suc (length rest) ≡ b.max_auth_failures
      → now < last_at a.at rest + b.auth_block_duration
      → Ready k a.at m
      → let w = try_all (a ∷ rest) (s, m) in (w.0 ≡ s) × (check_auth_blocked b now ip w.1 ≡ true)
  unfolding try_all
  all-block auth users k now a [] s m h u wrong g count soon r =
      rw (wrong-records auth users a s m h u wrong r.2)
        (refl, record-blocks k a.at now m r (omega (arith, count)) soon)
  all-block auth users k now a (a' ∷ rest) s m h u wrong g count soon r =
      rw (try_all-cons a (a' ∷ rest) s m _ (wrong-records auth users a s m h u wrong r.2)) (
        all-block auth users (suc k) now a' rest s (record_auth_failure b a.at ip m).1 h u g.0 g.2
          (omega (arith, count)) soon (record-Ready k a.at a'.at m r (omega (arith, count)) g.1))

  -- After as many wrong passwords as are allowed from an address with no failures on record, none of
  -- them later than the window after the one before it, no password can be tried from the address
  -- until the block is over: a further try, with the right password too, gets the error 454, and
  -- neither signs anyone in nor changes the failures. Nobody has been signed in by the wrong ones. A
  -- try may give an identity; a further one whose identity is not its user gets the error for that and
  -- changes nothing either, and the wrong ones have none such.
  pub try_all-refused :
      (auth : AuthConfig) (users : Dict Text) (a : Attempt) (rest : List Attempt) (later : Attempt)
      (s : Session) (m : AuthFailures)
      → b.auth ≡ some auth
      → auth.users ≡ some users
      → lookup (extract_ip ps remote_addr) m ≡ none
      → IsWrong users a
      → Guesses users a.at rest
      → suc (length rest) ≡ b.max_auth_failures
      → later.at < last_at a.at rest + b.auth_block_duration
      → let w = try_all (a ∷ rest) (s, m) in
        (w.0 ≡ s)
        × ((try_password later w).0
            ≡ some (
                if is_foreign later
                then plain_error (codes "identity must be empty or match username")
                else smtp_error 454 none
                    (codes "Too many authentication failures, try again later")))
        × ((try_password later w).1 ≡ w)
  unfolding authenticate
  try_all-refused auth users a rest later s m h u empty wrong g count soon =
      let w = try_all (a ∷ rest) (s, m) in
      let (same, blocked) =
        all-block auth users 0 later.at a rest s m h u wrong g (omega (arith, count)) soon
          (fresh-Ready a.at m empty) in
      (same, ground (arith, blocked), ground (arith, blocked))
