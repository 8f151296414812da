-- ===== src/Sandbox/Bounced.antt =====
-- Bounces of internal/queue/processor.go in internal/sandbox/sender.go.
use sendry.Base.{ℕ, ◌≡◌, none, [], ◌∷◌, ◌++◌, Text, split_last, arith}
use sendry.Email.{extract_domain, after_at}
use sendry.Queue.Message.{Message}
use sendry.Queue.Processor.{bounce_message}
use sendry.Sandbox.{Sender, Outbox, Chance, send}

module _ (snd : Sender) where
  open snd use {real_send, parse_address}

  -- A bounce that the processor makes goes to the real sender in every mode: it has no sender, and
  -- so no domain whose mode would be looked up. The parser refuses the empty address.
  send_bounced :
      (now t : ℕ) (chance : Chance) (id dsn : Text) (m : Message) (o : Outbox)
      → parse_address [] ≡ none
      → let bounce = bounce_message t id m dsn in
        ((send snd now chance bounce o).0 ≡ real_send bounce)
        × ((send snd now chance bounce o).1.sent ≡ o.sent ++ (bounce ∷ []))
  unfolding send extract_domain after_at split_last
  send_bounced now t chance id dsn m o refused = ground (arith, refused)
