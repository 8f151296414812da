-- ===== src/Queue/Processor/Bounces.antt =====
-- The bounces of internal/queue/processor.go.
use sendry.Base.{ℕ, ◌≡◌, refl, true, inl, inr, none, Option-cases, Text, arith}
use sendry.Queue.Message.{Message, SendError, error_text}
use sendry.Queue.Bolt.{Env}
use sendry.Queue.Storage.{Db}
use sendry.Queue.Processor.{
  ProcessorConfig, Services, handle_failure, send_bounce, dispose, bounce_message,
  is_bounce_message, failed_once, given_up,
}

bounce_message-IsBounce :
    (now : ℕ) (new_id : Text) (m n : Message) (dsn : Text)
    → n.from ≡ (bounce_message now new_id m dsn).from
    → is_bounce_message n ≡ true
unfolding is_bounce_message
bounce_message-IsBounce now new_id m n dsn h = ground (arith, h)

-- The same services without a generator of bounces.
abbrev pub silent : Services → Services
silent svc = record svc { generate_dsn = none }

module _ (e : Env) (svc : Services) where
  send_bounce_none :
      (now : ℕ) (new_id : Text) (m : Message) (error : Text) (db : Db e)
      → is_bounce_message m ≡ true
      → send_bounce e svc now new_id m error db ≡ db
  unfolding send_bounce
  send_bounce_none now new_id m error db h = elim (Option-cases svc.generate_dsn) [
    | inl off ↦ rw (off, send_bounce) refl
    | inr (generate, on) ↦ rw (on, h, send_bounce) refl
  ]

  -- No bounce is sent for a bounce: a message with the sender of a bounce that the processor has
  -- made counts as one, whatever has become of its status, attempts and errors, and for a message
  -- that counts as one the processor handles the failure as it would without a generator of
  -- bounces.
  pub handle_failure_bounce :
      (cfg : ProcessorConfig) (now : ℕ) (new_id : Text) (err : SendError) (m : Message) (db : Db e)
      → (is_bounce_message m ≡ true
          → handle_failure e svc cfg now new_id err m db
            ≡ handle_failure e (silent svc) cfg now new_id err m db)
        × ((t : ℕ) (id dsn : Text) (n : Message)
            → n.from ≡ (bounce_message t id m dsn).from
            → is_bounce_message n ≡ true)
  unfolding handle_failure send_bounce dispose is_bounce_message
  handle_failure_bounce cfg now new_id err m db = (
    λ h.
        rw
          (send_bounce_none now new_id (given_up e svc (failed_once e svc now err m))
            (error_text err) db h)
          refl,
    λ t id dsn n. bounce_message-IsBounce t id m n dsn,
  )
