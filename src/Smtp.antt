-- ===== src/Smtp.antt =====
-- internal/smtp: the server side of SMTP, which github.com/emersion/go-smtp calls, and the client
-- that delivers mail.
pub mod Backend
pub mod Session
pub mod Client
