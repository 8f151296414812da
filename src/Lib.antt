-- ===== src/Lib.antt =====
-- A verification library for sendry, a mail transfer agent in Go: a mail is accepted over SMTP or
-- HTTP, stored in a queue in a bolt database, and delivered by workers that retry, bounce and give
-- up; a web interface manages domains and sends campaigns through such servers. The development
-- models the core of that path, the campaigns with their worker, the sending API of the web
-- interface, and the synchronisation of the domains' DNS records.
--
-- The parts and the files that model them:
--   * internal/ratelimit/limiter.go is Ratelimit: the map of counters is an association list, and
--     Allow, AllowRecipient, Check, GetStats and cleanupExpiredCounters are functions of it.
--   * internal/email/email.go and ExtractDomain of internal/dns/resolver.go are Email.
--   * internal/queue/message.go is Queue.Message; internal/queue/storage.go is Queue.Storage with
--     Reading (List, Delete, Stats), DeadLetter (the methods of the dead letter queue) and Cleanup.
--     The state is a record of four buckets; a transaction is a function into Option, and `commit`
--     keeps the old state where it returns an error. bbolt and the text of a time are the interface
--     Queue.Bolt, a record of operations and laws, of which Queue.Bolt.Sample is an instance.
--   * internal/queue/processor.go is Queue.Processor: processOne on the database and the counters,
--     with the sender and the generator of bounces as parameters; calculateBackoff is Queue.Backoff.
--   * internal/smtp/backend.go and internal/smtp/session.go are Smtp.Backend and Smtp.Session: the
--     failures of authentication are a map from addresses, the commands of a session functions of
--     its state, and DATA queues a message by the operations of Queue.Storage.
--   * internal/smtp/client.go is Smtp.Client: the delivery to the hosts of each domain, over the
--     answers of the servers, with what they have accepted as a list.
--   * internal/ipfilter/ipfilter.go is IpFilter, over an interface for package net.
--   * internal/headers/rules.go and internal/headers/processor.go are HeaderRules.
--   * internal/sandbox/sender.go is Sandbox: Send by the mode of a domain, with the messages handed
--     to the real sender as a list.
--   * internal/web/dnssync/plan.go and internal/web/dnssync/sync.go, which the web interface calls,
--     are DnsSync, with the provider of internal/web/dnsprovider/provider.go as a state.
--   * The campaigns are Jobs: internal/web/repository/job.go is Jobs.Repository (the statements that
--     write) and Jobs.Reading (the queries) on a record of tables, which are lists of rows;
--     internal/web/worker/worker.go is Jobs.Mails (the mail of an item) and Jobs.Worker (a tick);
--     internal/web/handlers/jobs.go and CampaignSend of internal/web/handlers/campaigns.go are
--     Jobs.Requests. Jobs.Ticks and Jobs.Tracking take a tick apart into small changes, over which
--     the theorems about the store are proved; Jobs.Events puts ticks and requests in any order.
--   * The sending API of the web interface is Api: internal/web/middleware/middleware.go is Api.Limits
--     (the counters of the keys) and Api.Auth (APIAuth), internal/web/repository/apikey.go is Api.Keys,
--     internal/web/router/router.go is Api.Content (what is sent), Api.Selection (the servers) and
--     Api.Router (Send with its failover), and internal/web/handlers/api.go is Api.Handlers. SHA-256, new
--     ids, the template engine and the mail servers are parameters; a panic is the value `none`.
--   * internal/template/storage.go is Templates: the templates and the index of their names, on the same
--     interface for buckets.
--   * internal/domain/manager.go is Domains: the signers are a map, and a key file is a parameter.
--   A session calls the limiter and the storage; the processor calls the storage, the limiter and a
--   sender, which is the sandbox before the client; the sandbox applies the header rules.
--
-- Numbers: a time or a duration is a number of nanoseconds, and the clock is an argument. Counts are
-- natural numbers; where the Go int can overflow, in the backoff, the words of 64 bits are written
-- out. Strings are lists of bytes, and their letter case is that of ASCII. No function needs fuel:
-- all loops run over lists or count attempts.
--
-- Not modelled: goroutines, tickers, logs and metrics; the JSON text of a message (a stored value is
-- a message or bytes that do not decode); opening the database; the persistence of the counters;
-- STARTTLS and deadlines, the HTTP API of the mail server, the rest of the web interface, and
-- failures of its SQL database.
pub mod Api
pub mod Base
pub mod DnsSync
pub mod Domains
pub mod Email
pub mod HeaderRules
pub mod IpFilter
pub mod Jobs
pub mod Queue
pub mod Ratelimit
pub mod Sandbox
pub mod Smtp
pub mod Templates
