-- ===== src/Lib.antt =====
-- Verification library of the XRPL NFT activity monitor. The monitor follows the XRP ledger over
-- several nodes, takes the NFT transactions that it receives into batches and writes them to the
-- database, matches the recorded activities against the alerts of its users, and notifies the
-- users over Discord, e-mail and webhooks.
--
-- The state of a service is a record, and each of its methods is a function on it. What the code
-- reads from outside (the clock, new keys, the answers of the network, of the database's relations
-- and of the channel services) is an argument. A method that awaits is cut into steps where other
-- calls can run in between, and the orders of steps are explicit: a list of events, or a step
-- relation. An exception is a value.
--
-- The parts of the program and the files that model them:
--
-- - Prelude: tests and lists over native numbers, the runtime's Map as an association list in
--   insertion order, decimal texts, JSON values, and the outcome of a call that can throw.
-- - Transaction.Dedup:
--   src/features/transaction-processing/services/transaction-deduplication.service.ts, the cache
--   of processed transactions, its eviction and its cleanup.
-- - Transaction.Ingestion: transaction-ingestion.service.ts beside it. An event is a delivery, a
--   handler that goes on after its duplicate check, a tick of the batch timer, or one of the three
--   ends of a batch write. It uses Transaction.Dedup.
-- - Transaction.Consumer: transaction-consumer.service.ts there, from the events of the queue
--   (Queue.Consumer) to the ingestion. It takes its events from Xrpl.Relay.
-- - Transaction.Tables, Transaction.Batch: transaction-batch-processor.service.ts there, on a
--   database of tables; a batch is cut into chunks, and the calls of the alerts' processing and
--   the rows that each call finds are part of it.
-- - Transaction.Meta, Transaction.Messages, Transaction.Parser: nft-transaction-parser.service.ts
--   there, on the JSON of a message. A TypeError is an outcome.
-- - Metadata.Normalize, Metadata.Images, Metadata.Fetcher:
--   src/features/metadata/services/nft-metadata-fetcher.service.ts, its standard form, its images
--   and its sources. Metadata.Enrichment: metadata-enrichment.service.ts beside it, which uses the
--   fetcher.
-- - Alert.Data, Alert.Repository: the entity of an alert, and alert-config.repository.ts of
--   src/features/alerts with the table as a Map.
-- - Alert.Traits, Alert.Matching: alert-matching.service.ts. The method evaluateAlertMatch is cut
--   at its blocks (collection, price, traits), each a function that calls the next. It uses
--   Alert.Repository for the candidates.
-- - Alert.Dispatch: alert-notification.service.ts beside it, from an activity to the notifications
--   of the alerts that match it. It uses Alert.Matching and Notification.Processor.
-- - Alert.Config: alert-config.service.ts, the checks and the ownership of alerts, and the pages
--   of a user's alerts.
-- - Notification.Payload, Notification.Processor, Notification.Statistics:
--   notification-processor.service.ts of src/features/notifications. A timer is an entry with its
--   due time, and every attempt is recorded with its time.
-- - Notification.Webhook: webhook-notification.service.ts there, its settings, the body of its
--   requests and the answers to them.
-- - Notification.Channels: discord-webhook.service.ts and email-notification.service.ts there, and
--   the choice between the channels.
-- - Notification.Processor.Lifecycle: the life of one notification as a state machine, which the
--   processor refines.
-- - Auth.Passwords, Auth.Tokens, Auth.Repository, Auth.Users, Auth.Guard: src/features/auth and
--   src/features/users, the services of passwords, tokens and users, the table of users, and the
--   guards with the registration. Auth.Users writes the table by Auth.Repository and asks
--   Auth.Passwords and Auth.Tokens; the guard asks both services.
-- - Xrpl.Ledgers, Xrpl.Nodes: xrpl-connection-manager.service.ts of src/modules/xrpl-connection,
--   its ledger gaps and its nodes; Xrpl.Relay, what it passes on from the streams; Xrpl.Backfill,
--   how the ledgers of a gap are asked for again, over Xrpl.Retry.
-- - Xrpl.Retry: utils/retry.util.ts there.
-- - Queue.Consumer: src/modules/queue/services/event-consumer.service.ts, one delivery of a
--   message, and all of its deliveries; Queue.Consumers, the register of its consumers.
-- - Queue.Connection, Queue.Topology, Queue.Publisher: rabbitmq-connection.service.ts,
--   queue-health.service.ts and event-publisher.service.ts there, with the names of
--   src/modules/queue/constants. The losses and reconnections of the broker's connection are
--   events, and what is asked of the broker is a list of commands.
-- - Health: src/features/health/services/health-check.service.ts, over the answers of the parts:
--   those of Queue.Connection and Xrpl.Nodes, and of the database, the cache, the alerts and the
--   notifications.
--
-- The proofs of a part stand in its child modules, and concrete runs in its module Tests.
--
-- Bounds: numbers are natural numbers, as counters, times and ledger indices do not become
-- negative and stay far below 2^53. The digits of a number are produced on fuel of one more than
-- the number, which is enough, since each step divides by ten. The deliveries of a message recurse
-- on fuel as well, and four are enough. So does the loop over the chunks of a batch; one more than
-- the transactions is enough where the batch size is not zero, and the code does not end where it
-- is. All other functions recurse on their data; a retry recurses on the retries that are left,
-- and a backfill on the ledgers that are left.
--
-- Not modelled: the texts and pages that Discord and e-mail are sent, the classifier of
-- transactions, which scores in floating point and which only its own controller calls, and the
-- cache, which wraps the library of Redis; controllers, modules, entities that are only stored,
-- migrations and the logger, which are glue around libraries. A database write that fails appears
-- only where the code handles it, in the ingestion and in the chunks of a batch. The settings of a
-- price are texts of digits, and JSON numbers are the texts that they print as.
pub mod Prelude
pub mod Transaction
pub mod Metadata
pub mod Notification
pub mod Alert
pub mod Auth
pub mod Xrpl
pub mod Queue
pub mod Health
