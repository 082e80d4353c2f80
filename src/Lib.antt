-- ===== src/Lib.antt =====
-- Verification of datha-platform: the messenger's routes, database services and call consumer, the
-- event store, and the client's chat state.
--
-- The messenger keeps conversations, their participants, messages and calls in Postgres. HTTP routes
-- call the services of messenger-service/src/services, which each run one transaction; a NATS
-- consumer, messenger-service/src/nats/calls-consumer.ts, projects the call events of the realtime
-- service into the same tables. A page of the client is a list read from those tables, with a cursor.
--
-- Base holds the shared names. Base/Tests has Boolean tests on numbers, Base/Lists and Base/Queries
-- lists as tables (WHERE, UPDATE, ORDER BY, LIMIT), Base/Tables lookups by a key, Base/Json the values
-- of `JSON.parse`, and Base/Iso the conversions of `Date` and of Postgres's timestamptz cast, which
-- are parameters with the laws that the code relies on.
--
-- Messenger/Rows and Messenger/Wire model types/messenger.ts: `Db` is the record of the five tables.
-- A time in a table is a count of microseconds; a row that came through the driver has milliseconds
-- (`read_date`, `bind_date`). Messenger/Result is what a service throws.
--   Messenger/Calls: services/calls.ts. `project_call` is projectCall, `merge_call` its ON CONFLICT,
--     `sweep_stale_calls` sweepStaleCalls, `list_conversation_calls` listConversationCalls,
--     `list_owner_calls` listOwnerCalls. Calls/View and Calls/Counts are what a reader can ask.
--   Messenger/Envelope and Messenger/CallsConsumer: services/envelope.ts and nats/calls-consumer.ts.
--     `parse_envelope`, `to_projection` and `handle_message` carry the functions' names.
--   Messenger/Messages: services/messages.ts and services/read-state.ts (`send_message`,
--     `list_messages`, `get_message`, `mark_read`).
--   Messenger/Authz: services/authz.ts (`can`, `load_conversation_facts`, `authorize_conversation`).
--   Messenger/Conversations and Messenger/Inbox: services/conversations.ts, the writes and the reads
--     (`create_conversation`, `upsert_participants`, `leave_conversation`, `list_conversations`,
--     `parse_cursor`, `get_unread_conversation_ids`).
--   Messenger/Routes: routes/messages.ts (Threads, with services/attachments.ts), routes/conversations.ts
--     (Chats) and routes/calls.ts (History). A handler returns the reply's status and data, the
--     database, the events it records and the frames it announces; input that its zod schema refuses
--     is `none`.
-- Messenger/Tests runs the theorems at concrete databases.
--
-- The event store keeps every event of the platform, and the dead letters of events that a consumer
-- gave up. EventStore/Rows models its two tables.
--   EventStore/Arrivals: services/ingest.ts and nats/consumer.ts of event-store/src (`ingest_event`,
--     `handle_event`); its parseEnvelope is the text of the messenger's, and is Messenger/Envelope.
--   EventStore/DeadLetters: services/dlq-publish.ts, dlq-ingest.ts and nats/dlq-consumer.ts.
--   EventStore/Cursors and EventStore/Listing: lib/cursor.ts and services/query.ts (`query_events`);
--     `walk` is a client that follows `nextCursor`.
--   EventStore/Distinct: the loose index scans of query.ts and dlq-query.ts.
--   EventStore/Replay and EventStore/DlqListing: services/dlq-replay.ts and dlq-query.ts. Replay/Once has
--     requests that run between each other's statements as a relation of steps.
--   EventStore/Retention: services/retention.ts, on the table as its partitions; the other modules see
--     the rows of `events` as one list.
--   EventStore/Requests and EventStore/Routes: lib/query-array.ts and the handlers of routes/events.ts and
--     routes/dlq.ts.
-- EventStore/Tests runs the theorems at concrete tables.
--
-- The client's chat state is the class ChatStore of
-- messenger-frontend/src/services/implementations/chat-store.service.ts.
--   ChatStore/Holders: which surfaces show which conversation, and the frames sent for them
--     (`acquire_thread`, `release_thread`, `open_conversation_page` for openConversation).
--   ChatStore/Threads: the rows of a thread (`set_thread`, `append_to_thread`, `replace_by_client_id`). A
--     send is cut at its request: `begin_send` before it, `finish_send` with its answer.
--   ChatStore/Recents: the list of conversations (`load_conversations`, `touch_conversation`).
--   ChatStore/Calls: the calls of each thread and the banner of an ongoing one (`ongoing_call_of`).
-- ChatStore/Tests runs the theorems. What stands between two awaits of the client is one step.
--
-- An operation takes the database and returns it with its result; one that throws after ROLLBACK
-- returns an error and no database, so that the caller keeps the one it had. A statement is atomic,
-- and a transaction is one step: concurrent transactions are not modelled. `randomUUID()` and `now()`
-- are arguments. The loops are structural on lists and texts, but for two on fuel: `walk` needs one
-- page more than there are events, and `list_distinct` one step more than there are rows.
--
-- Not modelled: HTTP and NATS plumbing, metrics, logs, Angular components, the chat store's
-- attachments, directory, presence and typing, the services in Go and
-- Python, and the other services; of the event store, the command line of retention, the creation of
-- partitions and the sampled lists of payload keys and values. The collation of the database, the cast to
-- uuid, base64url, JSON containment, `trim`, `Date.UTC`, the replies of file-service and the broker's
-- acceptance of a message, and the text of a thrown error are parameters.
pub mod Base
pub mod ChatStore
pub mod EventStore
pub mod Messenger
