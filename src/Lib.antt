-- ===== src/Lib.antt =====
-- The backend of a social network in Go: backend/social serves users, friends, posts and feeds,
-- backend/verifier judges new users, backend/dialog keeps private messages, and backend/pkg holds
-- what they share.
--
-- The social service keeps users, friends and posts in PostgreSQL. A feed is a query over them that
-- a Redis cache holds per user; the services put a notification on a queue after every change, and
-- the updater reads it, reloads the feeds that the change touches, and publishes them. A
-- registration is a saga: the user is stored as pending, an event goes to the verifier, whose answer
-- comes back on a second queue and raises the status of the user.
--
-- Base: Go's errors (pkg/model/errors.go), 64-bit integers, and lists.
-- Storage: the tables of backend/migrator/migrations as lists of rows, and each statement of
--   backend/social/internal/storage/sql with its constraints and its mapping of errors. The first
--   argument of a statement is the failure that the environment chooses, if any: it comes before the
--   server has run the statement, or after it (the error `lost`). The rows of a query of several rows
--   all arrive, or fail, or end early without an error, since the code does not read rows.Err.
--   Storage/Replicated and Storage/Pools have backend/pkg/storage/sql/replicated_db.go.
-- Cache: backend/social/internal/service/cache. The clients go-redis and redsync are a record of
--   operations over a state, with laws for the values that the server keeps; the converters
--   (Cache/Converters) are encoding/json. Cache/Workers has the loads of one key by any number of
--   goroutines, call by call: a step is one call of Redis, of the table or of the queue.
-- Feed: backend/social/internal/service/feed: notifications, updater and pages. encoding/json is a
--   codec that reads back what it wrote.
--   Feed/Subscriber has the operations of post_feed_user_subscriber.go that hold its mutex, and
--   Feed/Subscriber/Sending the delivery to the channels, which does not: the maps that each send
--   meets are an argument.
-- Service: the friend and post services of backend/social/internal/service. Service/Pending has the
--   services, the updater, readers of feeds and the expiry of values as one step relation over the
--   database, the queue and the caches; a step is atomic.
-- Saga: user_service.go and user_status_service.go of backend/social/internal/service, and
--   backend/verifier/internal/service/verifier_processor.go, as functions and as a step relation
--   over the database and the two queues.
-- Auth: backend/pkg/service/auth and backend/pkg/http/server/jwt_authenticator.go. The package jwx
--   is a record of operations with laws for the claims of a token, which Auth/Keys fills from the key
--   pair of NewFakeAuthenticator and the calls below it.
-- Http: the handlers of backend/social/internal/server/http/server.go, login_service.go, and the
--   routes of manual_routes.go (Http/Socket). Http/Routes puts them behind the validator of
--   oapi-codegen, which is a parameter.
-- Dialog: backend/dialog/internal, over its PostgreSQL storage; the hash of a dialog is a parameter.
--   Dialog/Memory has the Tarantool storage with the procedures of backend/tarantool/migrations.
--   Dialog/Inbox is what both storages promise: a quotient of lists by their order, and the
--   interface DialogStorage with its laws, which both fill.
--   Dialog/Generator has backend/dialog/cmd/dialog-generator over both.
--   Dialog/Remote has the calls of the social service: dialog_service.go, backend/pkg/http/client and
--   the two handlers of server.go. resty is a record of operations; that it delivers a request to the
--   other service is a hypothesis.
-- Queue: backend/pkg/queue. Queue/Worker has the goroutines of ReceiveData and of the three services
--   that handle messages (verifier.go, user_status_service.go, post_feed_updater.go) as a relation
--   over their two channels; Queue/Lifecycle has the Start and Stop of the consumers, the publishers
--   and the services, over calls of the AMQP library that are a parameter.
-- Server: what the main functions of backend/social/cmd/server, backend/dialog/cmd/server and
--   backend/verifier/cmd/server start and stop, as programs over the failures of each step, and
--   backend/pkg/zabbix.
-- Tracing: backend/pkg/tracing, and the middleware tracing.go of backend/pkg/http/server.
-- Middleware: the recorded status, the counters, the logged lines and the skipped routes of
--   backend/pkg/http/server.
-- Date: backend/social/internal/model/date.go.
-- Samples: the concrete server, formats and tables of the tests.
--
-- Recursion is structural but for the loop of a page, whose fuel is one more than the length of the
-- cached feed; a page without fuel would be `exhausted`, and the theorems on pages give its posts.
-- Times are numbers, and those of messages microseconds, of which Tarantool keeps the second;
-- identifiers and texts are strings, and hashes are lists of numbers.
--
-- Not modelled: what else is logged; the values of the configuration; generated code; the clients of
-- PostgreSQL, Redis, RabbitMQ and Tarantool, and of WebSockets; the script of requests in
-- backend/social/cmd/client; what backend/pkg/zabbix measures; the HTTP servers that main starts and
-- their Shutdown. The steps of Service/Pending are whole operations; the calls inside a load
-- interleave in Cache/Workers only, for one key.
pub mod Base
pub mod Storage
pub mod Cache
pub mod Feed
pub mod Service
pub mod Saga
pub mod Auth
pub mod Http
pub mod Dialog
pub mod Queue
pub mod Server
pub mod Tracing
pub mod Middleware
pub mod Date
pub mod Samples
