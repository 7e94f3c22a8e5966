-- ===== src/Lib.antt =====
-- A model of the parts of wifigo that sell access to a hotspot, and the theorems that they are
-- right. wifigo takes an order for a service plan, is called back by M-Pesa when the payment has
-- been made, writes the user into the tables of a FreeRADIUS server, and tells a MikroTik router
-- to log the user in. The paths below are those of the repository.
--
-- The parts, and the files that model them:
--
-- * Radius (server/handler/hotspot_user.go, server/handler/radius.go, server/dto/radius.go,
--   server/database/model/radius.go): the users of the RADIUS server.
--   Rows has the tables `radcheck`, `radreply` and `radusergroup` and the requests. Engine has the
--   SQL statements as data, what each one does, and the database, a parameter (below). Queries has
--   the helper functions (`userExists`, `insertRadCheck`, ...), Transaction the shape of a handler
--   in a transaction: steps that go on with working tables, or stop with an answer and roll back.
--   Create has `CreateHotspotUser`, `GetHotspotUser` and `DeleteHotspotUser`; Sync the loop that
--   `UpdateHotspotUser` writes out three times; Update the rest of it; Attributes the handlers of
--   single rows; Subscription `IsUserExpired` and `ManageHotspotUser`.
-- * Mpesa (server/service/mpesa.go, server/handler/mpesa_callback.go, server/database/model):
--   Payment has `SaveMpesaPayment`, Callback has `MpesaStkHandlerCallback` from the parsed payload
--   on, Parse has `ParseCallback` and the head of the handler, Phone the spellings of telephone
--   numbers, also `formatPhoneNumber` of server/handler/mpesa_stk.go. The handler calls
--   `ManageHotspotUser` of Radius.Subscription. What it sends, enqueues and answers is a list of
--   events.
-- * Jwt (lib/middleware/jwt.go, lib/middleware/twoFA.go, service/security.go, handler/logout.go):
--   the module itself has `GetJWT` and the choice of the key that validates a token, Filters the
--   filters `JWT`, `RefreshJWT`, `JWTBlacklistChecker` and `TwoFA`, Routes their chains in
--   server/router/router.go, Logout `Logout` with the blacklist in Redis, LoggedOut the chains after
--   a logout. A filter goes on, aborts, or panics on a nil pointer.
-- * TwoFactor (handler/twoFA.go, handler/login.go, service/auth.go, service/common.go,
--   service/twoFA.go, lib/twoFA.go, database/model): Actions has the shape of a handler, a step
--   that goes on or answers and keeps what has been written; Setup, Activate, Validate, Deactivate
--   and Backup have the six handlers of two-factor authentication, Codes the generation of backup
--   codes, Login `Login` and `Refresh`, which issue tokens by `GetJWT` of Jwt. The state is the
--   tables, the secrets in memory and the images.
-- * Mikrotik (mikrotik/manager.go): Pool has `DevicePool`, a bounded queue of connections, Manager
--   the pools by device ID.
-- * Websocket (websocket/hub.go): Hub has the connections by address and the loop of `Run`, on a
--   sequence of messages.
-- * Base has the shared types: Outcome for a pair of value and error, Words for Go's functions on
--   strings, association lists for maps, Boolean tests on texts and numbers, and integers.
--
-- Parameters. The databases are records of functions that may fail at any statement, with an error
-- of any text; that a statement which reports no error has done what its SQL text says is the
-- hypothesis `IsSql` (Radius.Engine) or `IsApp` (Mpesa.Orders). The clock and the layout of times
-- are `Host` (Radius.Subscription), the dials of go-routeros are `Dialer` (Mikrotik.Pool), the
-- errors of the task queue are `QueueClient` (Mpesa.Callback). The JSON and the layouts of the
-- callback are `Formats` (Mpesa.Parse). The package golang-jwt is `Library` (Jwt) with the
-- hypothesis `IsJwt`, Redis is `Redis` with `IsRedis` (Jwt.Logout), the database of the accounts is
-- `AuthDb` (TwoFactor) with `IsBackupDb` (TwoFactor.Used), and the packages for passwords, hashes,
-- ciphers, codecs, one-time passwords, images and identifiers are `Packages` (TwoFactor), with
-- `lib.ValidateEmail`, which asks the domain name system, and `lib.Encrypt` and `lib.Decrypt`,
-- which only call the cipher. Bytes are texts there, and times are seconds. The Tests modules have
-- concrete ones.
--
-- What the model fixes: texts are compared exactly, as under a binary collation; a handler runs by
-- itself on the tables, without another one between its statements; a rollback restores the tables
-- of the beginning; Go's walk through a map is in the order of the rows; the `id` columns and the
-- times of creation are left out; a duration fits into the nanoseconds of an `int64`. A missing
-- database (`GetDB` returning nil) is modelled where the code tests for it. The connections of a
-- pool are the numbers of their dials. The lifetimes of tokens are not negative, white space is
-- that of ASCII, and a recovery key is not longer than an identifier without its dashes. All loops
-- are over lists, or over the capacity of a pool, but the one of `CreateBackup2FA` that tries again
-- until a code has been generated: it runs on fuel, one unit for an attempt, and the source of
-- randomness is a sequence. Enough fuel is one attempt for each position up to the last failure of
-- the source, and one more.
--
-- Not modelled: registration and the reset of passwords, the controllers, the other
-- handlers and filters, the task queues, the upgrade of WebSocket requests, the
-- store of device configurations, and the wiring of gin, gorm, Redis and the migrations.
pub mod Base
pub mod Jwt
pub mod TwoFactor
pub mod Radius
pub mod Mpesa
pub mod Mikrotik
pub mod Websocket
