-- ===== src/Lib.antt =====
-- Phantom Share: one-time secrets that are shared by signed links.
--
-- The program is a web service (app/) on PostgreSQL (database/migrations) and Redis. A user creates a
-- secret, which the server encrypts under a key of its own unless the client has done so, and hands
-- out a signed link. A reader follows the link: the token, the location policy, the listed
-- recipients and the password are checked, the text is decrypted, and the view is counted; the last
-- view deletes the secret. The owner may write new versions, restore old ones, rotate the key, change
-- the policy or delete the secret. A file is a secret whose content is encrypted in chunks and kept in
-- object storage. Users register, log in to a session and rotate its refresh token. A cleanup service
-- removes what has expired and retries deletions of objects, and a worker tells owners by mail or by a
-- web request that a secret was viewed. Around that stand a rate limit and a
-- quota in Redis, and an audit log; administrators read it, change roles, switch accounts off and set
-- quotas.
--
-- Prelude, Result, Text: shared names and Boolean tests, results that may be an exception, texts.
-- Sql: tables as lists of rows and the statements issued on them; Sql/Laws: what a SELECT finds;
-- Sql/Counting: counts and maxima; Sql/Page: order and pages.
-- Schema: the tables of database/migrations, cascades and triggers of a deletion.
-- Permissions: app/core/permissions.py. ClientIp: app/core/client_ip.py. Crypto: app/helper.py.
-- Tokens: the share tokens of app/core/security.py. Audit: app/services/audit_service.py.
-- Keys: app/services/key_service.py. Location: app/services/location_policy_service.py.
-- Content: the specification that keys and versions share, what a reader is shown for a secret and
-- for one of its versions, and when the rows of a secret agree (IsManaged).
-- Vault: the specification of a text secret over all its operations, as texts and views left.
-- Versions: app/routers/secret_versions.py. Secrets: app/routers/secrets.py (Rows and
-- Create; Guards, Views and Retrieve; Manage) and app/routers/secret_access.py (Access).
-- RateLimit: app/core/rate_limit.py. Quota: app/services/quota_service.py, its Lua
-- scripts in Scripts, and app/routers/quotas.py in Overrides.
-- Admin: app/routers/admin.py, its audit log in Entries, the calls behind the check of the caller in
-- Calls, and app/routers/stats.py.
-- FileCrypto: app/services/file_crypto.py. Files: app/routers/files.py, file_versions.py and
-- file_support.py. Files/Stage holds the try and except steps that an upload and a new version share,
-- Files/Form, Files/Upload and Files/Download the routes of files.py, Files/Revise and Files/Update
-- the one of file_versions.py.
-- Accounts: app/routers/auth.py (Sessions, Verification) and the JWT part of app/core/security.py.
-- History: app/routers/secret_views.py.
-- Notifications: app/services/notification_service.py and notification_worker.py, on the broker of
-- Amqp, with the queues and messages in Messages. Notifications/Lanes is their specification.
-- Cleanup: app/services/cleanup_service.py (Worker: expiry and sweep, Storage: the outbox).
-- Tests: stand-ins for the libraries, small tables, and an example of each theorem.
--
-- A transaction is a function from the tables to a result with the new tables: an exception is a
-- rollback. A handler that also writes outside of its transaction returns its result beside the
-- state. The row locks of the code make the transactions on one secret follow each other, so runs
-- are lists of requests. A script of Redis is one step. An id is a number that is only compared, an
-- instant is a number of microseconds, and each request reads the clock once. An integer that Redis
-- may take below zero is a difference of two numbers. Most recursions are on a list, a text or a
-- number that gets smaller. Loops that read a stream in chunks take fuel: the length of the source
-- for reading and encrypting, since each pass takes at least one byte, and the length of the body
-- and one for decrypting, where the last pass meets the end; the retries of the notifications take
-- more than the rounds that the messages have left, and those that views told meanwhile add. A
-- handler of several transactions takes what other requests do between two of them as an argument,
-- `meanwhile`.
--
-- The cipher, base64, the hash functions, the texts of UUIDs, the parser of addresses, the GeoIP
-- database, the QR code, object storage, the malware scanner, the JWT library, bcrypt and the mail
-- service are parameters, with laws that their documentation gives. Random bytes and drawn ids are
-- arguments, and so is the order that PostgreSQL gives to rows with the same time (`ties`). Which
-- texts it takes as INET is the field is_inet of Db: where it refuses the address of an audit
-- entry, the transaction of the caller is undone. The mail server and the called web sites are
-- answers in the list of events.
-- Not modelled: the loops that listen for events of Redis, which call the modelled functions; the
-- validators of the request schemas, whose fields the operations take as valid; the web pages; the
-- clients of object storage and of the malware scanner; tracing, settings and wiring, which have no
-- state of the application.
pub mod Prelude
pub mod Result
pub mod Sql
pub mod Text
pub mod Schema
pub mod Permissions
pub mod ClientIp
pub mod Crypto
pub mod Tokens
pub mod Accounts
pub mod Admin
pub mod Audit
pub mod Keys
pub mod Location
pub mod Content
pub mod Versions
pub mod Secrets
pub mod RateLimit
pub mod Quota
pub mod FileCrypto
pub mod Files
pub mod Cleanup
pub mod History
pub mod Vault
pub mod Amqp
pub mod Notifications
pub mod Tests
