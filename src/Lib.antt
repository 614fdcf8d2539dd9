-- ===== src/Lib.antt =====
-- netplex-support: the support service (a FastAPI application under app/) that takes in reports as
-- tickets, verifies and registers license tokens, and distributes signed release manifests.
--
-- The parts, and where they are modelled:
--   RateLimit     app/ratelimit.py: rate_ok over its dictionary of deques
--   Auth, Ip      app/auth.py: the Bearer check, and client_ip behind trusted proxies; Ip is what it
--                 uses of Python's ipaddress
--   Config        app/config.py: the settings that the routes read, as a record
--   Database      the database behind app/models.py, as a record of `select` and its laws
--   Tickets       app/models.py: the ticket table, create_or_dedupe, the lookups and the admin queue
--   Signing       app/crypto/signing.py: canonical_bytes, sign_manifest, TrustStore, verify_manifest
--   Licensing     app/routers/licensing.py, with the license tokens of app/models.py
--   Releases      app/routers/releases.py, with the release manifests of app/models.py
--   Blobs         app/storage/blobs.py: put_blob
--   Diagnostics   app/routers/diagnostics.py: the intakes /forward, /web, /email and /attachment
--   TicketRoutes  app/routers/tickets.py: the views of tickets
--   Access        the admin routes of the routers together
--   BodyLimit     app/main.py: _BodySizeLimitASGI
--   Concurrency   tools/concurrency_report.py: analyze, over the check-ins of a ledger
--   Minting       tools/mint_license.py: the policy guard, and the license token that is signed
--   Revocation    tools/mint_crl.py: the revocation list that is signed
--   Stamping      tools/stamp_download.py: stamp_artifact, with what it writes
--   Attribution   tools/attribute_leak.py: _verify and _attribute, in Attribution/Rows _load_ledger, and in
--                 Attribution/Scan _scan, with its regular expression in Attribution/Pattern
--   Takedown      tools/dmca_packet.py: the notice of a leaked token, and in Takedown/Template the
--                 template that it fills
--   Offline       tools/gen_keypair.py, tools/sign_release.py, tools/sign_integrity.py
--   Migration     app/db.py: _add_missing_columns, over the tables and columns of a database
--   Json, Base64  what the code uses of Python's json and base64; Prelude has texts, lists, numbers
--   Json/Dump     json.dumps, in the styles that the tools use
--   Cryptography  what the tools take from the package `cryptography`, as a record
--   Tool          how a run of a tool ends: with a result, by sys.exit, or by an exception
--   Platform      what the code takes from PyNaCl, hashlib and json.loads, as a record
--   Http          what a route answers
-- The parts meet as in the code: the intakes call Auth, RateLimit, Licensing and Tickets, the routes
-- of Licensing and Releases call Auth, Signing and their tables. The tools meet by what they write:
-- Licensing reads the tokens of Minting, Releases the manifests of Offline, Attribution searches for the
-- texts of Stamping and Minting, and Takedown reports what Attribution reads.
--
-- How the code is read. A route is a function of the settings, the request and the state it uses; it
-- returns a `Reply`, which is a value, `error` for HTTPException, or `crash` for any other exception
-- (status 500), and the state behind it. A table is the list of its rows in the order of insertion; a
-- commit is the new list. What a call takes from outside stands among its arguments: the readings of
-- the clocks (`Clock`, `Fresh`), the random token of a new ticket, the id of a new row. Times of the
-- rate limiter are in nanoseconds, and integers are unbounded, as Python's are. `none` in `Fields` is a
-- keyword that is absent, or None where it has no default; no caller gives None for one that has. A
-- manifest file of sign_release.py that holds no JSON object is taken to raise, and the refresh of a row
-- that was committed to succeed. JSON values are held as read; a number with a fraction or an
-- exponent is held by its text, and what it is as a float is asked of the Platform, as is json.loads.
-- Loops are recursion on lists; the one use of fuel, the digits of a number, has the number itself as
-- its fuel. Texts are sequences of Unicode scalar values, so that encoding them does not raise.
--
-- Not modelled: the engine, the sessions and create_all of app/db.py, the start-up and CORS set-up of
-- app/main.py, the constant answers of its home, health and robots routes, the interleaving of
-- requests in one database, negative limits of the admin queue, and how argparse reads the tools' options.
-- Files are held by their bytes or their texts, in UTF-8; of `str.lower` the model has what it does in
-- ASCII, and so takes the tiers to be ASCII. A regular expression is a list of single characters and
-- starred classes, matched by backtracking.
pub mod Migration
pub mod Prelude
pub mod RateLimit
pub mod Http
pub mod Ip
pub mod Config
pub mod Auth
pub mod Database
pub mod Tickets
pub mod Json
pub mod Base64
pub mod Platform
pub mod Cryptography
pub mod Tool
pub mod Minting
pub mod Revocation
pub mod Attribution
pub mod Takedown
pub mod Offline
pub mod Stamping
pub mod Signing
pub mod Licensing
pub mod Releases
pub mod Blobs
pub mod Diagnostics
pub mod TicketRoutes
pub mod BodyLimit
pub mod Access
pub mod Concurrency
mod Examples
