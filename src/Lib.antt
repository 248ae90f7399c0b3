-- ===== src/Lib.antt =====
-- OpenVPN server with a web UI: a verification library of the core of its Python code.
--
-- The web UI (ui/app) keeps its state in PostgreSQL (db.py). A collector thread (collector.py)
-- polls OpenVPN's management interface and writes sessions and traffic; a maintenance thread
-- rolls old traffic up. Administrators and clients sign in (auth.py), edit the certificates, the
-- addresses and the configuration (pki.py), and give clients access to an Apple network relay
-- (relay.py), which asks a separate read-only service (policy_server.py) and whose activity is
-- recorded (relay_history.py). The profiles that configure the relay are signed by a service beside
-- the gateway's certificates (signer/service.py).
--
-- Base: shared names and lemmas. Text is the list of its code points; numbers are natural, with ℤ
--   where the code subtracts byte counters.
-- Db: ui/app/db.py. `Db.Schema` has a record for each table's row and `Db` with the tables as
--   lists of rows and the next values of the identity columns. `Db.Address`, `Db.Traffic`,
--   `Db.Sessions` and `Db.History` have an operation for each method, with the SQL it runs
--   written out: SELECT, UPDATE, DELETE, ORDER BY and ON CONFLICT are those of `Base.Tables`. A
--   transaction is one step; one that the database refuses leaves the old tables. `Db.Grouping` is
--   GROUP BY, `Db.Reports` the queries that use it, `Db.Connections` connection_stats. `Db.Sums`,
--   `Db.Totals`, `Db.Visits`, `Db.Groups`, `Db.PerClient` and `Db.Traces` prove.
-- Auth: ui/app/auth.py. `Auth.Limiter` is LoginLimiter with its dict as a list, oldest first, and
--   the monotonic clock in nanoseconds; `Auth.WebSessions` the cookies; `Auth.Passwords` the
--   hashes. SHA-256, scrypt and base64 are parameters. `Auth.Backoff`, `Auth.Parallel`,
--   `Auth.Cookies` prove.
-- Collector: ui/app/collector.py. `Collector.State` is what the thread keeps, `Collector.Poll`
--   the method poll() and its transaction, `Collector.Turn` _handle_down() and a turn of run(),
--   with the reading of the logs, whose pauses are counted in sixteenths of a second. The status and the load that the management
--   interface answers are data. `Collector.Log` is what read_logs() does with parsed lines,
--   and `Collector.Reading` its transactions, one for each file and one for the devices.
--   `Collector.Position` is which bytes of a log it takes, beside the queue that it implements,
--   and `Collector.Source` where the status comes from. `Collector.Visits`, `Collector.Runs`,
--   `Collector.Described` and `Collector.Lines` prove.
-- Mgmt: ui/app/mgmt.py. `Mgmt.Command` has the commands and their retry, with a connection as the
--   lines that it will deliver; `Mgmt.Wire` how these lines and the login are read from a socket,
--   which is what the next calls of recv return; `Mgmt.Status` the status, its file, load-stats
--   and version. `Mgmt.Answers`, `Mgmt.Framing`, `Mgmt.Fields` and `Mgmt.Printed` prove.
-- Pki: ui/app/pki.py. `Pki.Names` is validate_name, `Pki.Options` option_name and check_edit,
--   with the scanner as a function of its state; `Pki.Addresses` static addresses and guests;
--   `Pki.Clients` the list of the clients; `Pki.TwoFactor` write_config and the two-factor switch.
--   Python's ipaddress and the pattern of easy-rsa's variables are parameters. `Pki.Spellings`,
--   `Pki.Editing`, `Pki.Owners`, `Pki.Lines` and `Pki.Enforced` prove.
-- Relay: `Relay.Authorize` is ui/app/relay.py from eligibility to authorization, `Relay.Policy`
--   is ui/app/policy_server.py with its answers and its bounded number of requests,
--   `Relay.History` ui/app/relay_history.py. JSON, certificates and the index are read by
--   parameters (`World`). `Relay.Access` proves.
-- Network: ui/app/network.py. `Network.Settings` has the settings' records and the helpers that
--   check one value, `Network.Checks` validate() and what it calls; `none` is an error. Python's
--   ipaddress and urllib are parameters (`Parsers`). `Network.Addressing` and `Network.Sites`
--   prove.
-- Api: ui/app/main.py. A handler is a function to its answer, or the status of its error, and the
--   database that it leaves. `Api.Requests` checks who asks, `Api.Login` signs in and changes
--   passwords, `Api.Links` are the one-time download links, `Api.Accounts` portal accounts,
--   `Api.Lifecycle` and `Api.Handlers` what is done with a client, over the list of the clients
--   in `Pki.Clients`; `Api.Series` are the graphs of `Db.Series`. What a script of the PKI leaves
--   is an argument. `Api.Delivery` runs requests for links at the same time; `Api.Boundary` is
--   ui/app/portal_boundary.py. `Api.Entry`, `Api.Removal`, `Api.Distinct`, `Api.Portal`,
--   `Api.Points` and `Api.Graph` prove.
-- Watchdog: ui/app/watchdog.py, the count of failed health checks and what it guarantees.
-- Recovery: bin/recover-checkout.py, is_code and runtime_plan; what Git and the files hold is
--   read by a parameter. `Recovery.Plan` proves.
-- Signer: signer/service.py. `Signer.Profiles` is which profiles are signed, `Signer.Identity` the
--   choice and the cache of the key, `Signer.Dispatch` the answer to a request, and `Signer.Load`
--   the connections and slots that requests share. plistlib, ssl, base64 and openssl are
--   parameters. `Signer.Allowed`, `Signer.Latest`, `Signer.Chosen` and `Signer.Answers` prove.
-- Tests: each theorem at a concrete input.
--
-- Loops are structural recursion on their input, but for three on fuel. fill_series has one more
-- than the end of its range in seconds, which is enough since each turn is a second or more closer.
-- The loop over the lines of an answer has more than the bytes of the connection, since each line
-- takes one at least; the wait for the answer to the password is given its fuel likewise. Times,
-- ids and counters are unbounded, as in Python; the BIGINT columns of the database are not
-- bounded here.
--
-- Not modelled: the handlers of ui/app/main.py that create clients or show the server, its
-- settings, files and logs, the files that network settings are written to, relay services, the
-- patterns of the collector's log reading, backups, migrations, the other scripts in bin and the
-- relay itself.
pub mod Base
pub mod Db
pub mod Auth
pub mod Mgmt
pub mod Collector
pub mod Pki
pub mod Relay
pub mod Watchdog
pub mod Signer
pub mod Network
pub mod Recovery
pub mod Api
pub mod Tests
