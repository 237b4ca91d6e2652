-- ===== src/Lib.antt =====
-- Verification library of the mailout operator: an SMTP submission gateway for applications on
-- Kubernetes, and the operator that configures it. The library models the gateway, the part that
-- handles mail, in the Go package internal/gateway, and of the operator what decides which
-- configuration a gateway gets: the webhooks, the collection of accounts, and the rendering.
--
-- A client connects over TLS, authenticates, and submits messages. Each message is held in a spool,
-- in memory or in an unlinked file, goes through the stages of DATA (quota, check of the From
-- header, mail filters, DKIM signature), and is relayed to one upstream server before the client
-- gets its answer. The configuration may be replaced at any time; a session looks at the one in
-- service at MAIL and at DATA.
--
-- The parts, each a file with child modules for its theorems and its tests:
--   Base: names of the standard library that are passed on, Boolean tests on numbers, lemmas on lists.
--   Text: the functions of Go's packages strings and bytes that the gateway uses, on lists of bytes.
--   Policy (internal/gateway/policy.go): which senders an account may use and which domains are
--     signed for it; `new_sender_policy`, `allows`, `can_sign`, `covers`, `granted_subset` are
--     newSenderPolicy, allows, canSign, covers, GrantedSubset.
--   Smtp and Envelope: smtp.SMTPError, and `Message` of internal/gateway/relay.go.
--   Message (internal/gateway/message.go): header fields; `parse_message`, `bytes`, `write_headers`,
--     `insert_header`, `change_header`. What bufio reads line by line is `split_lines`.
--   Spool (internal/gateway/spool.go): the state is the record Spool, the file with its offset; an
--     operation gives the new state and a result or an error. `copy` is io.Copy into a spool.
--   HeaderFrom: checkHeaderFrom of internal/gateway/server.go.
--   Config (internal/gateway/config.go): the configuration, `apply_defaults`, `validate`,
--     `partition_accounts`; its parts that other files declare stand here too. Config.Requirements
--     describes a configuration without the tests of the code, Config.Usable a username and a hash,
--     Config.Partitions a partition of the accounts.
--   RateLimit (internal/gateway/ratelimit.go): `check` counts a message and its recipients.
--     RateLimit.Reload has `reusable_limiter` of internal/gateway/server.go and `new_limiter`.
--   TlsStore (internal/gateway/tlsstore.go): `new_cert_store`, `get_certificate`.
--   Milter (internal/gateway/milter.go): `run` is the chain, `run_one` one filter's conversation,
--     `apply_modifications` and `rewrite_body` what it changes. The message is changed in place in
--     the source, so here it comes back with an error too.
--   Relay (internal/gateway/relay.go): `send` as a row of stages that the upstream answers; `body_of`
--     is how the body can be read, `hang_up` closes the writer behind a failure, `close_writer` behind
--     the copy.
--   Dkim (internal/gateway/dkim.go): `new_dkim_signer`, `key_for`, `sign`.
--   Auth (internal/gateway/auth.go): `authenticate`, `label`, and the LOGIN mechanism as a state
--     machine, `next`.
--   Session (internal/gateway/server.go): the commands of one connection. Session.Rules says what a
--     relayed message has gone through, Session.Sending when an envelope is opened, Session.Attempts
--     how many passwords are tried. Session.Received has the text of receivedHeader. The data of a
--     client is `Incoming`: the chunks that are read, and whether the reading ends well.
--   Api (api/v1alpha1): the objects that users write. Fields that only shape pods and metrics, and
--     the status of a gateway, are left out.
--   Access (internal/controller/access.go and account_controller.go): `username_conflict` is
--     usernameConflict of the operator, over the list of all account objects; `namespace_allowed`
--     and `granted_senders` are namespaceAllowed and grantedSenders.
--   Collect (internal/controller/gateway_controller.go): `collect_accounts` is collectAccounts.
--   Provision (internal/controller/account_controller.go): `reconcile_account` is Reconcile of the
--     controller of accounts, a function from the stored Secret and the answers of one run to what the
--     run leaves; `run_all` is a row of runs.
--   Publish (internal/controller/gateway_controller.go): `reconcile_gateway` is Reconcile of the
--     controller of gateways, up to the Secret of the configuration.
--   Render (internal/render/render.go): `gateway_config` is GatewayConfig. Render.Fit has
--     `fit_accounts`, which is FitAccounts, and Render.Endpoint `gateway_endpoint`, which is
--     GatewayEndpoint of internal/render/objects.go.
--   Webhook (internal/webhook/v1alpha1): `validate_gateway` and `gateway_warnings` are the two results
--     of the gateway validator, `validate_account` of Webhook.Accounts is the account validator. That
--     one looks the gateway up twice, in validate and in validateAgainstGrant, and each lookup has an
--     answer of its own.
--
-- An account object is admitted by the webhook, given a username and a Secret by its controller,
-- collected with the accounts of its gateway, rendered into the configuration, and then served.
-- A gateway object is admitted and rendered. Webhook.Admission, Webhook.Accounts.Names,
-- Provision.Served and Publish.Admitted compare what one part admits with what the next ones do.
--
-- How the pieces meet: a `Snapshot` of the session holds the accounts, the limiter, the filters,
-- and two functions, `sign` and `deliver`; `new_snapshot` of Session.Assembly (newSnapshot) makes
-- it from a configuration, with those of Dkim and Relay. `data_command` calls the stages in the
-- order of the source; each stage is a function of what the stage before left.
--
-- Parameters, for what the repository does not hold: the answers of the operating system to the
-- calls of an operation (`Os`); the store of the counts (`CounterStore`; `IsCounter` states what
-- INCRBY does within one window); the client of the milter protocol (`MilterClient`); the upstream
-- server (`UpstreamServer`); the bytes that DKIM signing writes; reading a private key or a
-- certificate; making a client of the store; the cost of a bcrypt hash and whether a password fits
-- one; the pieces in which io.Copy moves a body; the time window of a count, and the date, which
-- read the clock; what the connection says of its peer. Of Kubernetes: the meaning of a label
-- selector and the labels of a namespace (`Labelling`), the Secrets and the objects that the API
-- server answers with (`SecretAnswer`, `GatewayAnswer`, `Answers`, `Writes`). The size of a
-- configuration as YAML, and a new password with its hash.
--
-- Bounds. Bytes and integers are the native natural numbers. Lengths, ports, counts and durations
-- are not negative here; a limit that is 0 or negative in the source is 0. Case and white space are
-- those of ASCII, where Go also folds Unicode. A Go map is a list that holds a key once, or that is
-- searched so that the entry counts which the map would hold. All loops are
-- structural; only the digits of a number (`decimal`) are counted down from the number itself,
-- which is enough. `header_block_within` takes the bound on the header block as an argument, and
-- `header_block` gives it the value of the source. Paths are joined without being cleaned, since
-- the names of Secrets have no slash. A read of the spool's file that fails has read nothing before. sort.Slice leaves open the order of accounts that have one
-- username; here it is that of the list.
--
-- Not modelled: listeners, reload and shutdown of the server, metrics and logs, the making of
-- clients of filters and of the upstream from the configuration, the sweep of old spool files,
-- password and key generation; and outside the gateway what the gateway
-- controller writes after the configuration,
-- the Deployments and Services of internal/render/objects.go, the file source, the commands and the
-- tests.
pub mod Base
pub mod Text
pub mod Policy
pub mod Smtp
pub mod Message
pub mod Spool
pub mod HeaderFrom
pub mod Config
pub mod RateLimit
pub mod TlsStore
pub mod Envelope
pub mod Milter
pub mod Relay
pub mod Dkim
pub mod Auth
pub mod Session
pub mod Api
pub mod Access
pub mod Render
pub mod Collect
pub mod Webhook
pub mod Provision
pub mod Publish
