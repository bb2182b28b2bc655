-- ===== src/Lib.antt =====
-- owneX: sign-in of organization members by wallet, for partner applications.
--
-- The platform (apps/platform) lets a member consent, with a wallet session, to sign in to a
-- partner application of an organization. A consent is answered with a redirect to a callback of
-- the application that carries an authorization code; the partner's server exchanges the code, with
-- its client secret, for claims. Everything asserted of the member is read from the contracts at
-- that moment.
--
--   Base         texts as lists of UTF-16 units, outcomes of calls that may throw, lists, tests.
--   Chain        apps/platform/lib/chain/index.ts: Roles has the roles and permissions and their
--                hashes, Reads the reads behind a decision. The view functions of the contracts are
--                the record Contracts.
--   Access       apps/platform/lib/access-decision.ts and live-access.ts: Decision has
--                decideAccess, Evaluate has evaluateAccess over any readers, Live has
--                evaluateLiveAccess, the readers wired to Chain, and Claims what a partner is told.
--   Callback     apps/platform/lib/callback-allowlist.ts: Allowlist has checkCallback,
--                Registration what an admin may store, Redirect where a code is sent.
--   Codes        apps/platform/lib/authorize.ts and authorize-store.ts: Store has the interface of
--                a store of codes and its laws, Memory and Postgres its two implementations,
--                Operations issueAuthorizationCode and consumeAuthorizationCode.
--   Credentials  apps/platform/lib/client-credentials.ts: hashClientSecret, verifyClientSecret.
--   Registry     apps/platform/lib/applications.ts: Records has the rows, Reads the queries and
--                replaceCallbacks, Requests has resolveAuthorizationRequest.
--   Sso          apps/platform/app/api/authorize: Approve and Exchange are the two routes, over the
--                record Platform of what they read.
--   Partner      apps/platform/lib/partner-credentials.ts and partner-auth.ts: Credentials reads the
--                headers that the portal's clientAuthHeader (apps/employee-portal/lib/config.ts)
--                writes, Auth has authenticatePartner, Verify the route
--                apps/platform/app/api/roles/verify.
--   Integration  apps/platform/lib/integration.ts: integrationSteps and integrationStage.
--   Siwe         apps/platform/lib/siwe.ts: Message has buildSiweMessage and parseSiweMessage, Issue
--                issueChallenge, Verify has verifyChallenge.
--   Indexer      apps/platform/lib/indexer.ts: Events has the fields and the payload of an event,
--                Cache the two tables, Sync has syncEvents, over the record ChainNode of what the
--                node answers and the requests that the database answers.
--   Portal       apps/employee-portal: Config has lib/config.ts, Session lib/session.ts and the route
--                api/login, Callback the route api/callback, Verify lib/ownex.ts. Their theorems
--                fill what the platform answers with Sso.Exchange and Partner.Verify.
--   Sessions     apps/platform/lib: Store has session.ts, Guards authz.ts.
--   Personal     apps/platform/lib: Canonical has hash.ts, Pii crypto.ts.
--   Assets       Binding has apps/platform/lib/asset-binding.ts and readAsset of lib/chain/index.ts,
--                Store the table of assets and the requests to it, Confirm the route
--                apps/platform/app/api/assets/[assetId]/confirm.
--
-- The state that changes is that of the code store, of the callback table, of the table of assets and of the nonces,
-- passed explicitly; a route takes the registry, the contracts and the clock as they are when it
-- is served. What throws is an Outcome with its message. A name in camelCase of the source is in
-- snake_case here.
--
-- Parameters: the URL parser of the web platform (parse_url; none is that it throws), scrypt and
-- base64url of Node (the record Crypto), its base64 of UTF-8 (the record Base64), keccak256 (of
-- Contracts), the order in which the database sorts URLs, the reading of a number by zod (coerce)
-- and by Number (Numerals), Date.parse (time_of), and address and signature recovery of ethers
-- (Ethers), AES-256-GCM and UTF-8 of Node (Cipher), JSON.stringify of a string (quoted), and the
-- answers of a node of the chain (ChainNode). Random bytes that are drawn are arguments. A theorem that relies on base64url or
-- base64 names what Node documents of it (IsBase64url, IsBase64). The database of codes is a
-- table and a list of replies, by which any request may be refused or its answer lost after it
-- took effect; a conditional update is one step, as it is in Postgres.
--
-- Instants are natural numbers, milliseconds for Date and seconds for the contracts. The code
-- lives for 120000 ms. Loops over lists are structural recursion, so that no fuel is needed; the
-- indexer's loop over block ranges has the number of blocks plus one.
-- `lower` and `trim` act on ASCII letters and on the blanks that JavaScript trims; the order in
-- which reads of one Promise.all fail is fixed to that of the list.
--
-- Not modelled: the routes of the sign-in, the listing of assets and their images, the user
-- interface, the Solidity contracts, scripts and the schema.
-- The audit log lines that the routes print are left out.
pub mod Base
pub mod Chain
pub mod Access
pub mod Callback
pub mod Codes
pub mod Credentials
pub mod Registry
pub mod Sso
pub mod Partner
pub mod Integration
pub mod Siwe
pub mod Indexer
pub mod Portal
pub mod Sessions
pub mod Personal
pub mod Assets
