-- ===== src/Lib.antt =====
-- Agrocylo: the pipeline from Soroban contract events to the database and to the clients' live feed.
--
-- The production escrow and registry contracts emit events. The listener
-- (server/src/indexer/soroban-event-listener.service.ts) polls the Soroban RPC server page by page,
-- keeps a set of the ids that it has handled and a ledger cursor, and hands each new event, decoded,
-- to the event parser (server/src/indexer/parsers/event-parser.service.ts). That parses it by the
-- event's name, persists it by a handler of its type together with one audit row in `Transaction`,
-- and then broadcasts it to the clients.
--
--   Js                what `scValToNative` returns: JavaScript values, numbers and their texts
--   Indexer.Types     indexer/types/soroban-events.types.ts; `type` and `data` are one union, Payload
--   Indexer.Decode    asString, asBigInt, asNumber, decodeTag, isTagLike, isActivityActionTag
--   Indexer.Build     buildEvent
--   Indexer.Escrow    the parsers of the production escrow contract's events
--   Indexer.Registry  the parsers of the registry contract's events
--   Indexer.Parse     parseEvent; Spec and Faithful state and prove what its results say
--   Indexer.Handlers  ensureUser and the handle* methods
--   Indexer.Persist   persistEvent; Writes, Frame and Once say what it changes, Accounts is the abstract
--                     view of a campaign that Books and Refines compare it with, Partial its outage
--   Indexer.Process   processEvent of the parser; Broadcast is about its messages
--   Indexer.Listener  pollEvents and processEvent of the listener; Pages, Fetch and Cursor follow the
--                     cursor, Unread and Lost show how polling loses an event, Limits where it stays in
--                     place; Lifecycle is its start and stop and getHealthStatus, Resume is about its
--                     restart
--   Health            check of server/src/modules/health/indicators/indexer-health.indicator.ts; Outage
--                     says what it answers, also while polls fetch nothing
--   Gateway.Token     verifyWsToken of server/src/websocket/ws-auth.ts; Spec says what a token is, Checks
--                     and Accepts prove that exactly these are accepted
--   Gateway.Handshake extractTokenFromHandshake of ws-auth.ts
--   Gateway.Rooms     the room names of websocket/events.types.ts
--   Gateway.Sockets   WsAuthGuard of ws-auth.guard.ts, and the handlers and `broadcast` of
--                     campaign-events.gateway.ts; Membership, Guarded and Private follow who is in the
--                     private rooms, Delivery says who is sent an event
--   Gateway.Origin    the origin checks of campaign-events.gateway.ts and cors-socket-io.adapter.ts
--   Gateway.Io        Socket.IO: a parameter, `Io`, with its documented laws; Sample meets them
--   Api.Investors     portfolio of server/src/modules/investors/investors.service.ts; Shares is about
--                     its sums
--   Api.Campaigns     list of server/src/modules/campaigns/campaigns.service.ts; Order and Paging are
--                     about its pages
--   Api.Detail        detail and activity of the same service
--   Api.Rows          what the services share
--   Client.SocketManager   client/src/lib/websocket/socketManager.ts; Rooms, RoomsHeld and Reconnect
--                     follow the rooms that its server has it in
--   Client.CampaignStatus  client/src/lib/campaignStatus.ts; Presentation is about badge and stepper
--   Client.Dispute    evaluateDisputeEligibility of client/src/lib/dispute/eligibility.ts; MayDispute
--                     proves it against the rule that its documentation gives
--   Client.Reason     validateDisputeReason of the same file, and the form of
--                     client/src/components/campaign/OpenDisputeModal.tsx
--   Client.Analytics  the replay of statuses in client/src/lib/analytics/metrics.ts; Replay is about its
--                     counts
--   Client.Failures   toUserFacingError of client/src/lib/soroban/userFacingError.ts, with
--                     describeContractError; FirstMatch is about its table
--   Client.ContractClient  the contracts' clients and writes of client/src/lib/soroban/contractClient.ts,
--                     with the package @stellar/stellar-sdk as a parameter, `Sdk`; MadeOnce follows its
--                     clients
--   Client.Mutations  the hooks of client/src/hooks/contract/useEscrowMutations.ts and
--                     useRegistryMutations.ts, by what they give useMutation; Mutate runs one with its
--                     toasts and invalidated queries, of which QueryKeys has the keys; Signatures
--                     has what the contracts declare, and Sent is about
--                     its success
--   Client.Symbols    client/src/lib/soroban/symbol.ts, and parseWholeAmount of the admin panel
--   Client.Admin      the forms of client/src/components/admin/CampaignAdminPanel.tsx, Failing that of
--                     marking as failed; Panel shows them
--   Client.EscrowGuards    which calls contracts/production_escrow/src/lib.rs takes of an administrator;
--                     Validated and Accepted prove the panel against it
--   Client.CreateCampaign  client/src/pages/CreateCampaignPage.tsx; Wizard and WizardSafe follow the
--                     actions of its user
--   Client.Rest       the REST client of client/src/lib/api: Types of types.ts, Local of fallback.ts, Http of
--                     config.ts, errors.ts and http.ts, Calls of client.ts, and Uri, encodeURIComponent;
--                     Paths, Rejections and Served are about its requests
--   Client.Events     client/src/lib/soroban/events.ts; Whole is about what a load has. The RPC server is
--                     a parameter, `EventServer`, and what it documents of paging is `ServesAll`
--   Client.Toasts     client/src/context/ToastContext.tsx; Leave is about its timers
--   Client.Listed     client/src/hooks/useAllCampaigns.ts, useAdminCampaigns.ts; Named is about
--                     the ids, Market about what is listed and its order
--   Client.SocketIo   the package socket.io-client: a parameter with its documented laws
--   Store.Tables      the rows of server/prisma/schema.prisma
--   Store.Client      the Prisma client: a parameter, `Prisma`, with the documented laws of its calls
--   Store.Action      async methods: they return or throw, and what was written stays written
--   Store.Trace, Store.Laws, Store.Returns, Store.Rows   what actions do to the tables
--   Store.Memory      a client in memory that meets the laws, with outages, for the examples
--   Prelude           library names, numbers, lists, integers, decimal text
--
-- Third parties are parameters. `Prisma` may refuse any call, and a refused call changes nothing; a
-- write that is not refused does what its documentation says over the keys and references of the
-- schema. `Rpc` gives the answers of the RPC server during one poll, and of `scValToNative`; what the
-- server documents of paging is the record `Serves`. A call that throws is an answer `none`. `Io` is a
-- Socket.IO server, whose socket ids are random texts without a colon; `Platform` is Node's Buffer,
-- crypto and JSON; `SocketIo` is a client's socket, which buffers what is emitted while it is not
-- connected and sends that before its listeners hear of the connection. Nest runs a guard before its
-- handler, and answers an exception to the client. `Sdk` is the Stellar SDK with the wallet: its calls
-- answer or throw in any way, and nothing is assumed of them. `Network` is `fetch` with its
-- timer and the parsing of JSON, which may end in any way. `Reader` is what the contract answers for a
-- campaign. `Browser` has what the page for creating a campaign asks of the browser and of the check of
-- addresses.
--
-- Bounds. The page loop recurs on the 50 pages that are left, as the source counts them, so no fuel is
-- added. `Number(bigint)` rounds to 53 bits; its search for the exponent has 1024 rounds, which
-- suffice for every finite double. Integral numbers print in plain decimal, as JavaScript's do below
-- 10^21; the decoder makes numbers of 32-bit integers only. Ledger numbers are naturals: the cursor
-- `lastEventLedgerSeen - 1` is 0 where the source has -1, at ledger 0, which the network never has.
--
-- Not modelled: log lines, the columns that the database's clock fills, the JSON text in
-- `Transaction.data` (its row holds the event that the text serialises), polls that overlap, and
-- the amounts and days of the analytics page. A mutation runs to its end before the next is begun, as
-- the forms' buttons are disabled meanwhile, and a page's state is what its handlers set; its mark-up
-- is left out but for the steps and the forms that it shows. Of the Rust contracts there are only the
-- checks that the administrator's forms are held against. The rest of the browser client stands
-- outside. The API's services are given the rows that the Prisma client answers; its
-- controllers only pass arguments on.
pub mod Prelude
pub mod Js
pub mod Indexer
pub mod Store
pub mod Gateway
pub mod Api
pub mod Health
pub mod Client
