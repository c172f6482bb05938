-- ===== src/Lib.antt =====
-- The TypeScript programs of the repository: the payment service, implementation/payment/src, and
-- the load-testing agent, implementation/agent/src, which buys tickets as a virtual user and pays
-- for them through the payment service.
--
-- Parts. The payment service keeps invoices in Redis (service/invoice.ts). Its server
-- (cmd/server/app.ts) creates, shows and pays them and queues a webhook job for each; its notifier
-- (cmd/notifier/index.ts) works on the jobs, expires an invoice that is still pending and posts its
-- state to the ticket backend. The agent (tests/ticket.ts) draws a profile (utils/profile.ts),
-- looks for areas and seats (actions/seats.ts), places an order, pays its invoice and fetches the
-- tickets (actions/event.ts, order-action.ts, order-query.ts), by the requests of two clients
-- (client/), and counts how the iteration ended.
--
-- Files.
--   Common: lists, tests, integers, slices and text of JavaScript, and runs that may throw (Run).
--   Payment/Json, Entity: JSON values, and entity/*.ts. Platform: Redis, the clock and the ids.
--   Payment/Invoice: the class InvoiceService. Its children prove each method (Reads, Create,
--     Expire, Pay), what it leaves alone (Frame), what a sequence of calls does (Store,
--     Store/Sound, Store/Final), and calls that interleave (Interleave, Interleave/Sound,
--     Interleave/Lost). Ledger is the abstract specification of the class; Ledger/Represents,
--     Tracks, Calls, Refines relate it to the methods; Ledger/Keeps is about what commands leave
--     alone.
--   Payment/App: the handlers of the invoice routes (Routes, Schedule, Shown, Refines: what they
--     answer), and createApp, its table of routes and its time limit (Server). Requests says what
--     the routes take, Serves what the server answers to requests in a row, Documented that it
--     answers what it declares. Payment/Notifier: the job handler (Delivery; Settles: on the
--     ledger; Tells: after requests to the server). Payment/Health: service/health.ts and
--     utils/timeout.ts. Payment/Config: the host lists of infrastructure/env.ts, queue.ts and
--     redis.ts. Payment/Env: the rest of env.ts (Accepted). Payment/Echo: cmd/echo/index.ts.
--     Payment/Start: the main functions of cmd/*/index.ts (Agrees). Payment/Shutdown: the signal
--     handlers of cmd/server/index.ts, cmd/echo/index.ts and cmd/notifier/index.ts (Ends,
--     Deadline).
--   Payment/World, Tests: a small world, and the theorems on runs in it.
--   Agent/Kit: k6, k6-utils and the faker as a record of operations. Agent/Random: utils/random.ts.
--   Agent/Types, Client: client/. Agent/Profile: utils/profile.ts and faker.ts; Table is its data.
--   Agent/Backend: the clients and the values of their replies, shared by the actions.
--   Agent/Seats, Browse, Items: actions/seats.ts (Suits, Available, Selection: of a response;
--     Searches, Wanted, Found, Ends, Calm, Exhausts: of the loops; Complete, Chosen, Exhausts: of
--     an order). Agent/Order: the other actions. Agent/Jwt: utils/jwt.ts. Agent/Vu, Loops, Journey:
--     the iteration of tests/ticket.ts; Agent/Scenario: its scenarios and options. Agent/Logger:
--     utils/logger.ts (Stamps).
--   Agent/World, Tests: a small world, and the theorems on runs in it.
--   System: the agent with the payment server as its HTTP layer (Payments, Loop, Tests).
--
-- State. A call that uses the outside world or may throw is a function from a world to an outcome
-- and a world (Common/Run); what was done before a throw stays done. Objects that the code changes
-- in place (the profile state, an array, the tags) are passed and returned. In Store and Ledger the
-- calls run one after the other; in Interleave a call of payInvoice or expireInvoice is two turns,
-- its decision and its write, and any turns of other calls may stand between them. Redis may lose
-- entries between calls, when their time is over. The turns of the queue and of the HTTP requests
-- do not interleave.
--
-- Representation. Amounts, ids and statuses are natural numbers; a date is its milliseconds since
-- the epoch; a text in Redis is the JSON value that it prints, or some other string. Probabilities
-- of the profile table are in hundredths. Math.random() is n / 2^53 and products with it are exact,
-- where the program rounds to a double. In the comparison of seat numbers NaN counts as 0. An array
-- element that is not there is a TypeError where it is read. A response of the ticket backend has
-- `.data` of the type that the client declares, or none, and is no JSON null. The lines of the log
-- and k6's `group` are left out.
--
-- Parameters. Redis and the generator of ids (Platform, Faithful, and Reliable where the calls of
-- Redis do not throw; NeverAgain where an id is not given twice), zod (Zod, ZodLaws; EnvZod,
-- EnvLaws with createEnv), the webhook queue (WebhookQueue, and Quiet where its calls do not
-- throw), the matching of a path by the server framework (Matches, MatchesInvoices), which tries
-- its routes in their order, its time limit (Limit, Limits), its pages (Pages), the way of a
-- request from the agent to the server (Network, Delivers), the HTTP client and HMAC of the
-- notifier (Sender), the framework's answer to a request that does not meet its schema
-- (`rejected`), k6 (Kit, KitLaws), the HTTP layer and the URL library of the agent, base64 and HMAC
-- of the token (Crypto), Number (an argument of Config), readFileSync and FLUSHALL (arguments of
-- Start), and the views of a reply at its declared types (Views).
--
-- Bounds and fuel. Loops with a counter are recursion on what is left of it. The browsing loops
-- take the attempts that are left as their rounds, which is enough. The loops of placeOrder, of the
-- order phase and of the verification of an order take a number of rounds, since the code does not
-- bound them: `spinning` is the outcome of a run that needs more, and no code catches it. Three
-- rounds are enough for placeOrder where the server answers with a status that it has a branch for,
-- and nine for each loop of an iteration where the backend answers as Loops/Ends says (Responds);
-- Loops/Calm and Journey/Ends are about when the parts of an iteration end.
--
-- Not modelled: the ticket backend, which is written in Go; the wrappers of the logging and id
-- libraries; the log lines of the server; the build configuration of the agent, a call of its
-- bundler; type declarations of third-party code; requests with a body of another content type than
-- JSON, which the framework passes to the handlers without validation; infrastructure and
-- documents.
pub mod Common
pub mod Payment
pub mod Agent
pub mod System
