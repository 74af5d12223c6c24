-- ===== src/Lib.antt =====
-- The backend services of the NexaPay super app that hold its money and its decisions: the
-- wallet, the fraud checks, the loans, the KYC records and profiles, the investments, the notifications
-- and the reports (services/*/src/modules), what stands before them, and utilities that they share
-- (shared/utils). Each service
-- is a NestJS module with a repository over PostgreSQL (Prisma), MongoDB (Mongoose) or Redis, and a
-- service that checks requests, calls the repository, keeps a cache and emits Kafka events. The
-- modelled code of a service calls no other one: the wallet answers gRPC queries, and all of them
-- emit events.
--
-- Common holds what the components share: tests and lists on native numbers, tables as lists of
-- rows (Common/Rows), exceptions with state (Common/Action), and the clients of the database and the
-- cache with their documented laws (Common/Clients), with an implementation in memory for the
-- instances (Common/InMemory). An async method is an `Action`: a function from the state to a result
-- or an exception, and the state at that point; what it wrote before an exception stays written,
-- unless a database transaction rolls it back (`Clients.transaction`).
--
-- Wallet (services/wallet/src/modules/wallet). Wallet/Entities has the rows of wallet.entity.ts, the
-- DTOs and the state: the three tables, the balance cache, the events. Wallet/Repository has the
-- methods of wallet.repository.ts; `top_up_body` and `transfer_body` are what executeTopUp and
-- executeTransfer run inside `$transaction`. Wallet/Service has the methods of wallet.service.ts,
-- with a `Promise.all` as `Action.together` and the refusal of a call by Redis as a throw,
-- `new_transfer` and `settle_transfer` being the parts of `transfer` after the look-up of the key
-- and around its try. Amounts are in cents, as Decimal(18, 2) rounds them.
--
-- Fraud (services/fraud-detection/src/modules/fraud). Fraud/Entities, Fraud/Repository and
-- Fraud/Service follow rule.entity.ts with the DTOs, fraud.repository.ts and fraud.service.ts; the
-- state is what Redis holds, a map for each family of keys, and the alerts. `check_rules` is the loop
-- of checkTransaction, `evaluate` the switch of evaluateRule.
--
-- Loan (services/loan/src/modules/loan). Loan/Entities, Loan/Repository and Loan/Service follow
-- loan.entity.ts with the DTOs, loan.repository.ts and loan.service.ts, whose pure parts, from the score to
-- the schedule, are in Loan/Terms; `pay_off` is the loop of
-- repayLoan, `penalise` a round of processDailyPenalties. Amounts are counted in 1/200 cent, in which
-- payments, which are whole cents, and penalties are exact; the monthly rates 8, 12 and 15 % / 12 are
-- the fractions 1/150, 1/100 and 1/80, so that powers and quotients are computed exactly, where the
-- source computes in doubles. The repayments of a loan are in their own table, not in the loan.
--
-- Kyc (services/user-kyc/src/modules/kyc). Kyc/Entities, Kyc/Repository and Kyc/Service follow
-- kyc.entity.ts with the DTOs, kyc.repository.ts and kyc.service.ts.
--
-- Investment (services/investment/src/modules/investment). Investment/Entities, Investment/Repository
-- and Investment/Service follow product.entity.ts, the schemas and the DTOs, investment.repository.ts and
-- investment.service.ts; Investment/Valuation has what an investment is worth. Amounts are in cents, units in
-- hundredths and rates in hundredths of a percent, so that the value of an investment is exact in millionths;
-- the source computes in doubles, so that it may round to the other side where the exact value is half way
-- between two. The values of a portfolio stand in millionths, before they are rounded to cents. `portfolio` and `enrich` are the parts of getPortfolio after its query,
-- `mature` the loop of processMaturations. Which ids cast to an ObjectId is a
-- parameter; the ids that a purchase draws are UUIDs, which do not.
--
-- Notification (services/notification/src/modules/notification). Notification/Gateway follows
-- notification.gateway.ts, with the map of sockets as a list; Notification/Entities,
-- Notification/Repository, Notification/Service and Notification/Consumer follow the schemas and DTOs,
-- notification.repository.ts, notification.service.ts with the services of the channels, and
-- notification.consumer.ts. `handle_data` is the part of handleMessage after the parsing. A topic is the
-- list of its parts, a key in Redis a number.
--
-- Utils (shared/utils). Utils/Security follows security.ts, a string being the list of its code units;
-- Utils/Money follows money.ts for whole factors;
-- Utils/AuditLog follows audit-log.ts, with JSON.stringify as a parameter; Utils/Crypto follows crypto.ts,
-- with the ciphers, encodings and JSON of Node as parameters with their laws.
--
-- Reporting (services/reporting/src/modules/reporting). Reporting/Entities, Reporting/Repository and
-- Reporting/Service follow report.entity.ts, reporting.repository.ts and reporting.service.ts; a search of
-- Elasticsearch is a parameter that takes the query that the code builds and answers with buckets, and
-- `generate_all` is the body that the three scheduled handlers share. A percentage is a fraction.
--
-- Users (services/user-kyc/src/modules/user) follows user.service.ts over user.repository.ts.
--
-- Access is what stands before the services. Access/Gateway follows the middleware of
-- apps/api-gateway/src/middleware and services/auth/src/common/guards/roles.guard.ts: a middleware is a
-- function from a request to an answer, to the request that it passes on, or to a throw, and
-- `with_header`, `with_token`, `verified_with` and `verified` are the parts of authMiddleware in order.
-- Access/Interceptor follows services/wallet/src/common/interceptors/idempotency.interceptor.ts around any
-- handler, and Access/Tokens services/auth/src/modules/auth/auth.repository.ts.
--
-- Ids, texts that are only compared, currencies and idempotency keys are numbers. Times are numbers
-- of milliseconds; a method runs at one time, and `Env` holds it with the ids that the method draws
-- and whether Kafka takes its events. The methods run one after the other: a call is not interleaved
-- with another one, but for the stale copy that `execute_transfer` may be handed. All loops are
-- structural recursion on the rows, the rules, or the months; there is no fuel. That a client cannot be
-- reached is modelled for the cache of the wallet and for the events; elsewhere clients answer. Log lines are left
-- out. Not modelled are the controllers, resolvers and modules, which only pass calls on, the methods of
-- the auth service, which are not implemented in the source, the gateway of the investment service, which
-- only passes messages on, the other shared utilities, constants and types, the rate limits of the API
-- gateway, which are options of a library, the front ends and the deployment files.
pub mod Common
pub mod Wallet
pub mod Fraud
pub mod Loan
pub mod Kyc
pub mod Investment
pub mod Utils
pub mod Notification
pub mod Reporting
pub mod Access
pub mod Users
