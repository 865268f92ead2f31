-- ===== src/Lib.antt =====
-- Skill Stew API: the core logic of its services.
--
-- The repository is a set of services. The skill service (skill/) lets experts run cohorts of a
-- workshop and users enrol in them. For a paid cohort it reserves a seat and asks the payments
-- service (payments/) for a checkout. That one opens a session at Stripe, learns from Stripe's
-- webhooks what became of it, and publishes an event through an outbox, which the skill service
-- consumes to activate, fail or refund the membership.
-- The notification service (notification-service/) keeps the notifications of each user and a count
-- of the unread ones, in its database and in a cache. The user service (user/) keeps the accounts,
-- the applications of experts and the connections between users, signs the tokens, and announces
-- what happened through an outbox. Workers (outbox-workers/) read the outboxes of the services and
-- publish their events. Requests come through the gateway (gateway/), which checks their tokens and
-- passes the identity of the sender on in headers, which the services trust.
--
-- Prelude (Tests, Lists, Table, Sorting) has the Boolean tests, lists and keyed collections. Effect
-- has the effect of a use case, a state with errors, and `transact`, the `UnitOfWork` of each
-- service; Effect/Rules and Effect/Inversion reason about it.
--
-- Skill: the state is a record of four MongoDB collections, the clock, the source of ids and the
-- requests sent to the payments service.
--   Skill/Membership, Cohort, Workshop: skill/src/domain/entities
--   Skill/World, Repos: skill/src/infrastructure/repositories and persistence/UnitOfWork.ts
--   Skill/Workshops: skill/src/application/services/WorkshopService.ts
--   Skill/Schedule: skill/src/utils/cohortSchedule.ts, on the calendar of Skill/Schedule/Calendar
--   Skill/Seats, Enrollment, PaymentEvents, Cohorts: skill/src/application/services/CohortService.ts
--     (`getSeatCounts`, `enrollInCohort`, `handlePaymentSucceeded`, `applyPaymentOutcome`,
--     `createCohort`, `updateCohort`, `deleteCohort`)
--   Skill/Views: the same file (`getCohorts`, `getCohortById`, `getCohortMembers`,
--     `getPublicWorkshopById`, `getPublicCohortById`, `pickBestMembership`)
--   Skill/Invariant, Placement, Soundness, History, Publications: the invariants of the collections
--     and the steps that they go through
--
-- Payments: the state is a record of the tables `payments` and `outbox_events`, the clock and the
-- source of ids.
--   Payments/World, Repo, Rows: payments/src/domain/entities and infrastructure/repositories
--   Payments/Checkout, Webhook: payments/src/application/services/PaymentSessionService.ts
--     (`createCheckoutSession`, `handleStripeWebhook`, `mapWebhookToTransition`)
--   Payments/Invariant, History: the invariant of the tables and the steps that they go through
--
-- Notifications: the state is a record of two MongoDB collections, the counts cached in Redis, the
-- clock and the source of ids.
--   Notifications/Content: notification-service/src/domain/entities, and `_getNotificationContent`
--   Notifications/World, Repo: notification-service/src/infrastructure
--   Notifications/Service: notification-service/src/application/services
--
-- Connections: the state is a record of the tables of users, connections and events, the clock and
-- the source of ids. A row of a table is updated by what the statement says of it: an update sets
-- `updated_at`, an insertion wants its users to be there, and `returning` gives the rows written.
--   Connections/World: user/src/domain/entities
--   Connections/Repo: user/src/infrastructure/repositories (UserConnectionRepository.ts,
--     BaseRepository.ts, OutboxEventRepository.ts)
--   Connections/UseCases: user/src/application/use-cases/user
--   Connections/History, Standing: the steps that connections go through
--
-- Accounts: the state is a record of the tables of users, profiles, applications and events, the
-- clock and the source of ids.
--   Accounts/World, Repo: user/src/domain/entities and infrastructure/repositories
--   Accounts/Access, Google, Applications, Usernames, Profiles: user/src/application/use-cases
--     (auth and admin, expert-applications, common and internal, user)
--   Accounts/Views: the same (what each role sees of the own account, and an application)
--   Accounts/Earned: what makes an expert, through the use cases
--
-- Tokens: user/src/infrastructure/services/JwtService.ts, gateway/src/utils/JwtService.ts and
--   websocket-gateway/src/utils/JwtService.ts, over the library for tokens.
-- Gateway: gateway/src/config/routeManifest.ts, middlewares/authMiddleware.ts and
--   app/createApp.ts. A request is its method, path and headers; matching the paths of overrides is
--   a parameter.
-- Outbox: outbox-workers/*/src/index.ts. The state is a record of the rows, the clock and what the
--   channel has taken; the faults of a poll say which accesses fail. A poll reads at most 20 rows, so
--   draining takes polls by the number of rows.
--
-- Ids are numbers where they are only compared, and a date is its number of milliseconds. The clock
-- is read once for each request. The loops are over lists, but for two: the three rounds in which
-- the offset of a time zone is found, as in the source, and the walk from a day to its year, whose
-- fuel is the number of the day, so more than its years. What other programs answer is a parameter:
-- the payments service, Stripe and the time zone data, of which nothing is assumed, and the
-- libraries for tokens, for matching paths and for the Bloom filter, of which a theorem assumes what
-- it names.
-- Requests run one after the other: each is one step, and the model says nothing of requests that
-- overlap. This is an assumption, not something that the transactions of the source give: for
-- instance `handleStripeWebhook` reads the payment before its transaction, so two deliveries at the
-- same time can both find it as it was. A query without an order returns the rows in the order of
-- insertion. Failures of a connection are left out but for the workers, and violations of a unique
-- index but for the accounts. What an expert
-- does to cohorts and drafts runs outside of a transaction; a history takes it whole, and says
-- nothing of two such requests that overlap.
-- Not modelled are the schemas of requests, the controllers and the consumers of events, which pass
-- on what they read; the search service and the skill profiles; and of the user service the pages
-- of users and applications and the uploads.
pub mod Prelude
pub mod Effect
pub mod Skill
pub mod Payments
pub mod Notifications
pub mod Connections
pub mod Outbox
pub mod Tokens
pub mod Gateway
pub mod Accounts
