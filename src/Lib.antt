-- ===== src/Lib.antt =====
-- ShobApp: workflows that run actions on GitHub events, on plans that are paid through Stripe.
--
-- The API (src/action, src/workflow, src/github, src/stripe, src/workflow-run, src/action-run, with
-- src/guards, src/rate-limit and src/config) lets a user with a session edit workflows and their
-- actions, claim an installation of the GitHub app, pay for a plan and read the history of the runs;
-- it also takes the signed webhooks of GitHub and of Stripe and queues them. The GitHub worker
-- (src/worker/github) takes those of GitHub, keeps connections and repositories, finds a workflow for
-- an event and runs its actions one by one. The Stripe worker (src/worker/stripe) keeps subscriptions
-- and payments, on which the plan guard decides. The parts share the database and the queue of
-- outgoing mail, which the mail worker (src/worker/send-email) empties.
--
-- Store: the tables of prisma/schema.prisma. Store/Rows are the rows, Store/Table what count, create,
--   deleteMany and updateMany do to a list of rows, Store/Cascade the cascades, and Store/Effects the
--   steps of a service. A step is a function of a World (the database, the number of calls so far,
--   the mails and requests sent, the memo of the viewer data); it answers or throws. A transaction
--   gives back the old tables when it throws.
-- Platform: the enumerations of the schema.
-- The module Plan: config/plan-limits.config.ts and guards/plan-limit.guard.ts (canActivate).
-- Action: action/github.action.types.rules.ts (Rules), action/dto (Schema, on the part of Zod in Zod),
--   action.service.ts (Service: createAction is create_action, and so on) and the routes of
--   action.controller.ts (Endpoints: one request is serve, a sequence of them serve_all).
-- Pages: the listings with pages that the services share (list_page is the transaction of count and
--   findMany, paged the part of a controller that reads page and limit); Pages/Laws, Rows, Listed and
--   Walk are about one page, its rows, and all pages one after another.
-- Flow: workflow/workflow.service.ts and the rule for the action of an event, from
--   workflow/github-workflow-action-rules.ts and workflow/dto/create-workflow.dto.ts; Flow/Endpoints
--   has getAllWorkflow and the routes of workflow.controller.ts (serve).
-- History: workflow-run and action-run, the services with their routes.
-- Linking: github/github.service.ts: connect and the callback; Linking/Repos the listing of
--   repositories, Linking/Webhook the route of the webhook with utils/verify-webhook-request.ts.
-- StripeService: stripe/stripe.service.ts, and in Endpoints the routes of stripe.controller.ts.
-- RateLimit: rate-limit/rate-limit.guard.ts, with its cache of limiters as the state.
-- Auth: auth/auth.service.ts.
-- Health: the pure helpers of health/health.service.ts.
-- System: the requests to the routes of the actions, of the workflows and of Stripe, and to the
--   callback of GitHub, on one database, and the states they lead to.
-- Worker: worker/github. Base is core/event/base-event.ts and the part that all handlers share
--   (start, complete, handle); Base/Blocks are the branches on an action's type; Events has a file
--   for each event class (X_event is handle_event, executeSingleAction is execute_single_action);
--   Viewer is core/actions; Main is main.ts (dispatch, main) and rabbitmq-consumer.ts (consume).
-- Billing: worker/stripe, from the five handlers to the consumer.
-- Mail: worker/send-email/send-email.ts.
-- Tests: concrete data, a client of the database, and runs.
--
-- Parameters. Prisma: which row findFirst gives, the order of orderBy, new ids, and which call
-- throws. Order: the rows of a listing in falling order, equal ones in one fixed order. Redis:
-- what a key holds, and which command throws. Js: trimming, lower case, lengths, addresses, URLs
-- and JSON texts. Network: the answers of other servers, the mail channel, and what Cheerio finds
-- in a page. Resend: what becomes of a mail. Broker: where RabbitMQ puts a message that is asked
-- for again. Stripe: the answers of its calls, and the event of a signed text. Gemini: its texts,
-- and the commits of a stored object. Crypto: the digest of a payload, and JSON texts. Consume:
-- the answers of the limiters of rate-limiter-flexible. AuthApi and Tokens: the answers of better-
-- auth, and the tokens in Redis.
--
-- Bounds. Nothing runs on fuel: the loops are over lists, and Mail/Drain counts its steps.
-- Identifiers and times are natural numbers that are only compared; texts written to the log and to
-- error columns are left out, and so are time stamps. Requests and messages are served one after
-- another: two interleaved requests are not modelled.
--
-- Not modelled: the probes of the health service; the routes of authentication, which set cookies;
-- the set-up of the framework, of the queues and of the clients, which are calls of libraries; the
-- texts of the errors.
pub mod Prelude
pub mod Platform
pub mod Store
pub mod Action
pub mod Plan
pub mod Worker
pub mod Billing
pub mod Pages
pub mod Auth
pub mod System
pub mod RateLimit
pub mod Health
pub mod StripeService
pub mod History
pub mod Flow
pub mod Linking
pub mod Mail
pub mod Tests
