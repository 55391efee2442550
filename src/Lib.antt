-- ===== src/Lib.antt =====
-- RazorPay: recovery of failed payments.
--
-- A gateway sends webhooks about payments. A failure opens a recovery case and queues a job; workers
-- claim jobs under a lease, ask an AI provider what to do, charge the payment again or end the case; an
-- administrator may stop a case or queue it again. All of them meet in the tables of one database.
--
-- The program's parts, and the files that model them:
--   States      app/domain/recovery/states.py: the enumerations and the tests on them.
--   Machine     app/domain/recovery/state_machine.py: the tables of transitions and validate_transition.
--   Models      app/persistence/models: the rows. A UUID is a number, a time is in microseconds, an
--               amount of a row is in ten-thousandths; that of an event may have more digits.
--   Tables      the queries and the writes of the services, with the constraints of the tables:
--               `*_conflict` is the error that the database has for a row.
--   Session     app/persistence/database.py: an action takes a `World` and returns a result and a
--               `World`. It holds the committed tables, the working copy, the error that the next flush
--               raises, the correlation id, the number of UUIDs drawn and the gateway. `catch` is
--               `try`/`except`. `Session/Keeps` and `Session/Atomic` have one rule for each way to build
--               an action: for what actions keep of the tables, and for actions that commit nothing
--               when they raise.
--   Audit       app/domain/observability/audit.py and app/utils/context.py.
--   Webhooks    app/domain/payments/{service,exceptions}.py, app/persistence/repositories/webhook_repo.py
--               and app/api/schemas/webhooks.py: `process_webhook`.
--   Claims      app/persistence/repositories/job_repo.py: `claim_job`, `safe_update_status`.
--   Gateway     app/integrations/payment_gateway/mock_client.py; `Gateway.Ledger` has its
--               abstract ledger.
--   Contracts   app/ai/contracts.py.
--   Worker      app/workers/executor/execution_service.py: `process_next_job` and its handlers. A handler
--               is cut at its network boundary: `begin_*` is what it commits before, `finalize_*` what it
--               commits after, and the argument `meanwhile` is what others commit in between. `Worker.Loop`
--               is app/workers/executor/main.py.
--   Admin       app/domain/operations/service.py: the mutations of a recovery case, and in
--               `Admin.Analytics` the report, over an arithmetic of floats that is a parameter.
--   Floats      Python's floats and their comparisons: a finite one is a number of units of 2^-1074.
--   Settings    app/config/settings.py: what is read from the environment, and the checks at start-up.
--   Api         app/api: the administrator's key, the correlation id and the routes.
--   System      the transactions of all of these as requests, in any order and by any workers.
--   Budget      what bounds the attempts of a case; `System.Budget` has the histories of requests as a
--               step relation, `History`.
--   Consistency the constraints between rows. `Consistency.Runs` has one rule for each way to build an
--               action that relies on the rows that it has loaded or added before.
--   Provider    app/ai/gateway/provider.py, over code points. A regular expression is a function from
--               the head of a text to what it captures.
--   Logger      app/utils/logger.py: the scrubbing of both formatters, over code points.
--   Migrations  migrations/versions: the operations of the four migrations, both ways. `Database` is
--               what runs them, and `Behaves` is what its documentation says of that.
--   Prelude     helpers on lists, numbers and tests. Samples and Tests: concrete inputs.
--
-- What the code takes from its surroundings is a record `Env`: the clock, the UUIDs that are drawn, the
-- text of a UUID, `str.upper` and `str.lower`, the rounding of an amount to four places, the lease, and the row that `LIMIT 1` with `SKIP LOCKED`
-- returns. To the worker the provider is a function from the context of a decision to a decision or an
-- error; in `Provider` the call of the model and the validation by the schema are parameters.
--
-- Loops are structural recursion. Only `Prelude.Decimal` has fuel: it writes a number in decimal, and the
-- number itself is enough.
--
-- Not modelled: the provider's HTTP calls, the set-up of logging and of the application,
-- migrations/env.py. Row locks are taken as they are meant: a transaction is one step. The tables of the
-- migrations have their foreign keys; in the tables that the services work on no write is refused for a
-- foreign key, and `Consistency` says what the keys ask of the rows.
pub mod Prelude
pub mod States
pub mod Json
pub mod Errors
pub mod Models
pub mod Gateway
pub mod Session
pub mod Audit
pub mod Tables
pub mod Webhooks
pub mod Machine
pub mod Floats
pub mod Settings
pub mod Claims
pub mod Contracts
pub mod Worker
pub mod Admin
pub mod Api
pub mod System
pub mod Budget
pub mod Consistency
pub mod Provider
pub mod Migrations
pub mod Logger
pub mod Samples
mod Tests
