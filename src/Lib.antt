-- ===== src/Lib.antt =====
-- The core of the wallet conversion engine: a user asks for a quote, accepts it, which reserves the
-- funds and queues an execution event, and the event is published, executed against an exchange and
-- settled.
--
-- Parts, by module (paths from the repository's root):
--   Shared: src/modules/shared/domain. Asset is asset.ts with its registry as a value, Money is
--     money.ts, Identifiers the three id classes, Text the string functions that the code uses,
--     Result the thrown errors as values. Decimal is decimal.js, a parameter: its methods, and the
--     laws of its documentation that the code relies on. Table is a table with a unique key, Sort
--     the order of a query by age, Distinct a table of distinct keys, Columns the NUMERIC(38, 18)
--     columns, Exec a statement that may throw, Platform all that the process runs on (texts of
--     dates, hashes, upper case).
--   Wallet: src/modules/wallet. Account is domain/wallet-account.ts, Repository is
--     infrastructure/prisma-wallet.repository.ts; Repository/Refinement compares the two.
--   Pricing: src/modules/pricing. ExchangeRate, Quote, Repository and CreateQuote are
--     domain/exchange-rate.ts with infrastructure/fake-pricing.provider.ts, domain/quote.ts,
--     infrastructure/prisma-quote.repository.ts and application/create-quote.use-case.ts.
--   Conversion: src/modules/conversion. Aggregate is domain/conversion.ts, with its calls as a
--     step relation in Aggregate/Lifecycle. Repository, Outbox, Idempotency and Processed are the
--     repositories of infrastructure, Database their tables together with
--     infrastructure/prisma-unit-of-work.ts, AcceptQuote is application/accept-quote.use-case.ts,
--     Process and Matching are application/process-conversion-execution.use-case.ts, and
--     Process/Recovery is a delivery of it that stops halfway. FakeExchange is
--     infrastructure/fake-exchange.adapter.ts, Cleanup is
--     infrastructure/idempotency-cleanup.service.ts with its statement.
--   Conversion/Messaging: src/modules/conversion/infrastructure/messaging. Publisher is
--     outbox-publisher.service.ts. rabbitmq.connection.ts is in three parts: Channel publishes and
--     waits for the confirmation, Consumer delivers a message, retries it and makes its dead letter
--     (execution-consumer.service.ts is its handler; Execution puts Process behind it), Connection
--     is the state of the connection, with its handlers as a step relation and its attempts in
--     Connection/Retry.
--   Config: src/config/environment.ts, and in Config/Settings what the constructors of the services
--     read of the environment.
--   Http: src/modules/shared/presentation/http/api-exception.filter.ts; Http/Controllers is the
--     controllers of src/modules/conversion/presentation and src/modules/pricing/presentation with
--     src/modules/conversion/application/get-conversion.use-case.ts.
--   Tests: an instance of the parameters and the theorems applied to concrete data.
--
-- How code becomes definitions: a method that changes an object returns the object after it; a
-- method that throws returns `err`; a statement takes a table and returns a result and the table
-- afterwards, which keeps what was written before a throw; a transaction is a parameter that commits
-- what returns and rolls back what throws. Ids, times, the exchange of Process and the answers of
-- the broker are arguments. What runs between two awaits of the connection is one function, and its
-- orders are steps. Names are those of the source in snake case.
--
-- Bounds: amounts in a column are below 10^38 units of 10^-18, sums below 10^40 are exact under the
-- 40 digits of decimal.js, and every hypothesis on a product says that it fits them. Integers of
-- settings and headers are tested against 2^53 - 1, as in the code. Fuel stands in one place, the
-- deliveries of one message, which have no end while the broker refuses copies; with a broker that
-- confirms, the retries that are left and one more are enough. The attempts to connect run over the
-- number that is set, the polling for a concurrent request over the list of what the polls read up
-- to the deadline.
--
-- Not modelled: the timers that start polls and cleanups, the calls of amqplib that declare the
-- topology, the validation of request bodies and the wiring, which are libraries or I/O; metrics but
-- those of the controllers, health probes and logs. Messages of errors are left out but where a
-- controller makes them; statements of one transaction run without others in between. The primary
-- key of a new wallet is left out, since its id is a random UUID.
pub mod Prelude
pub mod Shared
pub mod Wallet
pub mod Conversion
pub mod Pricing
pub mod Config
pub mod Http
pub mod Tests
