-- ===== src/Lib.antt =====
-- OrderMesh, an order platform of five services: its business logic, its message consumers and its
-- edge, with the theorems that make them correct.
--
-- The program. A gateway authenticates callers and forwards their requests to three internal
-- services. Orders are created and cancelled by requests to the order service, which publishes an
-- event for each. The inventory service consumes these events: it reserves the stock of an order or
-- reports that it cannot, and gives the stock of a cancelled order back. The shipping service makes
-- a shipment of an order whose stock is reserved, the order service follows all this by moving the
-- order's status, and the notification service records an email for each step. Every service keeps
-- tables of its own in PostgreSQL; order, inventory and shipping read single rows through a cache in
-- Redis. Events go through one topic exchange of RabbitMQ, with a queue for each service.
--
-- Which file models which part:
--   Prelude            tests, lists, integers and decimal numerals, which the other files share
--   Shared/Outcome     how a Python call ends: a value or an exception
--   Shared/Cache       shared/shared/cache.py, `Cache`; Cache/Server has what Redis documents, as laws,
--                      Cache/Memory a server that meets them, and Cache/Aside what the
--                      services' caches have in common
--   Shared/Event       shared/shared/events/schema.py, `EventType` and `Event`
--   Shared/Broker      shared/shared/events/broker.py, `Broker.publish`, and each service's `bus.py`
--   Shared/Connection  shared/shared/events/broker.py, `Broker.connect`; Retries and Names have the
--                      proofs
--   Shared/Consumer    shared/shared/events/consumer.py, `Consumer._handle` and what it calls; Link is
--                      a consumer on its queue; Delivery, Settles, Poison, Queue and Context have the
--                      proofs; Start is `Consumer.start`
--   Shared/Lifespan    what the `lifespan` functions of services/*/app/main.py share, and `Broker.close`
--   Shared/Middleware  shared/shared/middleware.py, `RequestIDMiddleware.dispatch`
--   Shared/Logging     shared/shared/logging.py, `JsonFormatter` and `configure_logging`
--   Shared/Platform    what a service holds beside its tables, and `publish` from a handler
--   Shared/Auth        shared/shared/auth.py
--   Shared/Security    shared/shared/security.py
--   Inventory          services/inventory/app: Model and Service (models.py, schemas.py, service.py),
--                      Consumers, Routes, Main (main.py); Sessions has the sessions of service.py that run
--                      interleaved; Stock and the other files have the proofs
--   Order              services/order/app, in the same way; Decimal is `decimal.Decimal`
--   Shipping           services/shipping/app, in the same way
--   Notification       services/notification/app, in the same way
--   Gateway            services/gateway/app: Model, Accounts (routes_auth.py), Dependencies, Proxy,
--                      Routes (routes_proxy.py), Main (main.py); Headers to Edge have the proofs
--   Schema             the first migrations, services/*/alembic/versions/0001_initial.py, and the tables
--                      that services/*/app/models.py declare
--   System             the four internal services together: `System` is their tables, caches and
--                      what RabbitMQ holds, and `step` runs a request, a delivery or a redelivery
--                      through the functions of the other files. Rabbit is the topic exchange with its
--                      queues; Keeping to Invariant have the proof that what the tables and messages
--                      say of one another stays so, Life follows one order from the request to its
--                      shipment, Units the units of a product, Coherent the three caches, Typed what
--                      the messages carry, FanOut a retry, Tracing a request id, Boot the startup
--
-- How the state corresponds. A table is the list of its rows in the order of insertion, with the
-- sequence that its primary keys come from; a session is a function from tables to tables, which
-- takes effect at its commit. `Host` has the tables of a service, the state of Redis and the world
-- behind the exchange. A handler of an event or a request is a function to its result and the new
-- state, with an exception as a value of `Result`; a result that a caller discards is not returned.
--
-- What is outside the repository is a parameter. `Client` is the Redis client: each call may raise,
-- entries may vanish at any time, and what is read is what was written (`IsServer`); where a
-- theorem needs that a deletion gets through, it says so (`IsReachable`). The services share one
-- server, with keys of different prefixes; in System each has its part of it as a cache of its own.
-- `Exchange` is the AMQP exchange, `Channel` the delivery's channel, `Jwt` and `Bcrypt` the two
-- packages with their laws `IsJwt` and `IsBcrypt`, `HttpClient` the gateway's client, `Numeric` the
-- database's conversion into a column with two decimals, whose law `IsExact` says that it keeps
-- what fits. The random choice of a courier, the salt, the clock and `json.dumps` are arguments.
--
-- Numbers. Primary keys, ids and the quantities of an order are natural numbers and the inventory's
-- quantities integers, all of any size: that PostgreSQL refuses a row with a number that its
-- INTEGER column cannot hold is not modelled; a theorem on them asks for numbers that fit.
-- Amounts are decimals of 28 digits, rounded half to even as the default context does. `int(…)` of
-- a user id reads a text of digits and refuses every other text (Python also takes signs, spaces
-- and underscores), and that of a retry counter does so too; a counter below zero, which no code
-- here writes, is not modelled. A JSON text in the cache is the value that it decodes to, or a text
-- that does not decode.
--
-- Fuel. `drain` makes as many deliveries as its fuel, and stops when the queue is empty; a theorem on it
-- names the fuel that is enough. `excess_digits` counts by tens, with the number itself as its fuel.
--
-- RabbitMQ is outside too. In `Link` and `Rabbit` it does what its documentation says of a topic exchange
-- with durable queues: a message goes to the end of each queue that is bound to its key, what a
-- consumer rejects to the dead letters, and what it leaves without an answer comes back to the
-- front. Calls of `publish` raise as the list `faults` has it, which any action may change.
--
-- Not modelled: the calls that write log lines, other than the low-stock warnings, and that of
-- configure_logging in the startups other than the gateway's; timestamps of rows; deadlocks of row
-- locks, and sessions that run interleaved other than those that reserve and release: in System a
-- request or a delivery is one step, and a service has a queue of its own at one consumer; the
-- flush of a shipment before it has its tracking number, which the unique column lets one session
-- at a time make; settings, engines and Alembic's environment; the web page. The loop of
-- `Broker.connect` recurs on its number of retries.
pub mod Prelude
pub mod Shared
pub mod Inventory
pub mod Order
pub mod Shipping
pub mod Notification
pub mod Gateway
pub mod Schema
pub mod System
