-- ===== src/Lib.antt =====
-- QueueFair: a waiting room in front of a booking service. The queue service keeps, for each event, a
-- line of waiting tokens in Redis, admits from its front at a configured rate, and signs a pass for
-- everyone admitted; the booking service verifies the pass and books a ticket.
--
-- The parts, the files that model them and the code:
--   Keys, Keys/Distinct       queue_service/core/keys.py: the names of an event's keys
--   Validation, Validation/*  queue_service/core/validation.py: event ids and queue tokens
--   State                     queue_service/core/state.py: what a waiter is told
--   Redis, Redis/Memory       the server as an interface of commands with their documented replies and
--                             effects on a view of the keyspace, and an instance of it
--   Scripts                   queue_service/lua/*.lua: `join`, `position`, `admit_batch`, each one
--                             atomic step on the server
--   Queue, Queue/*            the abstract line (`Line`, `enter`, `leave`), when the keys are in step
--                             with it (`Holds`), and the scripts against it: Join, Position, Admit
--                             with Release, and a second join after the pop: Rejoin
--   Queue/Runs, Queue/Runs/*  interleavings of any processes as lists of events: Order, Rate, Skew, and
--                             when a waiting token is admitted: Progress; the keys of other events
--                             (Queue/Apart) and two servers with the same keys (Queue/Alike)
--   Repository, Repository/*  queue_service/adapters/queue_repository.py: one round trip for each
--                             method, which may be delivered, refused or lost, and the decoding
--   Api, Api/*                queue_service/api/views.py: `healthz`, `join` and `position`, a reload of
--                             the page (Refresh), a try after a lost reply (Ghost), what both are sent,
--                             field by field (Sent), a waiter who is admitted (Asking), and
--                             queue_service/api/urls.py (Urls)
--   Ports, Admission,         queue_service/core/ports.py and core/admission.py: `admit_once` is one
--   Admission/*               tick of the controller, `run_forever` its loop; the passes parked
--                             (Collect), refused (Stranded) and parked in part (Broken), and the loop
--                             on any network (Rounds)
--   Tokens, Tokens/*          queue_service/adapters/pass_issuer.py (Issuer) and
--                             booking_service/bookings/tokens.py (Verify), and both together (Agree)
--   Booking, Booking/Ticket   booking_service/bookings/models.py and booking.py: the tables, a database
--                             interface with Memory as an instance, the transaction and `book_ticket`
--   Booking/Sound, Runs,      the invariant of the tables, transactions of any requests, and one request
--   Booking/Request           among others
--   Booking/Schema,           bookings/migrations/0001_initial.py against bookings/models.py, and the
--   Booking/Schema/Rows       rows that their columns and constraints let in
--   Booking/Endpoint,         bookings/authentication.py and views.py: from the header and the path to
--   Booking/Endpoint/*,       the response, a pass in the header (Bearer, Issued), bookings/urls.py and
--   Booking/Urls, Columns     booking_service/booking_service/urls.py, and the lengths of the columns
--                             of bookings/models.py
--   Process, Process/Single   queue_service/adapters/redis_client.py and the repository of the process
--                             in queue_repository.py: a step relation on the two variables
--   Router                    Django's URL resolver as an interface, for both urls.py
--   Journey                   from the line to the booking, through both services
--   System, System/*          requests to api/views.py, ticks of core/admission.py, create_event without
--                             --reset and expiries, in any order, as a list of actions: the atomic
--                             steps that they come to (Trace), the passes they store (Passes), a
--                             waiter among them (Kept, Shifts, Answered, Waiter, Reloads), several
--                             events (Sales)
--   Commands/CreateEvent,     the management commands of queue_service/api/management/commands and
--   Commands/RunAdmitter,     booking_service/bookings/management/commands, RunAdmitter with
--   Commands/MintToken        queue_service/adapters/admission_factory.py
--   Settings, Settings/*      queue_service/queue_service/settings.py (Queue) and
--                             booking_service/booking_service/settings.py (Booking): .env files
--                             (Dotenv), the text functions they use (Strings, Numbers) and the
--                             secret of both (Secret)
--   Result                    the exceptions of the queue service as values
--   Tests, Tests/*            the theorems at concrete inputs
--
-- A state-changing call takes the database and returns a reply and the new database. The calls
-- outside the repository are parameters: the Redis server, the database, PyJWT, the JSON codec,
-- Python's floats, random bytes and uuids, the clocks. The records `Redis`, `Database`, `Jwt`,
-- `JsonCodec`, `Router` and `Float` say what is relied on, and each has an instance (Redis/Memory,
-- Booking/Memory, Tests). A script is one step of Redis, a transaction one step of the database;
-- the pipeline of `record_admissions` is neither, and may stop after any of its commands.
--
-- Bounds. No function takes fuel: all recursion is on lists or numbers of the input, and
-- `run_forever` on the list of its rounds until it is cancelled. The numbers of the configuration,
-- the counters and the times are natural numbers; Python's integers are unbounded, and the range of
-- Redis integers and of Lua's doubles is not modelled. Tokens of the bucket are counted to the nearest
-- sixty-thousandth of a token, in which a refill is whole. The script's doubles round: they are taken to
-- stay within half of a sixty-thousandth of that count, and the floor that the script takes of them is
-- a parameter of the server (`whole`), the whole number of tokens or, where the count is whole, perhaps
-- one less. So a waiter is promised nothing for just one token's worth of time, only for more; and
-- nothing at a burst of one, where a full bucket is not told from a count that rounds. The
-- decimal text in which Redis keeps numbers is not modelled. `$` in the regular expressions matches
-- before a final newline, as in Python.
--
-- Not modelled: the HTTP frameworks, the settings that only Django reads, the admin site, logging,
-- the Redis client of redis-py, closings of a process's client that overlap but for two, the parsing of
-- command lines, printing and signals; decimal digits outside ASCII in `int`; negative rates, bursts and
-- lives of passes (a life of 0, which Redis refuses, is modelled); the refusal by the database
-- interface of texts too long for their columns (which rows those are is in Booking/Schema), and
-- concurrency finer than the steps named above.
mod Prelude
pub mod Redis
pub mod Keys
pub mod Router
pub mod Validation
pub mod State
pub mod Scripts
pub mod Queue
pub mod Result
pub mod Ports
pub mod Repository
pub mod Tokens
pub mod Admission
pub mod Booking
pub mod Api
pub mod Commands
pub mod Settings
pub mod Journey
pub mod System
pub mod Process
mod Tests
