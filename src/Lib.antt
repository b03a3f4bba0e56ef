-- ===== src/Lib.antt =====
-- Dream Fly backend: the shop of a studio that sells courses, tickets and passes. This library models
-- the parts that move money, points, stock and places, and proves what they keep.
--
-- Parts and files (paths of the repository's Rust code under src/):
-- - AppError: error/mod.rs, the errors as values with their messages as format strings and arguments,
--   the conversions of database errors, and the responses.
-- - Db: the tables as lists of rows (Db/Tables), statements `Sql` and transactions `Tx` (Db/Monad),
--   pool calls (Db/Pool), and what lemmas say of them: which step of a run failed or went on
--   (Db/Steps, Db/Runs), and which tables a run leaves alone (Db/Frame). A statement answers a value
--   and a state or a database error; a transaction commits a state or is rolled back.
-- - Points: modules/points: reasons and signed deltas, the balance and ledger statements, and
--   apply_delta_tx, through which all writes of a balance go.
-- - Products: modules/products: quantities, purchasability, row locks, reserve_stock_tx and
--   restore_for_order_tx.
-- - Courses: modules/courses/seats.rs and model.rs: seats of a course, places of a session.
-- - Enrolments, Subscriptions: what a purchase grants and a refund takes back.
-- - StudioClock: utils/studio_clock.rs; the time zone is an argument, a function from a local day and
--   second to the instant that they name, if there is a single one.
-- - Bookings: modules/bookings: the places of a time slot (Bookings/Occupancy), booking and cancelling
--   (Bookings/Service).
-- - Leave: modules/leave: the statements (Leave/Requests), the rules (Leave/Rules), the transactions
--   (Leave/Transactions) and the services on the pool (Leave/Service). A decision writes the attendance
--   of the session in its transaction.
-- - Attendance, Coaches: modules/attendance (the batch of marks, and the guarded upsert that it shares
--   with decisions on leave) and the gate of modules/coaches/service.rs.
-- - Kafka: kafka/outbox.rs (Kafka/Outbox), kafka/consumer.rs (Kafka/Consumer) and the event table of
--   kafka/events.rs. The outbox's rows are the dispatcher's view of the table that the services write
--   their events into. What the publisher answers to a row, which rows other dispatchers hold, when
--   the shutdown arrives, how bytes decode, and JSON are arguments.
-- - Auth: modules/auth/session.rs and the activation of accounts in modules/auth/access.rs
--   (Auth/Session), and the access check of access.rs with its cache (Auth/Access), two functions from
--   users to entries; a call that fails and an entry whose time to live is over are both a read that
--   finds nothing. The signed tokens of utils/jwt.rs are a record of functions.
-- - Rewards: modules/rewards, the redemption of a reward for points.
-- - Sessions, Waitlist, Messages: rows of the tables that other parts read.
-- - Cart, Coupons: modules/cart and modules/coupons, every operation.
-- - Orders: modules/orders. Checkout is parse_request, the first replay, and one transaction
--   (Orders/Placing): locks, cart, gate, coupon, price (Orders/Pricing), stock, order, points,
--   enrolments, grants, the key (Orders/Idempotency) and the event; Orders/Status is the change of
--   status (Orders/Refund) with its compensation. What any predicate on the database must satisfy for
--   both to keep it is in Orders/Frame, of which the invariant of the shop (Orders/Sound) and the
--   record of a key (Orders/Frame/Kept) are the instances.
-- - Extractors: extractors/auth.rs and pagination.rs.
-- - Tests: a small shop on which the operations are run.
--
-- How the code is read. Numbers that are i32 or i64 in the code are integers here, with the range of
-- their type written out where the code adds or multiplies: `+i64`, `*i64` and `wrap_i32` wrap as a
-- release build does, `check_word` refuses as `checked_add` or a BIGINT column does. Loops over lines
-- and rows are structural recursion; the retries of the consumer run on fuel, of which the five
-- attempts that the code allows are enough, as proved. Time is an argument `now` in
-- microseconds. New ids come from a stream `uuids`, of which `drawn` have been used. Two parameters
-- stand for code outside the repository: `upper` is Rust's `str::to_uppercase`, and `stamp` is the
-- studio's local date as chrono-tz prints it; no theorem assumes anything about them. A checkout has
-- two states, `before` for the first replay and `db` under the buyer's lock, since other sessions may
-- commit in between; inside a transaction the rows that matter are locked, so it is one function of
-- the state. Notifications are best effort in the code and are appended here. After its commit a
-- checkout or a change of status reads the response: `unread` is the error of these reads, if one
-- fails, and the answer is then an error with the database changed.
--
-- Not modelled: failures of the connection elsewhere (in the first replay, for example), which answer
-- an error and change nothing; columns that no rule reads, lengths of VARCHAR columns and foreign keys; rows with the
-- same `created_at` keep the order of the table; the date overflow of chrono when an expiry is
-- computed. The handlers and routes (axum), e-mail and SMS, Google sign-in, reports (SQL only), seeds,
-- start-up, the Kafka client and the listings are left out, and so are passwords, one-time codes and
-- limits of authentication, and waiting lists, messages and the calendar of sessions beyond their
-- rows. The answers of
-- bookings and leave requests are the rows, since their DTOs only leave out or join columns.
pub mod Prelude
pub mod AppError
pub mod Base
pub mod Db
pub mod Cart
pub mod Coupons
pub mod Courses
pub mod Enrolments
pub mod Leave
pub mod Points
pub mod Products
pub mod Subscriptions
pub mod Orders
pub mod Sessions
pub mod StudioClock
pub mod Extractors
pub mod Bookings
pub mod Rewards
pub mod Waitlist
pub mod Attendance
pub mod Coaches
pub mod Messages
pub mod Auth
pub mod Kafka
pub mod Tests
