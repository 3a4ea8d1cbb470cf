-- ===== src/Lib.antt =====
-- The orders and the trades of the trading playground, over the Rust sources in src/.
--
-- An order of the playground lives in src/order.rs. The program calls its methods: it computes the
-- order, flags it, and passes on what the exchange confirmed. Each method may change the state of the
-- order, which recomputes the order; a computation may make an instruction for the exchange
-- (src/instruction.rs), which the order keeps as pending until its execution is confirmed. The order
-- asks a trigger (src/trigger.rs and its implementations) whether it may be placed, cuts its prices and
-- quantities to the exchange's steps with an appraiser (src/appraiser.rs), retries with a countdown and
-- a cooldown (src/countdown.rs, src/cooldown.rs), and carries ids that pack a trade, a kind, a sequence
-- number and a unique number into 64 bits (src/id.rs).
--
-- A trade (src/trade.rs) holds three orders: an entry, an exit and a stoploss, put together and checked by
-- its builder. It passes on to each order what is confirmed of it, by the kind in the order's id; computes
-- its orders and its own state; hands out one instruction at a time, so that the exit and the stoploss do
-- not offer the same quantity twice; and closes when its orders are finished or cancelled. A closer
-- (src/trade_closer.rs) says at which price. Balances (src/balance.rs), positions (src/position.rs) and
-- time sets (src/timeset.rs) stand by themselves.
--
-- The trader (src/trader.rs) keeps for each symbol a context with orders, trades and a position. It takes in
-- orders and trades, computes all of them and sends their new instructions to the exchange client; what the
-- exchange says of an order goes by the order's id to its trade, and a fill also to the position. A method
-- of the trader is a function on the trader and the number of readings, as those of orders and trades are;
-- they are the calls of Trader/Operation, and a property of all contexts that withstands what
-- Trader/Carried lists holds on through any series of calls.
--
--   Common                 names passed on; Common/Result, and Common/Table: maps by keys, with what holds
--                          of every entry in Common/Table/Every, and distinct keys in Common/Table/Distinct.
--   Types, Types/Text      src/types.rs: enumerations, and their texts (`From<String>`).
--   Float, Float/Units     what is used of `OrderedFloat<f64>`, as an interface; values for tests.
--   Timeframe              src/timeframe.rs: the timeframes and their milliseconds; Timeframe/Text: their
--                          texts, with what is read back of them in Timeframe/Text/Reading;
--                          Timeframe/Duration: how long they are.
--   TimeSet                src/timeset.rs, with TimeSet/Index and TimeSet/Iterate; TimeSet/Entries is its view as a table, TimeSet/Access and
--                          TimeSet/Yield are about its readings, writes and iterations.
--   Fibonacci              src/util.rs: `max_fib_leq`; its fuel is the input and two, since every turn of the
--                          loop but the first raises its bound.
--   Balance                src/balance.rs, with Balance/Funds on what is read and granted.
--   Position               src/position.rs, and Position/Accumulator src/position_accumulator.rs;
--                          Position/Capital, Pending and Sound are about its calls.
--   Countdown, Cooldown    src/countdown.rs and src/cooldown.rs: `checkin`, `use_cooldown`, ...
--   SmartId                src/id.rs: `SmartId`, with what its bit fields hold in SmartId/Fields.
--   Appraiser, Leverage    src/appraiser.rs and src/leverage.rs.
--   Instruction            src/instruction.rs: `ManagedInstruction::set_state`, `Instruction::to_generic`.
--   Trigger                src/trigger.rs; Trigger/Simple is src/trigger_delayed.rs, Trigger/Zone is
--                          src/trigger_delayed_zone.rs, Trigger/Reached is src/trigger_distance.rs and
--                          src/trigger_proximity.rs, and Trigger/Dispatch puts them side by side.
--   Semaphore              src/semaphore.rs: the steps of the threads that share a semaphore.
--   SlidingWindow          src/sliding_window.rs: the ring buffer, and what `iter` yields of it.
--   Order/State, Error, Data   `OrderState` with the table of `set_state`, `OrderError`, `Order`.
--   Order/Validate         `validate`, with what it accepts in Order/Validate/Sane.
--   Order/Monad            the setting of the methods: a state, a world that is read, an outcome.
--   Order/Query, Make      the tests on an order, and the instructions that it makes.
--   Order/Trail, Handlers, Compute   `set_state`, `compute_stoploss`, the `handle_...` methods, `compute`
--                          and `compute_next_instruction`.
--   Order/Confirm, Operation   the methods that the program calls, and sequences of such calls.
--   Order/Keeps, Diagram, Follows, Journey, Pending, Filled   what methods keep, and what follows.
--   Order/Ends, Waiting, Finish     that computations return, and in which state.
--   Trade/State, Error, Data, Closer   `TradeState` with its table, `TradeError`, `Trade`, and the closers.
--   Trade/Monad, Query     the setting of the methods of a trade, and the tests on a trade.
--   Trade/Compute, Confirm, Operation   `compute` and its parts, the confirmations, and series of calls.
--   Trade/Validate, Builder            `validate` and `TradeBuilder::build`.
--   Trade/Diagram, Keeps, Follows, Journey, Terms, Exclusive, Fill, Built   what these keep and do.
--   Trader/Error, Data, Monad, Walk   `TraderError`, `Trader` and its contexts, the setting of its methods, and
--                          the loop over a map.
--   Trader/Compute         `compute`: an order, a trade and a context are served, and instructions sent.
--   Trader/Query, Create   what is asked of a trader, `can_create_order`; `create_order`, `create_trade`, ...
--   Trader/Template, TradeTemplate, Placement   `order_template` and its like, `trade_template`, and the calls
--                          that place an order made from a template, such as `market_buy`.
--   Trader/Confirm, Event, Operation   the `confirm_...` methods, `handle_order_event`, and series of calls.
--   Trader/Keeps, Carried, Registry, Orderly, Room, Removed, Standalone, Handed, Refused, Long   what these keep
--                          and do: of the trades held and removed, of the number of orders, of orders without a trade, of instructions
--                          handed over, of stoplosses placed, and of trades made from the template.
--
-- Prices and quantities are values of a type `W` with the operations of the record `OrderedFloat`; no
-- law of floating point is assumed. Numbers of a machine width are natural numbers, with the wrap-around
-- written out where the source's operation can wrap. Times are natural numbers, in nanoseconds where the
-- source has a `Duration` or a `DateTime`. The shared market price, the clock and the random ids are the
-- record `World`, which gives for each reading whatever it gives: other threads may store a price between
-- any two. A method of an order is a function on the order and the number of readings so far; it ends in
-- a value, an error, a panic, or `out_of_fuel`. The order that an error leaves behind is kept, since the
-- methods change the order in place. `compute` and `compute_next_instruction` call each other; the model
-- follows nested calls to a depth that is an argument, and what is proved to be kept of orders is
-- kept at every depth, and where a call is proved to return, the depth that it needs is given.
--
-- Not modelled: logging, and serialization but for the texts of enumerations; of an order its plain setters; of the
-- trader its locks, so that calls of several threads interleave only as whole calls, and the channel's
-- failures; the roundtrips, which no module uses; the
-- simulator, the order book, the rate limiter; the exchange client, the threads and the channels, which
-- are input and output; the candles, series and indicators, which are floating-point analysis; and the
-- user interface. What rust_decimal and ordered_float compute is a parameter; that a conversion to a decimal,
-- or an operation on decimals, may panic is modelled.
pub mod Common
pub mod Types
pub mod Fibonacci
pub mod Float
pub mod Timeframe
pub mod TimeSet
pub mod Countdown
pub mod Instruction
pub mod Trader
pub mod Trigger
pub mod Cooldown
pub mod SmartId
pub mod Appraiser
pub mod Balance
pub mod Leverage
pub mod Order
pub mod Trade
pub mod Position
pub mod Semaphore
pub mod SlidingWindow
