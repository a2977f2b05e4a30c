-- ===== src/Lib.antt =====
-- Verification of the trading system of this repository: a client that follows the market-data
-- feed of an exchange, keeps an order book for each symbol, and sends orders over TCP behind risk
-- checks.
--
-- The parts and how they interact. A datagram of the feed is parsed (src/parser.py) into a message
-- (src/market_data_struct.py). The sequence tracker, the snapshot synchroniser and
-- `dispatch_live_message` (src/order_book.py) decide what becomes of it: it is dropped, buffered
-- until a snapshot is complete, or handed to the manager, which finds the book by the order's
-- number. Orders go out as messages of src/order_entry_protocol.py, once `RiskTracker.is_valid`
-- (src/safety.py) has accepted them against the positions, the open orders and the profit: that is
-- the client of src/order_entry.py. On top of it and of the books stand the market maker of
-- src/strategy.py and, as a part of it, the arbitrage engine of src/etf_arb.py, which share its
-- trackers.
--
-- Prelude holds what the modules share: integers and dictionaries as Python has them, and methods
-- as actions: functions from a state to a result and a state, where an exception is a value and
-- what was written before it stays. HeapQueue stands for `heapq`, as the ascending list of a
-- heap's entries: the code reads and removes the least entry alone. Struct stands for Python's
-- `struct`.
--
-- MarketData: the enumerations, messages, levels and orders of src/market_data_struct.py.
-- Parser: the constructors there that read bytes, and `parse_message`; Parser/Feed is the other
-- direction, and Parser/Tagged is about arbitrary bytes.
-- OrderBook: `class OrderBook`, a definition for each method; `get_best_bid` and `get_best_ask`
-- are `get_best` at a side. OrderBook/Summary, Changes and Invariant say what a well-formed book
-- is, Add, Settle and Trade that each method keeps it, Spec states the calls on a plain dictionary
-- of orders, Best and Validate read the top.
-- BookManager: `class OrderBookManager` and `dispatch_live_message`; its children go from one book
-- to all of them.
-- Sequence: `class SequenceTracker`. Snapshot: `class SnapShotSynchronizer`, with the manager and
-- the tracker that it refers to as parts of its state; Snapshot/Buffer and Replay are about
-- `replay_buffered_messages`, Complete and Empty about the messages of the snapshot channel, and
-- Recover about `_reset_for_resnap`.
-- Router: `_process_buffer` of src/main.py, which ties these together: it cuts the bytes of a
-- channel into packets and routes each, by its magic number and by whether the synchroniser is in
-- sync.
-- Protocol: the classes of src/order_entry_protocol.py, each by the layout of its fields.
-- Safety: the four trackers of src/safety.py. Scenarios and Limits say what may become of open
-- orders, Ledger, Cash and Rate follow the trackers over many calls.
-- Client: `class OrderEntryClient` of src/order_entry.py. The parent has its state and what a fill
-- books (Client/Fills, Exposures, Openings, Bounds); Client/Wire is the socket and
-- `_recv_message` (Framing, Draining), Session the exchange of requests and responses (Headers,
-- Logins), Orders and Manage the methods that trade (Operations, Modifies, Cancels, Refusals,
-- Placing, Remaining, Mid). Client/Steps is what may happen to the state, as a relation, and Follows
-- the rules by which a block of code is a chain of those steps. Client/Accounts has the state
-- together with the responses that wait to be processed, Receipts takes them from the wire and
-- Settling processes them. Client/Blocks is the chaining of the methods.
-- Strategy: Floats are the operations on Python's floats, Spoofs `class SpoofDetector`, State the
-- other classes, Prices the computations of `_step_symbol`, Quotes the placing, changing and
-- cancelling of quotes, Spoofing the spoof orders, Steps `_step_symbol` and the callbacks, Flat
-- `go_flat`, `stop` and `on_market_data_update`. Stopping and Turns are about
-- the loss limit, Pressure about `decay`, and Guards about the planned quotes.
-- FeedHandler: `_process_buffer` with a strategy; Router has it for a feed handler without one, and
-- FeedHandler/Errors is about what leaves the loop.
-- EtfArb: `class ETFArbEngine`; EtfArb/Legs is about the legs, Booking about the positions.
-- Tests: runs on small inputs, and each property at one of them.
--
-- Bounds and fuel. Loops over a list or a heap recurse on it. The loop of `_process_buffer` has
-- its rounds as fuel, and its result says whether it still runs. The rounding of a double looks
-- for its step by at most 1024 doublings, which pass the largest double. Fields that the wire
-- holds unsigned are naturals, a price is a signed integer, and the range of each field is a
-- condition where bytes are written. The clock of `is_valid` is an argument in nanoseconds.
--
-- What the code calls and this repository does not hold is a parameter: `Venue` is the exchange with
-- the network and the clocks, whose state is that of all that is outside, and which says what
-- arrives on the socket after each message, in pieces and pauses; `Service` is the REST service
-- that makes and takes apart shares of the fund; `monotonic` reads the clock of the strategy from
-- the outside, so two readings with nothing between them are equal; `Float` is the arithmetic of
-- floats, of which only what a theorem names is assumed. `depth` is how many calls of
-- `cancel_all_orders` within each other the interpreter allows, after which RecursionError is
-- raised, as it is in the code. The loop that drains the socket has what is in it as fuel. `rounds`
-- is how often `go_flat` finds its deadline ahead.
--
-- Not modelled: log lines and the texts of exceptions; the sockets, threads and command line of
-- src/multicast.py and src/main.py; `__str__` and `__repr__`. Doubles of profits hold integers here, as the code
-- only puts integers into them; infinities and NaN are left out. A division of floats by zero
-- raises nothing here: the divisors are constants, a tick, or the limits of the configuration.
pub mod Prelude
pub mod HeapQueue
pub mod MarketData
pub mod OrderBook
pub mod BookManager
pub mod Sequence
pub mod Snapshot
pub mod Struct
pub mod Protocol
pub mod Parser
pub mod Router
pub mod Safety
pub mod Client
pub mod Strategy
pub mod EtfArb
pub mod FeedHandler
pub mod Tests
