-- ===== src/Client/Steps.antt =====
-- What may happen to the state of the client of src/order_entry.py, as a relation: the answers of the
-- exchange, and the client's own steps. The operations are chains of these.
use hft_trading_system.Prelude.{
  insert, int_eq, lookup, nat_eq, none, pos, some, ℕ, ℤ, ◌+ℤ◌, ◌+◌, ◌<ℤ◌, ◌≡◌, ◌≤ℤ◌,
}
use hft_trading_system.Safety.Exposure.{OeConfig}
use hft_trading_system.Safety.Position.{get_position}
use hft_trading_system.Safety.Risk.{RiskTracker}
use hft_trading_system.Safety.Scenarios.{HasSide}
use hft_trading_system.Safety.Limits.{exposure, placed}
use hft_trading_system.Client.{OrderEntryClient, book_fill}
use hft_trading_system.Client.Headers.{IsNext}
use hft_trading_system.Client.Orders.{forget}
use hft_trading_system.Client.Manage.{changed, forgotten}
use hft_trading_system.Protocol.Responses.{OrderFill}

pub data Chain {A : Type 0} (R : A → A → Type 0) (a : A) : A → Type 0 where
  here : Chain R a a
  next : {b c : A} → Chain R a b → R b c → Chain R a c

pub chain_append :
    {A : Type 0} {R : A → A → Type 0} {a b c : A} → Chain R a b → Chain R b c → Chain R a c
chain_append p Chain.here = p
chain_append p (Chain.next q r) = Chain.next (chain_append p q) r

-- A request takes a number, a response brings one, and a login a session.
pub data Quiet : OrderEntryClient → OrderEntryClient → Type 0 where
  numbered : (c : OrderEntryClient) → Quiet c (record c { seq_num = c.seq_num + 1 })
  heard : (c : OrderEntryClient) (n : ℕ) → IsNext c.resp_seq n → Quiet c (record c { resp_seq = n })
  joined : (c : OrderEntryClient) (session_id : ℕ) → Quiet c (record c { session_id = session_id })

-- A response may also fill or close an order.
pub data Answer : OrderEntryClient → OrderEntryClient → Type 0 where
  quiet : {c c' : OrderEntryClient} → Quiet c c' → Answer c c'
  filled :
      (c : OrderEntryClient) (m : OrderFill) (o : OeConfig)
      → lookup m.order_id c.open_orders ≡ some o
      → Answer c (book_fill m o c)
  closed : (c : OrderEntryClient) (order_id : ℕ) → Answer c (forget order_id c)

-- The limits that an update of the counters leaves alone
pub record SameLimits (r r' : RiskTracker) : Type 0 where
  pub exposure_same : r'.max_exposure ≡ r.max_exposure
  pub position_same : r'.position_limit ≡ r.position_limit

-- What the check of an order before it is sent leaves true
abbrev pub IsAllowed : (symbol side : ℕ) → (quantity : ℤ) → OrderEntryClient → Type 0
IsAllowed symbol side quantity c =
    (exposure symbol side c.open_orders (get_position symbol c.position_tracker) +ℤ quantity
      ≤ℤ c.risk_tracker.max_exposure)
    × (pos 0 <ℤ quantity)

abbrev pub modified : ℕ → OeConfig → OrderEntryClient → OrderEntryClient
modified order_id o c = record c { open_orders = insert order_id o c.open_orders }

pub data Step : OrderEntryClient → OrderEntryClient → Type 0 where
  answered : {c c' : OrderEntryClient} → Answer c c' → Step c c'
  checked :
      (c : OrderEntryClient) (r : RiskTracker)
      → SameLimits c.risk_tracker r
      → Step c (record c { risk_tracker = r })
  opened :
      (c : OrderEntryClient) (order_id symbol side : ℕ) (quantity price : ℤ)
      → lookup order_id c.open_orders ≡ none
      → HasSide (placed symbol side quantity price)
      → IsAllowed symbol side quantity c
      → Step c (modified order_id (placed symbol side quantity price) c)
  rewritten :
      (c : OrderEntryClient) (order_id side : ℕ) (quantity price : ℤ) (o : OeConfig)
      → lookup order_id c.open_orders ≡ some o
      → HasSide (changed side quantity price o)
      → Step c (modified order_id (changed side quantity price o) c)
  reset : (c : OrderEntryClient) → Step c (forgotten c)

pub quiets : {c c' : OrderEntryClient} → Chain Quiet c c' → Chain Answer c c'
quiets Chain.here = Chain.here
quiets (Chain.next p a) = Chain.next (quiets p) (Answer.quiet a)

pub answers : {c c' : OrderEntryClient} → Chain Answer c c' → Chain Step c c'
answers Chain.here = Chain.here
answers (Chain.next p a) = Chain.next (answers p) (Step.answered a)
