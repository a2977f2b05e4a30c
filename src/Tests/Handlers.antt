-- ===== src/Tests/Handlers.antt =====
-- A run of `_process_buffer` of src/main.py with a strategy.

-- A handler in sync, which knows no order: the trade of one is refused.

use hft_trading_system.Prelude.{Error, err, false, int_eq, nat_eq, ok, true, ℕ, ◌≡◌, ◌⊎◌}
use hft_trading_system.BookManager.{dispatch_live_message}
use hft_trading_system.Router.{is_book_error}
use hft_trading_system.FeedHandler.{FeedHandler, handle_live}
use hft_trading_system.FeedHandler.Errors.{IsSetAside, PassesOn, asked, handle_live_outcome, told}
use hft_trading_system.Tests.Sessions.{filling}
use hft_trading_system.Tests.Strategies.{making, now, refusing, thousandths}
use hft_trading_system.Tests.Routes.{in_sync}
use hft_trading_system.Tests.Wires.{fill, fill_header}

abbrev handler : FeedHandler ℕ ℕ
handler = record { synchronizer = in_sync; strategy = making }

handle_live_outcome_example :
    let r = handle_live filling refusing now 2 1 fill_header fill handler in
    let d = (dispatch_live_message fill_header fill in_sync.book_manager).0 in
    ((d ≡ ok tt)
      × PassesOn
          (asked filling refusing now 2 1 fill_header fill
            (told filling refusing now 2 1 fill_header fill handler))
          r.0)
    ⊎ ((c : Error) × (d ≡ err c)
        × (((is_book_error c ≡ true)
              × IsSetAside filling refusing now 2 1 fill_header fill handler r)
            ⊎ ((is_book_error c ≡ false) × (r.0 ≡ err c))))
handle_live_outcome_example = handle_live_outcome filling refusing now 2 1 fill_header fill handler
