-- ===== src/Cycle/Bootstrap.antt =====
-- `build_kernel_context`: the rows of the open policies, the summary of the book and the configuration
-- are what the database returned, and are arguments.
use the_underwriter.Domain.Market.{date_of}
use the_underwriter.Domain.Proposal.{put_credit_spread}
use the_underwriter.Domain.Money.{dec_zero}
use the_underwriter.Base.Int.{ℤ, pos}
use the_underwriter.Domain.Decimal.{eq, mul, Decimal, lt, of_ℕ}
use the_underwriter.Kernel.Context.{
  SystemMode, OpenPolicy, manage_only, KernelContext, AccountState,
}
use the_underwriter.Base.{
  ◌>>=◌, String, Option, ℕ, Bool, some, none, false, List, if◌then◌else◌, Result, ok, true, map, [],
}

-- What is read of a row of `policies`.
pub record PolicyRow : Type 0 where
  pub id : String
  pub underlying : String
  pub contracts : ℤ
  pub max_loss : Option Decimal
  pub capital_reserve : Option Decimal

-- What is read of `SystemConfig`.
pub record ConfigRow : Type 0 where
  pub mode : SystemMode
  pub kill_switch : Bool
  pub peak_equity : Option Decimal

-- What is read of `BookSummary`.
pub record Book : Type 0 where
  pub equity : Option Decimal
  pub realized_pnl : Decimal

-- `x or ZERO`
abbrev pub or_zero : Option Decimal → Decimal
or_zero none = dec_zero
or_zero (some d) = d

unfoldable pub to_open_policy : ℕ → PolicyRow → OpenPolicy
to_open_policy moment row = record {
  policy_id = row.id;
  underlying = row.underlying;
  structure = put_credit_spread;
  short_strike = dec_zero;
  long_strike = dec_zero;
  expiry = date_of moment;
  contracts = row.contracts;
  max_loss = or_zero row.max_loss;
  reserve = or_zero row.capital_reserve;
}

unfoldable pub peak_of : Option ConfigRow → Decimal → Decimal
unfolding eq
peak_of none equity = equity
peak_of (some config) equity = elim config.peak_equity [
  | none ↦ equity
  | some peak ↦ if eq peak dec_zero then equity else peak
]

-- `BOOT_MODE`
abbrev pub boot_mode : SystemMode
boot_mode = manage_only

abbrev pub mode_of : Option ConfigRow → SystemMode
mode_of none = boot_mode
mode_of (some config) = config.mode

abbrev pub kill_switch_of : Option ConfigRow → Bool
kill_switch_of none = false
kill_switch_of (some config) = config.kill_switch

-- What the code does not pass is what `KernelContext` declares for it.
unfoldable pub build_kernel_context :
    ℕ → Book → Option ConfigRow → List PolicyRow → Result KernelContext
unfolding to_open_policy peak_of mul lt
build_kernel_context moment book config rows = do
  let equity = or_zero book.equity
  buying_power ← mul equity (of_ℕ 2)
  read_ok ← lt dec_zero equity
  let account : AccountState = record {
    nav = equity;
    equity = equity;
    buying_power = buying_power;
    peak_equity = peak_of config equity;
    daily_realized_pnl = book.realized_pnl;
    as_of = moment;
    read_ok = read_ok;
  }
  ok (record {
    now = moment;
    account = account;
    data_as_of = moment;
    mode = mode_of config;
    kill_switch_engaged = kill_switch_of config;
    market_open = true;
    minutes_since_open = pos 60;
    minutes_to_close = pos 60;
    open_policies = map (to_open_policy moment) rows;
    portfolio_net_delta = dec_zero;
    portfolio_net_vega = dec_zero;
    supplied_candidate_ids = [];
    breached_underlyings = [];
    existing_client_order_ids = [];
  })
