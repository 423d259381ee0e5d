-- ===== src/Cycle/Tests.antt =====
-- Runs on a book of one policy that is the proposal itself.
use the_underwriter.Cycle.Blind.{build_kernel_context-blind}
use the_underwriter.Domain.Proposal.{opening}
use the_underwriter.Kernel.Scenario.{proposal}
use the_underwriter.Kernel.Rules.{identical}
use the_underwriter.Domain.Money.{dec_zero}
use the_underwriter.Base.Int.{pos}
use the_underwriter.Domain.Decimal.{eq, of_ℕ, mul, half_even, lt}
use the_underwriter.Kernel.Context.{KernelContext, active, total_assignment_cost}
use the_underwriter.Base.{Option, some, any, false, true, none, ◌∷◌, ◌≡◌, [], ok, refl}
use the_underwriter.Cycle.Bootstrap.{
  PolicyRow, Book, build_kernel_context, ConfigRow, to_open_policy, peak_of,
}

abbrev held : PolicyRow
held = record {
  id = "p1";
  underlying = "SPY";
  contracts = pos 1;
  max_loss = some (of_ℕ 400);
  capital_reserve = some (of_ℕ 400);
}

abbrev book : Book
book = record { equity = some (of_ℕ 100000); realized_pnl = dec_zero }

abbrev config : Option ConfigRow
config = some (record { mode = active; kill_switch = false; peak_equity = none })

abbrev built : KernelContext
built = record {
  now = 90000000000;
  account = record {
    nav = of_ℕ 100000;
    equity = of_ℕ 100000;
    buying_power = of_ℕ 200000;
    peak_equity = of_ℕ 100000;
    daily_realized_pnl = dec_zero;
    as_of = 90000000000;
    read_ok = true;
  };
  data_as_of = 90000000000;
  mode = active;
  kill_switch_engaged = false;
  market_open = true;
  minutes_since_open = pos 60;
  minutes_to_close = pos 60;
  open_policies = to_open_policy 90000000000 held ∷ [];
  portfolio_net_delta = dec_zero;
  portfolio_net_vega = dec_zero;
  supplied_candidate_ids = [];
  breached_underlyings = [];
  existing_client_order_ids = [];
}

built_run : build_kernel_context 90000000000 book config (held ∷ []) ≡ ok built
unfolding build_kernel_context mul half_even lt peak_of
built_run = refl

build_kernel_context-blind_example :
    (any (identical (proposal opening)) built.open_policies ≡ false)
    × (total_assignment_cost built ≡ ok dec_zero)
    × (built.market_open ≡ true)
    × (built.data_as_of ≡ built.now)
    × (built.existing_client_order_ids ≡ [])
unfolding eq
build_kernel_context-blind_example =
    build_kernel_context-blind 90000000000 book config (held ∷ []) built (proposal opening)
      built_run refl
