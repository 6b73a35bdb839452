-- ===== src/Tests/Planning.antt =====
-- The stock plans of app/app/src/app/plan/stock.rs on concrete inputs.
use octos_one.Prelude.{
  ◌≡◌, ◌↔◌, refl, true, false, none, [], ◌∷◌, not, any, length, String, string_eq,
}
use octos_one.Prelude.Text.{concat, codes}
use octos_one.Prelude.Chars.{as_bytes}
use octos_one.Shell.Plan.{ok, is_ok}
use octos_one.Shell.Plan.Stock.{Plan, lower, is_ticker, is_no_symbol}
use octos_one.Shell.Plan.Stock.Blocks.{Args}
use octos_one.Shell.Plan.Stock.Accepted.{is_permitted, lower_accepts}

-- `{:?}` of a text that needs no escapes.
abbrev quoted : String → String
quoted s = concat ("\"" ∷ s ∷ "\"" ∷ [])

abbrev named : String → String → Args
named ticker range = record {
  ticker = ticker;
  range = range;
  count = none;
  title = "";
  label = "";
  stats = "price" ∷ "low" ∷ [];
  symbols = "BRK.B" ∷ [];
}

abbrev quote_plan : Plan
quote_plan = record {
  plan = "stock";
  locale = "en";
  sections =
      record { block = "MoversList"; args = named "" "" }
      ∷ record { block = "StatGrid"; args = named "AAPL" "" }
      ∷ [];
}

lower_accepts_example :
    (is_ok (lower quoted (ok quote_plan)) ≡ true)
    ↔ (quote_plan.plan ≡ "stock")
      × (¬ (length quote_plan.sections ≡ 0))
      × (any (λ s. not (is_permitted s)) quote_plan.sections ≡ false)
lower_accepts_example = lower_accepts quoted quote_plan

-- A class suffix with a dash is a ticker of a quote, and no symbol of a universe.
dashed : (is_ticker "BRK-B" ≡ true) × (is_no_symbol "BRK-B" ≡ true)
unfolding is_ticker is_no_symbol any codes as_bytes
dashed = (refl, refl)

-- A quote is made with any range.
any_range : is_permitted (record { block = "QuoteHeader"; args = named "AAPL" "3h" }) ≡ true
unfolding is_ticker any codes as_bytes
any_range = refl

a_name : is_permitted (record { block = "QuoteHeader"; args = named "Apple" "" }) ≡ false
unfolding is_ticker any codes as_bytes
a_name = refl
