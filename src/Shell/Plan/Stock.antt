-- ===== src/Shell/Plan/Stock.antt =====
-- app/app/src/app/plan/stock.rs: the cards of the stock plans. The `{:?}` of a text is a parameter, and
-- so is serde_json's reading of a plan.
pub mod Blocks
pub mod Accepted
use octos_one.Prelude.{
  [], ℕ, zero, suc, ◌+◌, String, string_eq, ◌==◌, Bool, true, false, ◌&&◌, ◌||◌, not, Option, none,
  some, List, ◌∷◌, ◌++◌, if◌then◌else◌, eqb, leb, ltb, any, length, unwrap_or, map,
}
use octos_one.Prelude.Chars.{as_bytes}
use octos_one.Prelude.Text.{concat, codes, show}
use octos_one.Shell.Plan.{Lowered, ok, err, and_then, dark_root, text_node, starts_with_zh}
use octos_one.Shell.Plan.Theme
use octos_one.Shell.Plan.Stock.Blocks.{
  Args, or_text, joined, pairs, movers_list, quote_header, cell, grid_row,
}

pub record Section : Type 0 where
  pub block : String
  pub args : Args

pub record Plan : Type 0 where
  pub plan : String
  pub locale : String
  pub sections : List Section

abbrev pub ranges : List String
ranges = "1d" ∷ "5d" ∷ "1mo" ∷ "6mo" ∷ "1y" ∷ []

-- The captions of a statistic, and the key to fetch it by.
unfoldable pub stat_spec : String → Option (String × String × String)
stat_spec k =
    if k == "price"
    then some ("PRICE", "现价", "price")
    else if k == "prev"
    then some ("PREV CLOSE", "昨收", "prev")
    else if k == "high"
    then some ("HIGH", "最高", "high")
    else if k == "low"
    then some ("LOW", "最低", "low")
    else if k == "open"
    then some ("OPEN", "开盘", "open")
    else if k == "currency"
    then some ("CURRENCY", "货币", "currency")
    else none

abbrev pub is_upper : ℕ → Bool
is_upper c = leb 65 c && leb c 90

abbrev pub byte_len : String → ℕ
byte_len t = length (as_bytes (codes t))

-- What `validate_ticker` lets a named quote have.
unfoldable pub is_ticker : String → Bool
is_ticker t =
    not (any (λ c. not (is_upper c || eqb c 46 || eqb c 45)) (codes t)) && leb (byte_len t) 6

-- What the loop over `symbols` refuses.
unfoldable pub is_no_symbol : String → Bool
is_no_symbol t =
    t == "" || ltb 6 (byte_len t) || any (λ b. not (is_upper b || eqb b 46)) (as_bytes (codes t))

abbrev at : ℕ → String
at i = concat ("sections[" ∷ show i ∷ "]" ∷ [])

module _ (dbg : String → String) where
  unfoldable pub validate_ticker : String → ℕ → String → Lowered Unit
  validate_ticker t i block =
      if t == ""
      then err (concat (at i ∷ " " ∷ block ∷ ": needs a ticker" ∷ []))
      else if not (is_ticker t)
      then err (
          concat (
            at i
            ∷ " "
            ∷ block
            ∷ ": "
            ∷ dbg t
            ∷ " is not a ticker symbol — resolve the company to its symbol (e.g. \"apple\" → \"AAPL\")"
            ∷ []))
      else ok tt

  -- The loop over `symbols`.
  unfoldable pub check_symbols : ℕ → List String → Lowered Unit
  check_symbols i [] = ok tt
  check_symbols i (t ∷ ts) =
      let rest = check_symbols i ts in
      if is_no_symbol t
      then err (
          concat (
            at i
            ∷ ": "
            ∷ dbg t
            ∷ " is not a ticker — uppercase letters and dots, up to 6 characters"
            ∷ []))
      else rest

  unfoldable pub price_chart : Args → ℕ → Lowered String
  price_chart a i =
      let range = or_text a.range "1d" in
      if not (any (λ r. r == range) ranges)
      then err (
          concat (
            at i ∷ " PriceChart: range " ∷ dbg range ∷ " is not one of " ∷ joined ", " ranges ∷ []))
      else ok (
          concat (
            "    StockPlot{ width: Fill height: 170 symbol: "
            ∷ dbg a.ticker
            ∷ " range: "
            ∷ dbg range
            ∷ " margin: Inset{top: "
            ∷ show Theme.gap
            ∷ "} }"
            ∷ []))

  -- The loop over `stats`.
  unfoldable pub cells : String → Bool → ℕ → List String → Lowered (List String)
  cells t zh i [] = ok []
  cells t zh i (k ∷ ks) =
      let rest = cells t zh i ks in
      elim (stat_spec k) [
        | none ↦ err (
            concat (
              at i
              ∷ " StatGrid: unknown stat "
              ∷ dbg k
              ∷ " — permitted: price, prev, high, low, open, currency"
              ∷ []))
        | some (cap_en, cap_zh, key) ↦
            and_then rest (λ cs. ok (cell dbg t (if zh then cap_zh else cap_en) key ∷ cs))
      ]

  unfoldable pub stat_grid : Args → Bool → ℕ → Lowered String
  unfolding cells grid_row pairs
  stat_grid a zh i =
      if eqb (length a.stats) 0
      then err (
          concat (
            at i
            ∷ " StatGrid: stats is empty — name at least two of price, prev, high, low, open, currency"
            ∷ []))
      else and_then (cells a.ticker zh i a.stats) (λ cs. ok (
          concat (
            "    View{ width: Fill height: Fit flow: Down margin: Inset{top: "
            ∷ show Theme.gap
            ∷ "}\n"
            ∷ concat (map grid_row (pairs cs))
            ∷ "    }"
            ∷ [])))

  -- One round of the loop of `lower`.
  unfoldable pub lower_section : Bool → ℕ → Section → Lowered String
  unfolding check_symbols validate_ticker movers_list quote_header price_chart stat_grid
  lower_section zh i sec =
      let a = sec.args in
      if sec.block == "MoversList"
      then and_then (check_symbols i a.symbols) (λ u. ok (movers_list dbg a zh))
      else if sec.block == "QuoteHeader"
      then and_then (validate_ticker a.ticker i "QuoteHeader") (λ u. ok (quote_header dbg a))
      else if sec.block == "PriceChart"
      then and_then (validate_ticker a.ticker i "PriceChart") (λ u. price_chart a i)
      else if sec.block == "StatGrid"
      then and_then (validate_ticker a.ticker i "StatGrid") (λ u. stat_grid a zh i)
      else err (
          concat (
            at i
            ∷ ": unknown block "
            ∷ dbg sec.block
            ∷ " — permitted: MoversList, QuoteHeader, PriceChart, StatGrid"
            ∷ []))

  unfoldable pub lower_sections : Bool → ℕ → List Section → String → Lowered String
  unfolding lower_section
  lower_sections zh i [] body = ok body
  lower_sections zh i (sec ∷ secs) body =
      and_then (lower_section zh i sec)
        (λ s. lower_sections zh (i + 1) secs (concat (body ∷ s ∷ "\n" ∷ [])))

  -- `lower`, of what serde_json makes of the text.
  unfoldable pub lower : Lowered Plan → Lowered String
  unfolding lower_sections dark_root
  lower parsed = elim parsed [
    | err e ↦ err (concat ("stock plan is not valid: " ∷ e ∷ []))
    | ok p ↦
        if not (p.plan == "stock")
        then err (concat ("expected a stock plan, got " ∷ dbg p.plan ∷ []))
        else if eqb (length p.sections) 0
        then err "stock plan has no sections — name at least a MoversList or QuoteHeader"
        else and_then (lower_sections (starts_with_zh p.locale) 0 p.sections "")
            (λ body. ok (dark_root "stock-app" body))
  ]
