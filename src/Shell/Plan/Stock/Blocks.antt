-- ===== src/Shell/Plan/Stock/Blocks.antt =====
-- app/app/src/app/plan/stock.rs: the text of the blocks of a stock card.
use octos_one.Prelude.{
  [], ℕ, zero, suc, ◌+◌, String, string_eq, ◌==◌, Bool, Option, List, ◌∷◌, if◌then◌else◌, ltb,
  unwrap_or,
}
use octos_one.Prelude.Text.{concat, show}
use octos_one.Shell.Plan.{text_node}
use octos_one.Shell.Plan.Theme

pub record Args : Type 0 where
  pub ticker : String
  pub range : String
  pub count : Option ℕ
  pub title : String
  pub label : String
  pub stats : List String
  pub symbols : List String

abbrev pub or_text : String → String → String
or_text s d = if s == "" then d else s

unfoldable pub joined : String → List String → String
joined sep [] = ""
joined sep (s ∷ []) = s
joined sep (s ∷ t ∷ ss) = concat (s ∷ sep ∷ joined sep (t ∷ ss) ∷ [])

-- `clamp(1, 10)`.
abbrev pub clamped : ℕ → ℕ
clamped n = if ltb n 1 then 1 else if ltb 10 n then 10 else n

-- `chunks(2)`.
unfoldable pub pairs : List String → List (List String)
pairs [] = []
pairs (a ∷ []) = (a ∷ []) ∷ []
pairs (a ∷ b ∷ cs) = (a ∷ b ∷ []) ∷ pairs cs

unfoldable pub grid_row : List String → String
grid_row pair = concat (
    "        View{ width: Fill height: Fit flow: Right spacing: 10 margin: Inset{top: 10}\n"
    ∷ joined "\n" pair
    ∷ "\n        }\n"
    ∷ [])

module _ (dbg : String → String) where
  mover : ℕ → String → String → String
  mover r field universe =
      concat ("sys.movers(" ∷ show r ∷ ", \"" ∷ field ∷ "\", " ∷ dbg universe ∷ ")" ∷ [])

  unfoldable pub row : String → ℕ → String
  unfolding mover
  row universe r = concat (
      "        View{ width: Fill height: Fit flow: Right align: Align{y: 0.5} padding: Inset{top: 10 bottom: 10}\n            "
      ∷ text_node "TextRow" (dbg (show (r + 1))) Theme.text_muted "width: 28 "
      ∷ "\n            View{ width: Fill height: Fit flow: Down spacing: 2\n                "
      ∷ text_node "TextRow" (mover r "symbol" universe) Theme.text ""
      ∷ "\n                "
      ∷ text_node "TextCaption" (mover r "name" universe) Theme.text_muted ""
      ∷ "\n            }\n            View{ width: Fit height: Fit flow: Down align: Align{x: 1.0} spacing: 2\n                "
      ∷ text_node "TextRow" (concat ("\"$\" + " ∷ mover r "price" universe ∷ [])) Theme.text ""
      ∷ "\n                "
      ∷ text_node "TextCaption" (mover r "changepct" universe) Theme.up ""
      ∷ "\n            }\n        }\n        SolidView{ width: Fill height: 1 draw_bg.color: "
      ∷ Theme.hairline
      ∷ " }\n"
      ∷ [])

  -- The rows from `r` on, so many.
  rows_from : String → ℕ → ℕ → List String
  rows_from universe r zero = []
  rows_from universe r (suc n) = row universe r ∷ rows_from universe (r + 1) n

  unfoldable pub movers_list : Args → Bool → String
  unfolding rows_from
  movers_list a zh =
      let n = clamped (unwrap_or a.count 10) in
      let eyebrow = or_text a.label (if zh then "今日涨幅榜" else "TODAY · TOP GAINERS") in
      let title = or_text a.title (if zh then "涨幅榜" else "Movers") in
      concat (
        "    View{ width: Fill height: Fit flow: Down\n        "
        ∷ text_node "TextCaption" (dbg eyebrow) Theme.up ""
        ∷ "\n        "
        ∷ text_node "TextHero" (dbg title) Theme.text "width: Fill "
        ∷ "\n    }\n    RoundedView{ width: Fill height: Fit flow: Down new_batch: true draw_bg.color: "
        ∷ Theme.dark_panel
        ∷ " draw_bg.border_radius: "
        ∷ Theme.panel_radius
        ∷ " margin: Inset{top: "
        ∷ show Theme.gap
        ∷ "} padding: Inset{left: 14 right: 14 top: 4 bottom: 4}\n"
        ∷ concat (rows_from (joined "," a.symbols) 0 n)
        ∷ "    }"
        ∷ [])

  stock_call : String → String → String
  stock_call t key = concat ("sys.stock(" ∷ dbg t ∷ ", " ∷ key ∷ ")" ∷ [])

  range_call : String → String → String → String
  range_call t range key =
      concat ("sys.stockrange(" ∷ dbg t ∷ ", " ∷ dbg range ∷ ", " ∷ key ∷ ")" ∷ [])

  unfoldable pub quote_header : Args → String
  unfolding stock_call range_call
  quote_header a =
      let t = a.ticker in
      let range = or_text a.range "1d" in
      concat (
        "    View{ width: Fill height: Fit flow: Down\n        "
        ∷ text_node "TextTitle" (stock_call t "\"symbol\"") Theme.text_soft ""
        ∷ "\n        "
        ∷ text_node "TextCaption"
            (concat (
              stock_call t "\"name\""
              ∷ " + "
              ∷ dbg " · "
              ∷ " + "
              ∷ stock_call t "\"currency\""
              ∷ []))
            Theme.text_muted ""
        ∷ "\n        "
        ∷ text_node "TextHero" (concat ("\"$\" + " ∷ stock_call t "\"price\"" ∷ [])) Theme.text
            "margin: Inset{top: 2} "
        ∷ "\n        View{ width: Fill height: Fit flow: Right spacing: 8\n            "
        ∷ text_node "TextStat"
            (concat (
              range_call t range "\"change\""
              ∷ " + \"  (\" + "
              ∷ range_call t range "\"changepct\""
              ∷ " + \")\""
              ∷ []))
            Theme.text_dim ""
        ∷ "\n            "
        ∷ text_node "TextStat"
            (concat
              ("if " ∷ range_call t range "\"up\"" ∷ " == \"1\" { \"▲\" } else { \"▼\" }" ∷ []))
            Theme.text_dim ""
        ∷ "\n        }\n    }"
        ∷ [])

  unfoldable pub cell : String → String → String → String
  unfolding stock_call
  cell t cap key = concat (
      "            RoundedView{ width: Fill height: Fit flow: Down draw_bg.color: "
      ∷ Theme.photo_tile
      ∷ " draw_bg.border_radius: "
      ∷ Theme.card_radius
      ∷ " padding: Inset{left: 14 top: 12 right: 14 bottom: 12} spacing: 6\n                "
      ∷ text_node "TextCaption" (dbg cap) Theme.text_faint ""
      ∷ "\n                "
      ∷ text_node "TextValue" (stock_call t (dbg key)) Theme.text ""
      ∷ "\n            }"
      ∷ [])
