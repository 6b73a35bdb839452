-- ===== src/Shell/Plan/Stock/Accepted.antt =====
-- Which plans app/app/src/app/plan/stock.rs makes a card of.
use octos_one.Prelude.{
  ◌≡◌, ◌↔◌, refl, ◌∙◌, ap, inl, inr, ℕ, ◌+◌, String, string_eq, ◌==◌, Bool, true, false, Bool-cases,
  ◌&&◌, ◌||◌, not, List, [], ◌∷◌, arith, if◌then◌else◌, eqb, any, length, is_some, Option-cases,
}
use octos_one.Prelude.Text.{concat}
use octos_one.Shell.Plan.{Lowered, ok, err, is_ok, and_then, starts_with_zh}
use octos_one.Shell.Plan.Stock.{
  Section, Plan, ranges, stat_spec, is_ticker, is_no_symbol, check_symbols, validate_ticker, cells,
  price_chart, stat_grid, lower_section, lower_sections, lower,
}
use octos_one.Shell.Plan.Stock.Blocks.{Args}

abbrev pub has_ticker : Args → Bool
has_ticker a = not (a.ticker == "") && is_ticker a.ticker

abbrev pub has_range : Args → Bool
has_range a = (a.range == "") || any (λ r. r == a.range) ranges

-- A statistic of the closed set.
abbrev pub is_known : String → Bool
is_known k = is_some (stat_spec k)

abbrev pub has_stats : Args → Bool
has_stats a = not (eqb (length a.stats) 0) && not (any (λ k. not (is_known k)) a.stats)

-- What a block needs of its arguments; there is no other block.
abbrev pub is_permitted : Section → Bool
is_permitted sec =
    if sec.block == "MoversList"
    then not (any is_no_symbol sec.args.symbols)
    else if sec.block == "QuoteHeader"
    then has_ticker sec.args
    else if sec.block == "PriceChart"
    then has_ticker sec.args && has_range sec.args
    else if sec.block == "StatGrid"
    then has_ticker sec.args && has_stats sec.args
    else false

and_true : (b : Bool) → b && true ≡ b
and_true b = ground arith

and_not : (p q : Bool) → p && not q ≡ not (not p || q)
and_not p q = ground arith

both_not : (p q r : Bool) → (if not p then false else if q then false else r) ≡ (p && not q && r)
both_not p q r = ground arith

is_ok-if :
    {A : Type 0} (b : Bool) (x y : Lowered A) (p q : Bool)
    → is_ok x ≡ p
    → is_ok y ≡ q
    → is_ok (if b then x else y) ≡ (if b then p else q)
is_ok-if true x y p q h k = h
is_ok-if false x y p q h k = k

module _ (dbg : String → String) where
  check_symbols_lem :
      (i : ℕ) (ts : List String) → is_ok (check_symbols dbg i ts) ≡ not (any is_no_symbol ts)
  unfolding check_symbols any
  check_symbols_lem i [] = refl
  check_symbols_lem i (t ∷ ts) = ground (arith, check_symbols_lem i ts)

  validate_ticker_lem :
      (a : Args) (i : ℕ) (block : String)
      → is_ok (validate_ticker dbg a.ticker i block) ≡ has_ticker a
  unfolding validate_ticker
  validate_ticker_lem a i block = ground arith

  and_then_lem :
      {A B : Type 0} (x : Lowered A) (f : A → Lowered B) (b : Bool)
      → ((v : A) → is_ok (f v) ≡ b)
      → is_ok (and_then x f) ≡ is_ok x && b
  and_then_lem (ok v) f b h = h v
  and_then_lem (err e) f b h = refl

  cells_lem :
      (t : String) (zh : Bool) (i : ℕ) (ks : List String)
      → is_ok (cells dbg t zh i ks) ≡ not (any (λ k. not (is_known k)) ks)
  unfolding cells any
  cells_lem t zh i [] = refl
  cells_lem t zh i (k ∷ ks) = elim (Option-cases (stat_spec k)) [
    | inl h ↦ rw (h, cells) refl
    | inr (spec, h) ↦
        rw (h, cells)
          (and_then_lem (cells dbg t zh i ks) _ true (λ cs. refl)
            ∙ ground (arith, cells_lem t zh i ks))
  ]

  price_chart_lem : (a : Args) (i : ℕ) → is_ok (price_chart dbg a i) ≡ has_range a
  unfolding price_chart any
  price_chart_lem a i = elim (Bool-cases (a.range == "")) [
    | inl h ↦ rw (h, price_chart) refl
    | inr h ↦ rw (h, price_chart) (ground arith)
  ]

  stat_grid_lem : (a : Args) (zh : Bool) (i : ℕ) → is_ok (stat_grid dbg a zh i) ≡ has_stats a
  unfolding stat_grid
  stat_grid_lem a zh i = elim (Bool-cases (eqb (length a.stats) 0)) [
    | inl h ↦ rw (h, stat_grid) refl
    | inr h ↦
        rw (h, stat_grid)
          (and_then_lem (cells dbg a.ticker zh i a.stats) _ true (λ cs. refl)
            ∙ ground (arith, cells_lem a.ticker zh i a.stats))
  ]

  lower_section_lem :
      (zh : Bool) (i : ℕ) (sec : Section) → is_ok (lower_section dbg zh i sec) ≡ is_permitted sec
  unfolding lower_section
  lower_section_lem zh i sec =
      is_ok-if (sec.block == "MoversList") _ _ _ _
        (and_then_lem (check_symbols dbg i sec.args.symbols) _ true (λ v. refl)
          ∙ and_true _
          ∙ check_symbols_lem i sec.args.symbols)
        (is_ok-if (sec.block == "QuoteHeader") _ _ _ _
          (and_then_lem (validate_ticker dbg sec.args.ticker i "QuoteHeader") _ true (λ v. refl)
            ∙ and_true _
            ∙ validate_ticker_lem sec.args i "QuoteHeader")
          (is_ok-if (sec.block == "PriceChart") _ _ _ _
            (and_then_lem (validate_ticker dbg sec.args.ticker i "PriceChart") _
                (has_range sec.args) (λ v. price_chart_lem sec.args i)
              ∙ ap (λ b. b && has_range sec.args) (validate_ticker_lem sec.args i "PriceChart"))
            (is_ok-if (sec.block == "StatGrid") _ _ _ _
              (and_then_lem (validate_ticker dbg sec.args.ticker i "StatGrid") _
                  (has_stats sec.args) (λ v. stat_grid_lem sec.args zh i)
                ∙ ap (λ b. b && has_stats sec.args) (validate_ticker_lem sec.args i "StatGrid"))
              refl)))

  lower_sections_lem :
      (zh : Bool) (i : ℕ) (secs : List Section) (body : String)
      → is_ok (lower_sections dbg zh i secs body) ≡ not (any (λ s. not (is_permitted s)) secs)
  unfolding lower_sections any
  lower_sections_lem zh i [] body = refl
  lower_sections_lem zh i (sec ∷ secs) body =
      and_then_lem (lower_section dbg zh i sec) _ (not (any (λ s. not (is_permitted s)) secs))
        (λ s. lower_sections_lem zh (i + 1) secs (concat (body ∷ s ∷ "\n" ∷ [])))
      ∙ ap (λ b. b && not (any (λ s. not (is_permitted s)) secs)) (lower_section_lem zh i sec)
      ∙ and_not (is_permitted sec) (any (λ s. not (is_permitted s)) secs)

  lower_lem :
      (p : Plan)
      → is_ok (lower dbg (ok p)) ≡ (
          (p.plan == "stock")
          && not (eqb (length p.sections) 0)
          && not (any (λ s. not (is_permitted s)) p.sections))
  unfolding lower
  lower_lem p =
      let fine = not (any (λ s. not (is_permitted s)) p.sections) in
      is_ok-if (not (p.plan == "stock")) _ _ false _ refl (
        is_ok-if (eqb (length p.sections) 0) _ _ false fine refl (
          and_then_lem (lower_sections dbg (starts_with_zh p.locale) 0 p.sections "") _ true
            (λ v. refl)
          ∙ and_true _
          ∙ lower_sections_lem (starts_with_zh p.locale) 0 p.sections ""))
      ∙ both_not (p.plan == "stock") (eqb (length p.sections) 0) fine

-- A card is made of a plan exactly if it is one for stocks, has a section, and every section is a
-- block with the arguments that it needs.
pub lower_accepts :
    (dbg : String → String) (p : Plan)
    → (is_ok (lower dbg (ok p)) ≡ true)
      ↔ (p.plan ≡ "stock")
        × (¬ (length p.sections ≡ 0))
        × (any (λ s. not (is_permitted s)) p.sections ≡ false)
lower_accepts dbg p = ground (arith, lower_lem dbg p, string_eq.same_iff p.plan "stock")
