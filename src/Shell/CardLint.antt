-- ===== src/Shell/CardLint.antt =====
-- app/app/src/app/card_lint.rs: the checks on a generated card, and the prompt to repair it.
-- serde_json is a parameter: the parser of a rule file, and the reading of its `min`.
pub mod Verdicts
use octos_one.Prelude.{
  [], ℕ, zero, suc, ◌+◌, ◌-◌, String, Option, none, some, List, ◌∷◌, ◌++◌, if◌then◌else◌, Bool,
  true, false, ltb, length, is_some, unwrap_or, or_else,
}
use octos_one.Prelude.Chars.{Chars, strip_prefix}
use octos_one.Prelude.Text.{codes, show}
use octos_one.Transport.Json.{Json, get_key, as_str, as_array}

pub record LintRule : Type 0 where
  pub desc : Chars
  pub pattern : Chars
  pub min : ℕ

-- The places where a nonempty pattern stands, none inside the one before; so many characters of the
-- last one are still to be passed over.
unfoldable pub places : Chars → ℕ → Chars → ℕ
unfolding strip_prefix
places p over [] = 0
places p (suc over) (c ∷ s) = places p over s
places p zero (c ∷ s) =
    let here = places p (length p - 1) s in
    let later = places p zero s in if is_some (strip_prefix (c ∷ s) p) then suc here else later

-- `matches(p).count()`: an empty pattern stands before every character, and at the end.
unfoldable pub matches : Chars → Chars → ℕ
unfolding places
matches body [] = length body + 1
matches body (c ∷ p) = places (c ∷ p) zero body

unfoldable pub violation : LintRule → ℕ → Chars
unfolding codes show
violation r n =
    r.desc
    ++ (codes " (found "
        ++ (codes (show n)
            ++ (codes " of the required "
                ++ (codes (show r.min) ++ (codes " `" ++ (r.pattern ++ codes "`)"))))))

unfoldable pub lint : Chars → List LintRule → List Chars
unfolding matches violation
lint body [] = []
lint body (r ∷ rules) =
    let n = matches body r.pattern in
    let rest = lint body rules in if ltb n r.min then violation r n ∷ rest else rest

-- What the code takes from serde_json: the value of a file's bytes, and a number that is finite and
-- not negative as a `usize`.
pub record SerdeJson : Type 0 where
  pub from_slice : List ℕ → Option Json
  pub as_count : Json → Option ℕ

module _ (serde : SerdeJson) where
  open serde use {from_slice, as_count}

  abbrev pub text_at : String → Json → Option Chars
  text_at k r = elim (get_key k r) [
    | none ↦ none
    | some v ↦ elim (as_str v) [ none ↦ none | some s ↦ some (codes s) ]
  ]

  abbrev min_of : Json → ℕ
  min_of r = elim (get_key "min" r) [ none ↦ 1 | some m ↦ unwrap_or (as_count m) 1 ]

  unfoldable pub parse_rule : Json → Option LintRule
  unfolding get_key codes
  parse_rule r = elim (text_at "desc" r) [
    | none ↦ none
    | some desc ↦ elim (text_at "pattern" r) [
      | none ↦ none
      | some pattern ↦ some (record { desc = desc; pattern = pattern; min = min_of r })
    ]
  ]

  abbrev pub push_rule : LintRule → Option (List LintRule) → Option (List LintRule)
  push_rule r none = none
  push_rule r (some rules) = some (r ∷ rules)

  unfoldable pub parse_all : List Json → Option (List LintRule)
  unfolding parse_rule
  parse_all [] = some []
  parse_all (j ∷ js) = elim (parse_rule j) [ none ↦ none | some r ↦ push_rule r (parse_all js) ]

  abbrev pub some_rules : Option (List LintRule) → Option (List LintRule)
  some_rules none = none
  some_rules (some []) = none
  some_rules (some (r ∷ rules)) = some (r ∷ rules)

  unfoldable pub parse_rules : List ℕ → Option (List LintRule)
  unfolding get_key parse_all
  parse_rules bytes = elim (from_slice bytes) [
    | none ↦ none
    | some root ↦ elim (get_key "rules" root) [
      | none ↦ none
      | some arr ↦ elim (as_array arr) [ none ↦ none | some js ↦ some_rules (parse_all js) ]
    ]
  ]

  abbrev pub rules_of : Option (List ℕ) → Option (List LintRule)
  rules_of none = none
  rules_of (some bytes) = parse_rules bytes

  -- `load_rules`, on the bytes of the candidate files that can be read, and of the baked copy.
  unfoldable pub load_rules : List (Option (List ℕ)) → Option (List ℕ) → Option (List LintRule)
  unfolding parse_rules
  load_rules [] baked = rules_of baked
  load_rules (file ∷ files) baked = or_else (rules_of file) (load_rules files baked)

unfoldable pub listed : List Chars → Chars
listed [] = []
listed (v ∷ vs) = b'-' ∷ 32 ∷ (v ++ (10 ∷ listed vs))

unfoldable pub repair_prompt : List Chars → Chars
unfolding listed codes
repair_prompt violations =
    codes
      "REPAIR PASS — the card you just emitted FAILED validation against the app spec. Violations:\n"
    ++ (listed violations
        ++ codes
            "\nRe-emit the ENTIRE corrected card now: one ```runsplash block with the same `// name:` line and the same structure otherwise. Fix ONLY the violations; change nothing else.")
