-- ===== src/Shell/Plan.antt =====
-- app/app/src/app/plan/common.rs: what the cards that are made from plans share.
pub mod Theme
pub mod Stock
use octos_one.Prelude.{[], ℕ, String, Bool, true, false, if◌then◌else◌, List, ◌∷◌, is_some}
use octos_one.Prelude.Chars.{strip_prefix}
use octos_one.Prelude.Text.{concat, codes}
use octos_one.Shell.Plan.Theme

-- `Result<A, String>`.
pub data Lowered (A : Type 0) : Type 0 where
  ok : A → Lowered A
  err : String → Lowered A

abbrev pub is_ok : {A : Type 0} → Lowered A → Bool
is_ok (ok x) = true
is_ok (err e) = false

-- `?` before the rest of a function.
abbrev pub and_then : {A B : Type 0} → Lowered A → (A → Lowered B) → Lowered B
and_then (ok x) f = f x
and_then (err e) f = err e

unfoldable pub dark_root : String → String → String
unfolding concat
dark_root name body = concat (
    "// name: " ∷ name
    ∷ "\n// LOWERED from a semantic plan — do not edit.\nSolidView{ width: Fill height: Fit flow: Down new_batch: true draw_bg.color: "
    ∷ Theme.dark_base ∷ " padding: " ∷ Theme.page_pad ∷ "\n" ∷ body ∷ "}\n" ∷ [])

-- `text`: a role, an expression, a colour and what else the node has.
unfoldable pub text_node : String → String → String → String → String
unfolding concat
text_node role expr color extra =
    concat (role ∷ "{ " ∷ extra ∷ "text: " ∷ expr ∷ " draw_text.color: " ∷ color ∷ " }" ∷ [])

abbrev pub starts_with_zh : String → Bool
starts_with_zh s = is_some (strip_prefix (codes s) (codes "zh"))
