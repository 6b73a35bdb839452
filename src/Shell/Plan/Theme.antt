-- ===== src/Shell/Plan/Theme.antt =====
-- The tokens of app/app/src/app/plan/common.rs that stock cards use.
use octos_one.Prelude.{ℕ, String}

abbrev pub dark_base : String
dark_base = "#0b0b0d"

abbrev pub dark_panel : String
dark_panel = "#141821"

abbrev pub photo_tile : String
photo_tile = "#ffffff1f"

abbrev pub hairline : String
hairline = "#ffffff1a"

abbrev pub text : String
text = "#ffffff"

abbrev pub text_soft : String
text_soft = "#ffffffe6"

abbrev pub text_dim : String
text_dim = "#ffffffb3"

abbrev pub text_faint : String
text_faint = "#ffffff99"

abbrev pub text_muted : String
text_muted = "#ffffff77"

abbrev pub up : String
up = "#32d74b"

abbrev pub page_pad : String
page_pad = "Inset{left: 20 top: 54 right: 20 bottom: 24}"

abbrev pub panel_radius : String
panel_radius = "20.0"

abbrev pub card_radius : String
card_radius = "14.0"

abbrev pub gap : ℕ
gap = 16
