-- ===== src/Store/Files.antt =====
-- app/crates/octos-app-store/src/files.rs: file metadata and the choice of a viewer.
use octos_one.Prelude.{ℕ, String, List, if◌then◌else◌, ◌||◌}
use octos_one.Prelude.Text.{codes, starts_with, ends_with, to_ascii_lowercase, same_codes}

abbrev pub FileHandle : Type 0
FileHandle = String

pub data FileKind : Type 0 where
  image audio video markdown pdf other : FileKind

-- `from_mime` on texts taken as code points.
unfoldable pub kind_of_codes : List ℕ → List ℕ → FileKind
unfolding codes starts_with ends_with to_ascii_lowercase same_codes
kind_of_codes content_type name =
    let ct = to_ascii_lowercase content_type in
    if starts_with ct (codes "image/")
    then image
    else if starts_with ct (codes "audio/")
    then audio
    else if starts_with ct (codes "video/")
    then video
    else if same_codes ct (codes "application/pdf")
    then pdf
    else if same_codes ct (codes "text/markdown")
        || ends_with (to_ascii_lowercase name) (codes ".md")
    then markdown
    else other

unfoldable pub from_mime : String → String → FileKind
unfolding kind_of_codes
from_mime content_type name = kind_of_codes (codes content_type) (codes name)

pub record FileMeta : Type 0 where
  pub handle : FileHandle
  pub content_type : String
  pub size_bytes : ℕ
  pub name : String
  pub kind : FileKind

unfoldable pub new_meta : FileHandle → String → ℕ → String → FileMeta
new_meta handle content_type size_bytes name = record {
  handle = handle;
  content_type = content_type;
  size_bytes = size_bytes;
  name = name;
  kind = from_mime content_type name;
}
