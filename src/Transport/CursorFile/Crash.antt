-- ===== src/Transport/CursorFile/Crash.antt =====
-- A write of the cursor file is atomic, at every point where it may be cut short
-- (app/crates/octos-app-transport/src/cursor/mod.rs).
use octos_one.Prelude.{
  ◌≡◌, refl, ◌⊎◌, sym, inl, inr, Bool, true, false, Option, none, some, List, [], ◌∷◌, arith,
  if◌then◌else◌,
}
use mathlib.Core.Path.{subst}
use octos_one.Prelude.Map.{Map}
use octos_one.Store.Ids.{SessionKey, UiCursor}
use octos_one.Prelude.Chars.{Chars}
use octos_one.Transport.CursorFile.{SerdeJson, chars, unreadable, Node}
use octos_one.Transport.CursorFile.Write.{
  Disk, Writing, Outcomes, carry_out, write_steps, file_text, write_map,
}

-- The node that holds a text whose contents are on disk.
abbrev pub node_of : Chars → Node
node_of t = record { content = chars t; synced = true }

-- No rename is under way.
abbrev pub IsSettled : Disk → Type 0
IsSettled d = d.former ≡ none

-- What a power loss leaves of a file: contents that have not reached the disk are lost.
abbrev pub survive : Option Node → Option Node
survive none = none
survive (some node) =
    some (record { content = if node.synced then node.content else unreadable; synced = true })

-- The target after a power loss, which may bring back the one before a rename that is not durable.
abbrev pub former_or : Bool → Option (Option Node) → Option Node → Option Node
former_or true (some old) now = old
former_or true none now = now
former_or false f now = now

abbrev pub after_power_loss : Bool → Disk → Option Node
after_power_loss reverts d = survive (former_or reverts d.former d.target)

-- The target is the old one or the complete new one, and so is what a power loss may bring back.
abbrev IsWhole : Option Node → Chars → Disk → Type 0
IsWhole old t d =
    ((d.target ≡ old) × (d.former ≡ none))
    ⊎ ((d.target ≡ some (node_of t)) × ((d.former ≡ some old) ⊎ (d.former ≡ none)))

abbrev pub All : (Disk → Type 0) → List Disk → Type 0
All P [] = Unit {0}
All P (d ∷ ds) = P d × All P ds

carry_out-IsWhole :
    (a b c e f g : Bool) (t : Chars) (d : Disk)
    → IsSettled d
    → All
        (IsWhole d.target t)
        (carry_out
          (write_steps
            (record {
              dir_made = a;
              created = b;
              written = c;
              synced_ok = e;
              renamed = f;
              dir_synced = g;
            })
            t)
          d).passed
unfolding carry_out
carry_out-IsWhole false b c e f g t d s = ground arith
carry_out-IsWhole true false c e f g t d s = ground arith
carry_out-IsWhole true true false e f g t d s = ground arith
carry_out-IsWhole true true true false f g t d s = ground arith
carry_out-IsWhole true true true true false g t d s = ground arith
carry_out-IsWhole true true true true true false t d s = ground arith
carry_out-IsWhole true true true true true true t d s = ground arith

whole_target :
    (old : Option Node) (t : Chars) (d : Disk) (reverts : Bool)
    → survive old ≡ old
    → IsWhole old t d
    → (after_power_loss reverts d ≡ old) ⊎ (after_power_loss reverts d ≡ some (node_of t))
whole_target old t d true stable (inl (e, f)) = inl (rw (f, e) stable)
whole_target old t d false stable (inl (e, f)) = inl (rw e stable)
whole_target old t d true stable (inr (e, inl f)) = inl (rw f stable)
whole_target old t d true stable (inr (e, inr f)) = inr (rw (f, e))
whole_target old t d false stable (inr (e, f)) = inr (rw e)

All-map : {P Q : Disk → Type 0} (ds : List Disk) → ((d : Disk) → P d → Q d) → All P ds → All Q ds
All-map [] f h = tt
All-map (d ∷ ds) f h = (f d h.0, All-map ds f h.1)

write_map_steps :
    (serde : SerdeJson) (o : Outcomes) (map : Map SessionKey UiCursor) (d : Disk) (t : Chars)
    → file_text serde map ≡ some t
    → write_map serde o map d ≡ carry_out (write_steps o t) d
unfolding write_map
write_map_steps serde o map d t e = rw (e, write_map) refl

-- Wherever a write is cut short by a power loss, whichever of its steps failed, the file that is
-- found afterwards is the old one or the complete new one, provided that the old one was on disk
-- and no earlier rename could still be undone.
pub write_map_atomic :
    (serde : SerdeJson) (o : Outcomes) (map : Map SessionKey UiCursor) (d : Disk) (t : Chars)
    → IsSettled d
    → survive d.target ≡ d.target
    → file_text serde map ≡ some t
    → All
        (λ d'.
          (reverts : Bool)
          → (after_power_loss reverts d' ≡ d.target)
            ⊎ (after_power_loss reverts d' ≡ some (node_of t)))
        (write_map serde o map d).passed
write_map_atomic serde o map d t settled stable e =
    subst
      (λ (w : Writing).
        All
          (λ x.
            (reverts : Bool)
            → (after_power_loss reverts x ≡ d.target)
              ⊎ (after_power_loss reverts x ≡ some (node_of t)))
          w.passed)
      (sym (write_map_steps serde o map d t e))
      (All-map _ (λ d' w reverts. whole_target d.target t d' reverts stable w)
        (carry_out-IsWhole o.dir_made o.created o.written o.synced_ok o.renamed o.dir_synced t d
          settled))

-- Of a map that can be serialized, a write that succeeds leaves the complete new file and no temporary one; a write that fails leaves
-- the old file as it was, and no temporary one if it got as far as creating it.
pub write_map_outcome :
    (serde : SerdeJson) (o : Outcomes) (map : Map SessionKey UiCursor) (d : Disk) (t : Chars)
    → file_text serde map ≡ some t
    → let w = write_map serde o map d in
      (w.succeeded ≡ true → (w.final.target ≡ some (node_of t)) × (w.final.tmp ≡ none))
      × (w.succeeded ≡ false
          → (w.final.target ≡ d.target) × (o.dir_made ≡ true → w.final.tmp ≡ none))
unfolding carry_out
write_map_outcome serde o map d t e =
    rw (write_map_steps serde o map d t e) (ground arith, ground arith)
