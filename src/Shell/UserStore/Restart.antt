-- ===== src/Shell/UserStore/Restart.antt =====
-- What the user store reads back from its file (app/app/src/app/user_store.rs).
use octos_one.Prelude.{
  Bool, is_some, if◌then◌else◌, ◌&&◌, ◌≡◌, refl, sym, ap, ◌∙◌, ◌⊎◌, String, string_eq, none, some,
  List, [], ◌∷◌, true, false, arith, Bool-cases, Option-cases, inl, inr,
}
use octos_one.Prelude.Chars.{Chars}
use octos_one.Prelude.Map.{get as lookup}
use octos_one.Shell.UserStore.{
  UserStore, version, Home, Saving, SerdeJson, change, append, remove_value, set_pref, clear, load,
  get, save, apply,
}

pub record Write : Type 0 where
  pub name : String
  pub op : String
  pub value : String

abbrev pub all_well : Saving
all_well = record { has_path = true; wrote = true; renamed = true }

version-change :
    (name op value : String) (s : UserStore) → (change name op value s).0.version ≡ s.version
unfolding change append remove_value set_pref clear
version-change name op value s = ground (arith, Option-cases (lookup name s.collections))

module _ (serde : SerdeJson) where
  open serde use {to_string_pretty, from_str}

  -- The process ends and a new one starts.
  abbrev pub restart : Home → Home
  restart h = record h { slot = none }

  unfoldable pub writes : List Write → Home → Home
  writes [] h = h
  writes (w ∷ ws) h = writes ws (apply serde all_well w.name w.op w.value h).0

  -- The file has the store that is in memory, and it is of this version.
  abbrev pub IsKept : Home → Type 0
  IsKept h = (load serde h.file ≡ (get serde h).1) × ((get serde h).1.version ≡ version)

  get_of_slot : (h : Home) (s : UserStore) → h.slot ≡ some s → (get serde h).1 ≡ s
  unfolding get
  get_of_slot h s e = rw (e, get) refl

  slot-get : (h : Home) → (get serde h).0.slot ≡ some (get serde h).1
  unfolding get
  slot-get h = elim (Option-cases h.slot) [
    | inl empty ↦ rw (empty, get) refl
    | inr (s, full) ↦ rw (full, get) full
  ]

  file-get : (h : Home) → (get serde h).0.file ≡ h.file
  unfolding get
  file-get h = elim (Option-cases h.slot) [
    | inl empty ↦ rw (empty, get) refl
    | inr (s, full) ↦ rw (full, get) refl
  ]

  slot-save :
      (how : Saving) (s : UserStore) (h : Home)
      → h.slot ≡ some s
      → (save serde how s h).slot ≡ some s
  unfolding save
  slot-save how s h e = ground (arith, e, Option-cases (to_string_pretty s))

  -- Whether the store that a write leaves, if it changes anything, has a text.
  abbrev pub written : Write → Home → Bool
  written w h =
      let (s, changed) = change w.name w.op w.value (get serde h).1 in
      if changed then is_some (to_string_pretty s) else true

  unfoldable pub all_written : List Write → Home → Bool
  unfolding get change
  all_written [] h = true
  all_written (w ∷ ws) h =
      written w h && all_written ws (apply serde all_well w.name w.op w.value h).0

  module _
      (back : (s : UserStore) (raw : Chars)
        → to_string_pretty s ≡ some raw
        → from_str raw ≡ some s) where
    load-save :
        (s : UserStore) (h : Home)
        → s.version ≡ version
        → is_some (to_string_pretty s) ≡ true
        → load serde (save serde all_well s h).file ≡ s
    unfolding load save
    load-save s h v t = elim (Option-cases (to_string_pretty s)) [
      | inl no_text ↦ absurd (ground (arith, t, no_text))
      | inr (raw, e) ↦ rw (e, save) (rw (back s raw e) (ground (arith, v)))
    ]

    apply-IsKept :
        (w : Write) (h : Home)
        → IsKept h
        → ((change w.name w.op w.value (get serde h).1).1 ≡ true
            → is_some (to_string_pretty (change w.name w.op w.value (get serde h).1).0) ≡ true)
        → IsKept (apply serde all_well w.name w.op w.value h).0
    unfolding apply
    apply-IsKept w h k t =
        let s = (get serde h).1 in
        let h' = (get serde h).0 in
        let s' = (change w.name w.op w.value s).0 in
        let v : s'.version ≡ version = version-change w.name w.op w.value s ∙ k.1 in
        elim (Bool-cases (change w.name w.op w.value s).1) [
          | inl changed ↦
              let new : Home = record h' { slot = some s' } in
              let here : (get serde (save serde all_well s' new)).1 ≡ s' =
                get_of_slot _ s' (slot-save all_well s' new refl) in
              rw changed (load-save s' new v (t changed) ∙ sym here, ap (λ t. t.version) here ∙ v)
          | inr unchanged ↦
              let here : (get serde h').1 ≡ s = get_of_slot h' s (slot-get h) in
              rw unchanged
                (ap (load serde) (file-get h) ∙ k.0 ∙ sym here, ap (λ t. t.version) here ∙ k.1)
        ]

    writes-IsKept :
        (ws : List Write) (h : Home) → IsKept h → all_written ws h ≡ true → IsKept (writes ws h)
    unfolding writes all_written
    writes-IsKept [] h k t = k
    writes-IsKept (w ∷ ws) h k t =
        let kept = apply-IsKept w h k (λ changed. ground (arith, t, changed)) in
        writes-IsKept ws (apply serde all_well w.name w.op w.value h).0 kept (ground (arith, t))

    -- If serde_json reads back every store that it writes, it does write those that the writes leave,
    -- the store in memory is of this version and the one that the file holds, and every save succeeds,
    -- then a new process has the store that the writes left in memory.
    pub get-restart :
        (ws : List Write) (h : Home)
        → IsKept h
        → all_written ws h ≡ true
        → (get serde (restart (writes ws h))).1 ≡ (get serde (writes ws h)).1
    unfolding get
    get-restart ws h k t = (writes-IsKept ws h k t).0

-- A save that fails, at whatever point, leaves the file of before.
file-save_failed :
    (serde : SerdeJson) (how : Saving) (s : UserStore) (h : Home)
    → (how.has_path ≡ false) ⊎ (how.wrote ≡ false) ⊎ (how.renamed ≡ false)
    → (save serde how s h).file ≡ h.file
unfolding save
file-save_failed serde how s h f = ground (arith, Option-cases (serde.to_string_pretty s))
