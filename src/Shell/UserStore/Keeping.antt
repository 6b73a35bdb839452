-- ===== src/Shell/UserStore/Keeping.antt =====
-- What the user store keeps, and over restarts too (app/app/src/app/user_store.rs).
use octos_one.Prelude.{
  ◌≤◌, ◌≡◌, refl, sym, ap, ◌∙◌, String, string_eq, ◌==◌, Option, none, some, List, [], ◌∷◌, ◌++◌,
  if◌then◌else◌, Bool, true, false, not, eqb, arith, is_some, any, retain, length, opt_eq, count,
  count-append, count-retain, Bool-cases, Option-cases, inl, inr, ◌↔◌, ==_refl, length-append,
}
use octos_one.Prelude.Map.{get as lookup, get-remove}
use octos_one.Prelude.BTree.{get-insert_sorted}
use octos_one.Shell.UserStore.{
  UserStore, contains, append, remove_value, set_pref, clear, change, collection,
}

count-contains : (v : String) (l : List String) → contains l v ≡ false → count v l ≡ 0
unfolding any count
count-contains v [] h = refl
count-contains v (x ∷ l) h =
    ground (arith, count-contains v l, string_eq.same_iff x v, string_eq.same_iff v x)

-- What an operation makes of the named collection.
abbrev pub edited : String → String → List String → List String
edited op value list =
    if op == "append"
    then if contains list value then list else list ++ value ∷ []
    else if op == "remove"
    then retain (λ v. not (v == value)) list
    else list

-- What an operation makes of the named preference.
abbrev pub preferred : String → String → Option String → Option String
preferred op value pref =
    if op == "append"
    then pref
    else if op == "remove"
    then pref
    else if op == "set"
    then some value
    else if op == "clear"
    then none
    else pref

collection-append :
    (other name value : String) (s : UserStore)
    → collection other (append name value s).0 ≡ (
        if name == other
        then (if contains (collection name s) value
            then collection name s
            else collection name s ++ value ∷ [])
        else collection other s)
unfolding append
collection-append other name value s = elim (Bool-cases (contains (collection name s) value)) [
  | inl old ↦ ground (arith, old, string_eq.same_iff name other)
  | inr new ↦
      let list = collection name s ++ value ∷ [] in
      rw new (unfold collection in ground (arith, get-insert_sorted name other list s.collections))
]

collection-remove_value :
    (other name value : String) (s : UserStore)
    → collection other (remove_value name value s).0 ≡ (
        if name == other
        then retain (λ v. not (v == value)) (collection name s)
        else collection other s)
unfolding collection remove_value
collection-remove_value other name value s = elim (Option-cases (lookup name s.collections)) [
  | inl missing ↦ unfold retain in ground (arith, missing, string_eq.same_iff name other)
  | inr (list, found) ↦
      let kept = retain (λ v. not (v == value)) list in
      rw (found, remove_value) (ground (arith, get-insert_sorted name other kept s.collections))
]

-- An operation edits the collection that it names, in place and in the user's order, and no other.
pub collection-change :
    (other name op value : String) (s : UserStore)
    → collection other (change name op value s).0
      ≡ (if name == other then edited op value (collection name s) else collection other s)
unfolding change
collection-change other name op value s = elim (Bool-cases (op == "append")) [
  | inl a ↦ rw a (collection-append other name value s)
  | inr not_append ↦ elim (Bool-cases (op == "remove")) [
    | inl r ↦ rw (not_append, r) (collection-remove_value other name value s)
    | inr not_remove ↦
        rw (not_append, not_remove)
          (elim (Bool-cases (op == "set")) [
            | inl e ↦
                rw e (unfold set_pref collection in ground (arith, string_eq.same_iff name other))
            | inr not_set ↦
                rw not_set
                  (unfold clear collection in ground (arith, string_eq.same_iff name other))
          ])
  ]
]

-- No collection lists a reference twice.
abbrev pub IsUnique : UserStore → Type 0
IsUnique s = (name v : String) → count v (collection name s) ≤ 1

count_one : (v w : String) → count w (v ∷ []) ≡ (if v == w then 1 else 0)
unfolding count
count_one v w = omega arith

edited-count :
    (op value v : String) (list : List String)
    → count v list ≤ 1
    → count v (edited op value list) ≤ 1
edited-count op value v list h = elim (Bool-cases (op == "append")) [
  | inl a ↦ rw a (elim (Bool-cases (contains list value)) [
    | inl old ↦ rw old h
    | inr new ↦ rw new (
        ground (
          arith,
          count-append v list (value ∷ []),
          count-contains value list new,
          string_eq.same_iff value v,
          count_one value v,
        ))
  ])
  | inr not_append ↦ elim (Bool-cases (op == "remove")) [
    | inl r ↦ rw (not_append, r) (ground (arith, count-retain value v list))
    | inr not_remove ↦ rw (not_append, not_remove) h
  ]
]

-- Whatever the operation, a store in which no collection lists a reference twice stays so.
pub change-IsUnique :
    (name op value : String) (s : UserStore) → IsUnique s → IsUnique (change name op value s).0
change-IsUnique name op value s h other v =
    rw (collection-change other name op value s) (elim (Bool-cases (name == other)) [
      | inl same ↦ rw same (edited-count op value v (collection name s) (h name v))
      | inr another ↦ rw another (h other v)
    ])

-- Two stores that a user cannot tell apart.
abbrev pub IsSame : UserStore → UserStore → Type 0
IsSame s t =
    (name : String)
    → (collection name s ≡ collection name t) × (lookup name s.prefs ≡ lookup name t.prefs)

pref-change :
    (other name op value : String) (s : UserStore)
    → lookup other (change name op value s).0.prefs
      ≡ (if name == other then preferred op value (lookup name s.prefs) else lookup other s.prefs)
unfolding change
pref-change other name op value s = elim (Bool-cases (op == "append")) [
  | inl a ↦ rw a (unfold append in ground (arith, string_eq.same_iff name other))
  | inr not_append ↦ elim (Bool-cases (op == "remove")) [
    | inl r ↦
        rw (not_append, r)
          (unfold remove_value in
            ground (arith, string_eq.same_iff name other, Option-cases (lookup name s.collections)))
    | inr not_remove ↦
        rw (not_append, not_remove)
          (elim (Bool-cases (op == "set")) [
            | inl e ↦ rw e (unfold set_pref in get-insert_sorted name other value s.prefs)
            | inr not_set ↦ rw not_set (elim (Bool-cases (op == "clear")) [
              | inl c ↦ rw c (unfold clear in get-remove name other s.prefs)
              | inr not_clear ↦ rw not_clear (ground (arith, string_eq.same_iff name other))
            ])
          ])
  ]
]

length-retain :
    (p : String → Bool) (l : List String)
    → (length (retain p l) ≤ length l) × (length (retain p l) ≡ length l → retain p l ≡ l)
unfolding retain
length-retain p [] = (omega arith, λ e. refl)
length-retain p (x ∷ l) = elim (Bool-cases (p x)) [
  | inl keep ↦ rw keep (ground (arith, length-retain p l))
  | inr drop ↦ rw drop (ground (arith, length-retain p l))
]

-- Whether an operation has an effect on the named collection or preference.
differs : String → String → List String → Option String → Bool
differs op value list pref =
    if op == "append"
    then not (contains list value)
    else if op == "remove"
    then not (eqb (length (retain (λ v. not (v == value)) list)) (length list))
    else if op == "set"
    then not (opt_eq pref (some value))
    else if op == "clear"
    then is_some pref
    else false

change-differs :
    (name op value : String) (s : UserStore)
    → (change name op value s).1 ≡ differs op value (collection name s) (lookup name s.prefs)
unfolding change differs
change-differs name op value s = elim (Bool-cases (op == "append")) [
  | inl a ↦ rw a (unfold append in ground arith)
  | inr not_append ↦ elim (Bool-cases (op == "remove")) [
    | inl r ↦
        rw (not_append, r)
          (elim (Option-cases (lookup name s.collections)) [
            | inl missing ↦
                unfold remove_value collection retain in rw (missing, remove_value, collection) refl
            | inr (list, found) ↦
                unfold remove_value collection in rw (found, remove_value, collection) refl
          ])
    | inr not_remove ↦
        rw (not_append, not_remove)
          (elim (Bool-cases (op == "set")) [
            | inl e ↦ rw e (unfold set_pref in refl)
            | inr not_set ↦ rw not_set (elim (Bool-cases (op == "clear")) [
              | inl c ↦ rw c (unfold clear in refl)
              | inr not_clear ↦ rw not_clear refl
            ])
          ])
  ]
]

opt_eq-some : (o : Option String) (v : String) → (opt_eq o (some v) ≡ true) ↔ (o ≡ some v)
opt_eq-some none v = ground arith
opt_eq-some (some w) v = ground (arith, string_eq.same_iff w v)

longer : (list : List String) (v : String) → list ++ v ∷ [] ≡ list → ⊥
longer list v e =
    let both : length (list ++ v ∷ []) ≡ length list = ap (λ l. length l) e in
    omega (arith, both, length-append list (v ∷ []))

differs_iff :
    (op value : String) (list : List String) (pref : Option String)
    → (differs op value list pref ≡ false)
      ↔ ((edited op value list ≡ list) × (preferred op value pref ≡ pref))
unfolding differs
differs_iff op value list pref = elim (Bool-cases (op == "append")) [
  | inl a ↦ rw a (elim (Bool-cases (contains list value)) [
    | inl old ↦ rw old (λ h. (refl, refl), λ h. refl)
    | inr new ↦ rw new (λ h. absurd (ground arith), λ h. absurd (longer list value h.0))
  ])
  | inr not_append ↦ elim (Bool-cases (op == "remove")) [
    | inl r ↦
        let kept = retain (λ v. not (v == value)) list in
        let shorter = length-retain (λ v. not (v == value)) list in
        rw (not_append, r)
          (
            λ h. (shorter.1 (ground arith), refl),
            λ h. let same : length kept ≡ length list = ap (λ l. length l) h.0 in ground arith,
          )
    | inr not_remove ↦
        rw (not_append, not_remove)
          (elim (Bool-cases (op == "set")) [
            | inl e ↦ rw e (
              λ h. (refl, sym ((opt_eq-some pref value).0 (ground arith))),
              λ h. ground (arith, (opt_eq-some pref value).1 (sym h.1)),
            )
            | inr not_set ↦ rw not_set (elim (Bool-cases (op == "clear")) [
              | inl c ↦ rw c (
                λ h. (refl, ground (arith, Option-cases pref)),
                λ h. ground (arith, h.1, Option-cases pref),
              )
              | inr not_clear ↦ rw not_clear (λ h. (refl, refl), λ h. refl)
            ])
          ])
  ]
]

-- An operation reports a change exactly if it makes one that a user can see, in the named collection
-- or preference.
pub change_changed :
    (name op value : String) (s : UserStore)
    → ((change name op value s).1 ≡ false) ↔ IsSame (change name op value s).0 s
change_changed name op value s =
    let list = collection name s in
    let pref = lookup name s.prefs in
    let flag = change-differs name op value s in
    let same = differs_iff op value list pref in
    let mine = collection-change name name op value s ∙ rw (==_refl name) refl in
    let my_pref = pref-change name name op value s ∙ rw (==_refl name) refl in
    (
      λ h other.
          let (e, f) = same.0 (sym flag ∙ h) in
          elim (Bool-cases (name == other)) [
            | inl here ↦
                let at : name ≡ other = (string_eq.same_iff name other).0 here in
                rw (← at) (mine ∙ e, my_pref ∙ f)
            | inr there ↦ (
              collection-change other name op value s ∙ rw there refl,
              pref-change other name op value s ∙ rw there refl,
            )
          ],
      λ h. flag ∙ same.1 (sym mine ∙ (h name).0, sym my_pref ∙ (h name).1),
    )
