-- ===== src/Transport/Capability/Negotiation.antt =====
-- What the client asks for, and what it reads from the server
-- (app/crates/octos-app-transport/src/capability/mod.rs).
use octos_one.Prelude.{
  ◌≡◌, refl, ℕ, ◌+◌, String, Bool, true, false, List, [], ◌∷◌, arith, ◌==◌, ◌&&◌, ◌||◌, not, any,
  count, count-append, if◌then◌else◌, string_eq, Bool-cases, inl, inr, ◌⊎◌, sym, nat_eq,
}
use mathlib.Core.Path.{subst}
use octos_one.Prelude.BTree.{insert_sorted}
use octos_one.Transport.Json.{Json, boolean}
use octos_one.Transport.Capability.{
  Capabilities, record_raw, default_capabilities, push_if, flag_features, is_true, push_raw,
  requested_features, set_flag, add_features, from_supported_features, approval_typed_v1,
  pane_snapshots_v1, session_workspace_cwd_v1, context_lifecycle_v1, session_hydrate_v1,
  auxiliary_rest_to_ws_v1,
}

-- Whether the flag of a feature is set.
abbrev pub has_flag : String → Capabilities → Bool
has_flag k c =
    (approval_typed_v1 == k && c.typed_approvals)
    || (pane_snapshots_v1 == k && c.pane_snapshots)
    || (session_workspace_cwd_v1 == k && c.session_workspace_cwd)
    || (context_lifecycle_v1 == k && c.context_lifecycle)
    || (session_hydrate_v1 == k && c.session_hydrate)
    || (auxiliary_rest_to_ws_v1 == k && c.auxiliary_rest_to_ws)

-- Whether the map of a server's features switches one on.
unfoldable pub is_enabled : String → List (String × Json) → Bool
is_enabled k [] = false
is_enabled k ((j, v) ∷ rest) = (j == k && is_true v) || is_enabled k rest

count-push_if :
    (b : Bool) (f k : String) (l : List String)
    → count k (push_if b f l) ≡ count k l + (if f == k && b then 1 else 0)
unfolding count
count-push_if true f k l = ground (arith, count-append k l (f ∷ []))
count-push_if false f k l = ground arith

any-count : (k : String) (l : List String) → any (λ f. f == k) l ≡ not (count k l == 0)
unfolding any count
any-count k [] = refl
any-count k (f ∷ l) = ground (arith, any-count k l)

count-push_raw :
    (k : String) (l : List String) (raw : List (String × Json))
    → count k (push_raw l raw) ≡ (if is_enabled k raw && (count k l == 0) then 1 else count k l)
unfolding push_raw is_enabled
count-push_raw k l [] = refl
count-push_raw k l ((j, v) ∷ raw) = ground (
  arith,
  count-push_raw k (push_if (is_true v && not (any (λ f. f == j) l)) j l) raw,
  count-push_if (is_true v && not (any (λ f. f == j) l)) j k l,
  any-count j l,
  string_eq.same_iff j k,
)

-- One for each flag that is set and has the name.
abbrev flag_sum : String → Capabilities → ℕ
flag_sum k c =
    0
    + (if approval_typed_v1 == k && c.typed_approvals then 1 else 0)
    + (if pane_snapshots_v1 == k && c.pane_snapshots then 1 else 0)
    + (if session_workspace_cwd_v1 == k && c.session_workspace_cwd then 1 else 0)
    + (if context_lifecycle_v1 == k && c.context_lifecycle then 1 else 0)
    + (if session_hydrate_v1 == k && c.session_hydrate then 1 else 0)
    + (if auxiliary_rest_to_ws_v1 == k && c.auxiliary_rest_to_ws then 1 else 0)

count-flag_features : (k : String) (c : Capabilities) → count k (flag_features c) ≡ flag_sum k c
unfolding flag_features count
count-flag_features k c = simp count-push_if refl

abbrev Agrees : String → Capabilities → Type 0
Agrees k c = flag_sum k c ≡ (if has_flag k c then 1 else 0)

Agrees-at : (c : Capabilities) (name k : String) → (name == k) ≡ true → Agrees name c → Agrees k c
Agrees-at c name k e h = subst (λ x. Agrees x c) ((string_eq.same_iff name k).0 e) h

-- The six names differ, so that at most one summand is not 0.
flag_sum_lem : (k : String) (c : Capabilities) → Agrees k c
flag_sum_lem k c = elim (Bool-cases (approval_typed_v1 == k)) [
  | inl e ↦ Agrees-at c approval_typed_v1 k e (ground arith)
  | inr e1 ↦ elim (Bool-cases (pane_snapshots_v1 == k)) [
    | inl e ↦ Agrees-at c pane_snapshots_v1 k e (ground arith)
    | inr e2 ↦ elim (Bool-cases (session_workspace_cwd_v1 == k)) [
      | inl e ↦ Agrees-at c session_workspace_cwd_v1 k e (ground arith)
      | inr e3 ↦ elim (Bool-cases (context_lifecycle_v1 == k)) [
        | inl e ↦ Agrees-at c context_lifecycle_v1 k e (ground arith)
        | inr e4 ↦ elim (Bool-cases (session_hydrate_v1 == k)) [
          | inl e ↦ Agrees-at c session_hydrate_v1 k e (ground arith)
          | inr e5 ↦ elim (Bool-cases (auxiliary_rest_to_ws_v1 == k)) [
            | inl e ↦ Agrees-at c auxiliary_rest_to_ws_v1 k e (ground arith)
            | inr e6 ↦ rw (e1, e2, e3, e4, e5, e6)
          ]
        ]
      ]
    ]
  ]
]

-- Whatever the flags and the map of a client's capabilities are, the handshake asks for a feature at
-- most once, and asks for it exactly when its flag is set or the map switches it on.
pub count-requested_features :
    (k : String) (c : Capabilities)
    → count k (requested_features c) ≡ (if has_flag k c || is_enabled k c.raw then 1 else 0)
unfolding requested_features
count-requested_features k c =
    ground
      (arith, count-push_raw k (flag_features c) c.raw, count-flag_features k c, flag_sum_lem k c)

abbrev Adds : String → String → Capabilities → Type 0
Adds k name c = has_flag k (set_flag name c) ≡ true → (has_flag k c ≡ true) ⊎ (name ≡ k)

Adds-at :
    (k : String) (c : Capabilities) (name known : String)
    → (name == known) ≡ true
    → Adds k known c
    → Adds k name c
Adds-at k c name known e h = subst (λ x. Adds k x c) (sym ((string_eq.same_iff name known).0 e)) h

-- A name sets no flag but its own.
set_flag-Adds : (name k : String) (c : Capabilities) → Adds k name c
unfolding set_flag
set_flag-Adds name k c = elim (Bool-cases (name == approval_typed_v1)) [
  | inl e ↦
      Adds-at k c name approval_typed_v1 e
        (λ h. ground (arith, string_eq.same_iff approval_typed_v1 k))
  | inr e1 ↦ elim (Bool-cases (name == pane_snapshots_v1)) [
    | inl e ↦
        Adds-at k c name pane_snapshots_v1 e
          (λ h. ground (arith, string_eq.same_iff pane_snapshots_v1 k))
    | inr e2 ↦ elim (Bool-cases (name == session_workspace_cwd_v1)) [
      | inl e ↦
          Adds-at k c name session_workspace_cwd_v1 e
            (λ h. ground (arith, string_eq.same_iff session_workspace_cwd_v1 k))
      | inr e3 ↦ elim (Bool-cases (name == context_lifecycle_v1)) [
        | inl e ↦
            Adds-at k c name context_lifecycle_v1 e
              (λ h. ground (arith, string_eq.same_iff context_lifecycle_v1 k))
        | inr e4 ↦ elim (Bool-cases (name == session_hydrate_v1)) [
          | inl e ↦
              Adds-at k c name session_hydrate_v1 e
                (λ h. ground (arith, string_eq.same_iff session_hydrate_v1 k))
          | inr e5 ↦ elim (Bool-cases (name == auxiliary_rest_to_ws_v1)) [
            | inl e ↦
                Adds-at k c name auxiliary_rest_to_ws_v1 e
                  (λ h. ground (arith, string_eq.same_iff auxiliary_rest_to_ws_v1 k))
            | inr e6 ↦ rw (e1, e2, e3, e4, e5, e6) (λ h. inl h)
          ]
        ]
      ]
    ]
  ]
]

is_enabled-insert_sorted :
    (name k : String) (raw : List (String × Json))
    → is_enabled k (insert_sorted name (boolean true) raw) ≡ (name == k || is_enabled k raw)
unfolding is_enabled insert_sorted
is_enabled-insert_sorted name k [] = ground arith
is_enabled-insert_sorted name k ((j, v) ∷ raw) = ground (
  arith,
  is_enabled-insert_sorted name k raw,
  string_eq.same_iff j name,
  string_eq.same_iff j k,
  string_eq.same_iff name k,
)

raw-set_flag : (name : String) (c : Capabilities) → (set_flag name c).raw ≡ c.raw
unfolding set_flag
raw-set_flag name c = ground arith

is_enabled-record_raw :
    (name k : String) (c : Capabilities)
    → is_enabled k (record_raw name (boolean true) (set_flag name c)).raw
      ≡ (name == k || is_enabled k c.raw)
is_enabled-record_raw name k c = rw (raw-set_flag name c) (is_enabled-insert_sorted name k c.raw)

-- Every flag that is set is in the map, too.
abbrev IsCovered : Capabilities → Type 0
IsCovered c = (k : String) → has_flag k c ≡ true → is_enabled k c.raw ≡ true

add-IsCovered :
    (name : String) (c : Capabilities)
    → IsCovered c
    → IsCovered (record_raw name (boolean true) (set_flag name c))
add-IsCovered name c v k h = elim (set_flag-Adds name k c h) [
  | inl old ↦ ground (arith, is_enabled-record_raw name k c, v k old)
  | inr new ↦ ground (arith, is_enabled-record_raw name k c, string_eq.same_iff name k)
]

-- What the loop over the features leaves: the flags are covered, and the map has the features.
add_features-covers :
    (fs : List String) (c : Capabilities) (k : String)
    → IsCovered c
    → IsCovered (add_features c fs)
      × (is_enabled k (add_features c fs).raw ≡ (any (λ f. f == k) fs || is_enabled k c.raw))
unfolding add_features any
add_features-covers [] c k v = (v, refl)
add_features-covers (name ∷ fs) c k v =
    let (covered, has) = add_features-covers fs _ k (add-IsCovered name c v) in
    (covered, ground (arith, has, is_enabled-record_raw name k c))

default-IsCovered : IsCovered default_capabilities
default-IsCovered k h = ground arith

-- A client that asks for what a server advertised asks for each advertised feature once, known to
-- the client or not, and for nothing else.
pub requested_features-from_supported_features :
    (fs : List String) (k : String)
    → count k (requested_features (from_supported_features fs))
      ≡ (if any (λ f. f == k) fs then 1 else 0)
unfolding from_supported_features is_enabled
requested_features-from_supported_features fs k =
    let (covered, has) = add_features-covers fs default_capabilities k default-IsCovered in
    ground
      (arith, count-requested_features k (add_features default_capabilities fs), has, covered k)
