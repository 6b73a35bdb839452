-- ===== src/Transport/Capability.antt =====
-- app/crates/octos-app-transport/src/capability/mod.rs: capability negotiation.
pub mod Negotiation
use octos_one.Prelude.{
  String, Bool, true, false, Option, none, some, List, [], ◌∷◌, ◌++◌, if◌then◌else◌, ◌==◌, ◌&&◌,
  not, any, string_eq, or_else, unwrap_or,
}
use octos_one.Prelude.Map.{Map}
use octos_one.Prelude.BTree.{insert_sorted}
use octos_one.Prelude.Text.{concat}
use octos_one.Transport.Json.{Json, boolean, get_key, pointer, as_bool, as_str, as_array, as_object}

-- The feature names of octos-core, as the tests of the module spell them.
abbrev pub approval_typed_v1 : String
approval_typed_v1 = "approval.typed.v1"

abbrev pub pane_snapshots_v1 : String
pane_snapshots_v1 = "pane.snapshots.v1"

abbrev pub session_workspace_cwd_v1 : String
session_workspace_cwd_v1 = "session.workspace_cwd.v1"

abbrev pub context_lifecycle_v1 : String
context_lifecycle_v1 = "context.lifecycle.v1"

abbrev pub session_hydrate_v1 : String
session_hydrate_v1 = "state.session_hydrate.v1"

abbrev pub auxiliary_rest_to_ws_v1 : String
auxiliary_rest_to_ws_v1 = "auxiliary.rest_to_ws.v1"

pub record Capabilities : Type 0 where
  pub typed_approvals : Bool
  pub pane_snapshots : Bool
  pub session_workspace_cwd : Bool
  pub context_lifecycle : Bool
  pub session_hydrate : Bool
  pub auxiliary_rest_to_ws : Bool
  pub raw : Map String Json

abbrev pub all_flags : Bool → Capabilities
all_flags on = record {
  typed_approvals = on;
  pane_snapshots = on;
  session_workspace_cwd = on;
  context_lifecycle = on;
  session_hydrate = on;
  auxiliary_rest_to_ws = on;
  raw = [];
}

abbrev pub default_capabilities : Capabilities
default_capabilities = all_flags false

abbrev pub requested : Capabilities
requested = all_flags true

-- A feature is pushed if its flag is set.
abbrev pub push_if : Bool → String → List String → List String
push_if on feature features = if on then features ++ feature ∷ [] else features

unfoldable pub flag_features : Capabilities → List String
flag_features c = push_if c.auxiliary_rest_to_ws auxiliary_rest_to_ws_v1 (
    push_if c.session_hydrate session_hydrate_v1 (
      push_if c.context_lifecycle context_lifecycle_v1 (
        push_if c.session_workspace_cwd session_workspace_cwd_v1 (
          push_if c.pane_snapshots pane_snapshots_v1
            (push_if c.typed_approvals approval_typed_v1 [])))))

-- `as_bool() == Some(true)`.
abbrev pub is_true : Json → Bool
is_true j = unwrap_or (as_bool j) false

-- The loop over `raw`.
unfoldable pub push_raw : List String → List (String × Json) → List String
push_raw features [] = features
push_raw features ((feature, enabled) ∷ rest) =
    push_raw (push_if (is_true enabled && not (any (λ f. f == feature) features)) feature features)
      rest

unfoldable pub requested_features : Capabilities → List String
requested_features c = push_raw (flag_features c) c.raw

join : List String → String
join [] = ""
join (s ∷ []) = s
join (s ∷ t ∷ ss) = concat (s ∷ ", " ∷ join (t ∷ ss) ∷ [])

unfoldable pub handshake_header_value : Capabilities → Option String
unfolding join
handshake_header_value c = elim (requested_features c) [ [] ↦ none | f ∷ fs ↦ some (join (f ∷ fs)) ]

-- The `match` on a feature's name.
unfoldable pub set_flag : String → Capabilities → Capabilities
set_flag name c =
    if name == approval_typed_v1
    then record c { typed_approvals = true }
    else if name == pane_snapshots_v1
    then record c { pane_snapshots = true }
    else if name == session_workspace_cwd_v1
    then record c { session_workspace_cwd = true }
    else if name == context_lifecycle_v1
    then record c { context_lifecycle = true }
    else if name == session_hydrate_v1
    then record c { session_hydrate = true }
    else if name == auxiliary_rest_to_ws_v1
    then record c { auxiliary_rest_to_ws = true }
    else c

abbrev pub record_raw : String → Json → Capabilities → Capabilities
record_raw name v c = record c { raw = insert_sorted name v c.raw }

unfoldable pub add_features : Capabilities → List String → Capabilities
add_features c [] = c
add_features c (name ∷ rest) = add_features (record_raw name (boolean true) (set_flag name c)) rest

unfoldable pub from_supported_features : List String → Capabilities
from_supported_features features = add_features default_capabilities features

-- `filter_map(as_str)`.
strings : List Json → List String
strings [] = []
strings (j ∷ js) = let rest = strings js in elim (as_str j) [ none ↦ rest | some s ↦ s ∷ rest ]

unfoldable pub add_map : Capabilities → List (String × Json) → Capabilities
add_map c [] = c
add_map c ((k, v) ∷ rest) = add_map (record_raw k v (if is_true v then set_flag k c else c)) rest

abbrev pub capability_node : Json → Json
capability_node json =
    unwrap_or
      (or_else
        (or_else (pointer ("capabilities" ∷ []) json)
          (pointer ("result" ∷ "capabilities" ∷ []) json))
        (pointer ("opened" ∷ "capabilities" ∷ []) json))
      json

abbrev pub supported_array : Json → Option (List Json)
supported_array node = elim (get_key "supported_features" node) [
  | none ↦ none
  | some v ↦ as_array v
]

unfoldable pub parse : Json → Capabilities
unfolding strings
parse json =
    let node = capability_node json in
    elim (supported_array node) [
      | some arr ↦ from_supported_features (strings arr)
      | none ↦ elim (as_object node) [
        | none ↦ default_capabilities
        | some map ↦ add_map default_capabilities map
      ]
    ]
