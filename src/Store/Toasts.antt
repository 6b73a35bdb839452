-- ===== src/Store/Toasts.antt =====
-- app/crates/octos-app-store/src/toasts.rs: the bounded queue of notices.
pub mod Bounds
use octos_one.Prelude.{
  ℕ, String, Bool, Option, none, some, List, [], ◌∷◌, ◌++◌, if◌then◌else◌, length, eqb,
}

pub data ToastKind : Type 0 where
  error reconnecting reconnect_success info : ToastKind

pub record Toast : Type 0 where
  pub kind : ToastKind
  pub message : String

pub record ToastQueue : Type 0 where
  pub items : List Toast
  pub capacity : ℕ

unfoldable pub new : ℕ → ToastQueue
new capacity = record { items = []; capacity = capacity }

unfoldable pub default_queue : ToastQueue
unfolding new
default_queue = new 3

-- What `pop_front` leaves behind, and what it returns.
abbrev pub rest_of : List Toast → List Toast
rest_of [] = []
rest_of (x ∷ xs) = xs

abbrev pub front : List Toast → Option Toast
front [] = none
front (x ∷ xs) = some x

unfoldable pub push : ToastQueue → Toast → ToastQueue
push q toast =
    let kept = if eqb (length q.items) q.capacity then rest_of q.items else q.items in
    record q { items = kept ++ toast ∷ [] }

unfoldable pub dismiss_oldest : ToastQueue → ToastQueue × Option Toast
dismiss_oldest q = (record q { items = rest_of q.items }, front q.items)

unfoldable pub len : ToastQueue → ℕ
len q = length q.items

unfoldable pub is_empty : ToastQueue → Bool
is_empty q = eqb (length q.items) 0
