-- ===== src/Store/Toasts/Bounds.antt =====
-- The toast queue keeps the newest notices, as many as it has room for
-- (app/crates/octos-app-store/src/toasts.rs).
use octos_one.Prelude.{
  Bool-cases, eqb, if◌then◌else◌, inl, inr, ℕ, zero, suc, ◌-◌, ◌≤◌, ◌<◌, ◌≡◌, refl, List, [], ◌∷◌,
  ◌++◌, arith, length, length-append, sym, ◌∙◌,
}
use mathlib.Core.List.{append_assoc, append-nil}
use octos_one.Store.Toasts.{Toast, ToastQueue, push, rest_of, dismiss_oldest}

pub record IsBounded (q : ToastQueue) : Type 0 where
  pub room : 0 < q.capacity
  pub within : length q.items ≤ q.capacity

length-rest_of : (xs : List Toast) → length (rest_of xs) ≡ length xs - 1
length-rest_of [] = omega arith
length-rest_of (x ∷ xs) = omega arith

pub push-IsBounded : (q : ToastQueue) (t : Toast) → IsBounded q → IsBounded (push q t)
unfolding push
push-IsBounded q t v = ground (
  arith,
  length-append q.items (t ∷ []),
  length-append (rest_of q.items) (t ∷ []),
  length-rest_of q.items,
)

pub dismiss_oldest-IsBounded : (q : ToastQueue) → IsBounded q → IsBounded (dismiss_oldest q).0
unfolding dismiss_oldest
dismiss_oldest-IsBounded q v = ground (arith, length-rest_of q.items)

unfoldable pub push_all : ToastQueue → List Toast → ToastQueue
push_all q [] = q
push_all q (t ∷ ts) = push_all (push q t) ts

drop : ℕ → List Toast → List Toast
drop zero xs = xs
drop (suc n) [] = []
drop (suc n) (x ∷ xs) = drop n xs

-- The newest `n` entries of a list.
unfoldable pub newest : ℕ → List Toast → List Toast
unfolding drop
newest n xs = drop (length xs - n) xs

newest_all : (c : ℕ) (xs : List Toast) → length xs ≤ c → newest c xs ≡ xs
unfolding newest
newest_all c xs h = let e : length xs - c ≡ 0 = omega arith in rw (e, drop)

newest-full :
    (c : ℕ) (x : Toast) (xs : List Toast) → c ≤ length xs → newest c xs ≡ newest c (x ∷ xs)
unfolding newest
newest-full c x xs h =
    let e : suc (length xs) - c ≡ suc (length xs - c) = omega arith in rw (e, drop)

newest-push :
    (c : ℕ) (xs : List Toast) (t : Toast) (ts : List Toast)
    → 0 < c
    → length xs ≤ c
    → newest c (((if eqb (length xs) c then rest_of xs else xs) ++ t ∷ []) ++ ts)
      ≡ newest c (xs ++ t ∷ ts)
newest-push c [] t ts p h = ground arith
newest-push c (x ∷ xs) t ts p h = elim (Bool-cases (eqb (suc (length xs)) c)) [
  | inl full ↦
      rw (full, append_assoc xs (t ∷ []) ts)
        (newest-full c x (xs ++ t ∷ ts) (ground (arith, length-append xs (t ∷ ts))))
  | inr more ↦ rw (more, append_assoc xs (t ∷ []) ts) refl
]

-- The queue holds the newest toasts of its history, as many as its capacity allows, in the order
-- of their arrival.
pub items-push_all :
    (q : ToastQueue) (ts : List Toast)
    → IsBounded q
    → (push_all q ts).items ≡ newest q.capacity (q.items ++ ts)
unfolding push_all
items-push_all q [] v = rw append-nil (sym (newest_all q.capacity q.items v.within))
items-push_all q (t ∷ ts) v =
    items-push_all (push q t) ts (push-IsBounded q t v)
    ∙ unfold push in newest-push q.capacity q.items t ts v.room v.within
