-- ===== src/Tests/Keeping.antt =====
-- The user store, the token files and the cards of app/app/src/app on concrete inputs.
use octos_one.Prelude.{
  ◌+◌, ◌^◌, ◌≤◌, ◌≡◌, ◌↔◌, refl, true, false, none, some, inl, inr, List, [], ◌∷◌, arith, eqb,
  if◌then◌else◌, ◌==◌, ◌&&◌, Bool, string_eq, String, count, Bool-cases,
}
use octos_one.Prelude.Chars.{Chars, chars_eq, same_chars}
use octos_one.Prelude.Text.{codes}
use octos_one.Prelude.Map.{Map}
use octos_one.Shell.UserStore.{load, UserStore, collection, change, Home, SerdeJson, get}
use octos_one.Shell.UserStore.Keeping.{
  collection-change, edited, change-IsUnique, change_changed, IsSame,
}
use octos_one.Shell.UserStore.Restart.{Write, all_written, writes, restart, get-restart}
use octos_one.Store.Keychain.{fine, nonempty, token_file}
use octos_one.Store.Keychain.Android.{store_token, load_token}
use octos_one.Store.Keychain.Android.Accounts.{alike, account, quiet, load_token-store_token}
use octos_one.Store.Auth.{SecretToken}
use octos_one.Shell.CardTree.{Heap, walk, build}
use octos_one.Shell.CardTree.Depth.{twice, depth_of, size_of, depth-build, size-walk}

abbrev list : Map String (List String)
list = ("watchlist", "NVDA" ∷ "AAPL" ∷ []) ∷ []

abbrev chosen : UserStore
chosen = record { version = 1; collections = list; prefs = [] }

abbrev watchlist : String
watchlist = "watchlist"

collection-change_example : collection watchlist (change watchlist "append" "TSLA" chosen).0 ≡ (
    if watchlist == watchlist
    then edited "append" "TSLA" (collection watchlist chosen)
    else collection watchlist chosen)
collection-change_example = collection-change watchlist watchlist "append" "TSLA" chosen

appended :
    collection "watchlist" (change "watchlist" "append" "TSLA" chosen).0
    ≡ "NVDA" ∷ "AAPL" ∷ "TSLA" ∷ []
unfolding collection change
appended = refl

abbrev single : UserStore
single = record { version = 1; collections = []; prefs = [] }

change-IsUnique_example :
    count "AAPL" (collection "watchlist" (change "watchlist" "append" "AAPL" single).0) ≤ 1
change-IsUnique_example =
    change-IsUnique "watchlist" "append" "AAPL" single
      (λ name v. unfold collection count in omega arith) "watchlist" "AAPL"

change_changed_example :
    ((change "watchlist" "append" "AAPL" chosen).1 ≡ false)
    ↔ IsSame (change "watchlist" "append" "AAPL" chosen).0 chosen
change_changed_example = change_changed "watchlist" "append" "AAPL" chosen

-- A serde_json that knows one store.
abbrev celsius : UserStore
celsius = record { version = 1; collections = []; prefs = ("units", "c") ∷ [] }

abbrev no_lists : Map String (List String) → Bool
no_lists [] = true
no_lists (c ∷ cs) = false

abbrev only_units : Map String String → Bool
only_units ((k, v) ∷ []) = k == "units" && v == "c"
only_units _ = false

abbrev is_celsius : UserStore → Bool
is_celsius s = eqb s.version 1 && no_lists s.collections && only_units s.prefs

abbrev is_json : Chars → Bool
is_json t = t == (b'c' ∷ [])

abbrev one_serde : SerdeJson
one_serde = record {
  to_string_pretty = λ s. if is_celsius s then some (b'c' ∷ []) else none;
  from_str = λ t. if is_json t then some celsius else none;
}

no_lists_lem : (m : Map String (List String)) → no_lists m ≡ true → m ≡ []
no_lists_lem [] h = refl
no_lists_lem (c ∷ cs) h = ground arith

only_units_lem : (m : Map String String) → only_units m ≡ true → m ≡ ("units", "c") ∷ []
only_units_lem [] h = ground arith
only_units_lem ((k, v) ∷ []) h =
    ground (arith, string_eq.same_iff k "units", string_eq.same_iff v "c")
only_units_lem (e ∷ f ∷ m) h = ground arith

reads_back :
    (s : UserStore) (raw : Chars)
    → one_serde.to_string_pretty s ≡ some raw
    → one_serde.from_str raw ≡ some s
reads_back s raw e = elim (Bool-cases (is_celsius s)) [
  | inl known ↦ ground (
    arith,
    e,
    known,
    chars_eq.same_iff raw (b'c' ∷ []),
    no_lists_lem s.collections,
    only_units_lem s.prefs,
  )
  | inr other ↦ absurd (ground (arith, e, other))
]

abbrev home : Home
home = record { slot = none; file = none; tmp = none }

abbrev to_celsius : List Write
to_celsius = record { name = "units"; op = "set"; value = "c" } ∷ []

get-restart_example :
    (get one_serde (restart one_serde (writes one_serde to_celsius home))).1
    ≡ (get one_serde (writes one_serde to_celsius home)).1
get-restart_example =
    get-restart one_serde reads_back to_celsius home (unfold get load in (refl, refl))
      (unfold all_written in refl)

abbrev token : SecretToken
token = record { inner = "t" }

load_token-store_token_example :
    load_token quiet "h" "a_b" (store_token quiet "h" "a:b" token []).0 ≡ (
      if alike (account "h" "a:b") (account "h" "a_b")
      then fine (nonempty "t")
      else load_token quiet "h" "a_b" [])
load_token-store_token_example = load_token-store_token "h" "h" "a:b" "a_b" token []

-- The token of one profile is handed to another one.
shared : load_token quiet "h" "a_b" (store_token quiet "h" "a:b" token []).0 ≡ fine (some token)
unfolding load_token store_token token_file same_chars
shared = refl

-- A profile with other letters keeps its own.
kept_apart : alike (account "h" "a-b") (account "h" "a_b") ≡ false
unfolding alike codes
kept_apart = refl

depth-build_example : depth_of (build twice tt) ≤ 33
depth-build_example = depth-build twice tt

abbrev leaf : Heap Unit Unit Unit
leaf = record {
  is_nil = λ v. false;
  kind_of = λ v. some tt;
  attrs_of = λ v. tt;
  children_of = λ v. [];
}

size-walk_example : size_of (walk twice 5 tt) + 1 ≡ 2 ^ 5
size-walk_example = size-walk 5
