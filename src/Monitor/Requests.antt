-- ===== src/Monitor/Requests.antt =====
-- app/app/src/monitor.rs: the reading of a request and the choice of its handler.
use octos_one.Prelude.{
  [], ℕ, zero, suc, ◌+◌, ◌-◌, ◌*◌, ◌^◌, ◌≤◌, ◌≡◌, Option, none, some, List, ◌∷◌, if◌then◌else◌,
  Bool, true, false, ◌&&◌, not, eqb, leb, ltb, unwrap_or, length, arith, Option-cases, inl, inr,
}
use octos_one.Prelude.Chars.{
  Chars, strip_prefix, trim, trim_end, is_whitespace, same_chars, is_blank,
}
use octos_one.Prelude.Text.{codes, to_ascii_lowercase}

abbrev join_first : Bool → ℕ → List Chars → List Chars
join_first starts c [] = (c ∷ []) ∷ []
join_first true c (w ∷ ws) = (c ∷ w) ∷ ws
join_first false c (w ∷ ws) = (c ∷ []) ∷ w ∷ ws

abbrev goes_on : Chars → Bool
goes_on [] = false
goes_on (c ∷ s) = not (is_whitespace c)

-- `split_whitespace`.
unfoldable pub words : Chars → List Chars
unfolding is_whitespace
words [] = []
words (c ∷ s) =
    let rest = words s in if is_whitespace c then rest else join_first (goes_on s) c rest

digits : ℕ → Chars → Option ℕ
digits n [] = some n
digits n (c ∷ s) = elim (leb b'0' c && leb c b'9') [
  | true ↦ digits (n * 10 + (c - b'0')) s
  | false ↦ none
]

abbrev within_u64 : Option ℕ → Option ℕ
within_u64 none = none
within_u64 (some n) = if ltb n (2 ^ 64) then some n else none

-- `parse` of a 64-bit unsigned number.
unfoldable pub parse_u64 : Chars → Option ℕ
unfolding digits
parse_u64 [] = none
parse_u64 (c ∷ []) = within_u64 (digits 0 (c ∷ []))
parse_u64 (c ∷ d ∷ s) =
    if eqb c b'+' then within_u64 (digits 0 (d ∷ s)) else within_u64 (digits 0 (c ∷ d ∷ s))

pub record Head : Type 0 where
  pub content_len : ℕ
  pub last_event_id : ℕ

-- What a header line changes; a number that does not parse is 0.
unfoldable pub header : Chars → Head → Head
unfolding strip_prefix to_ascii_lowercase codes parse_u64 trim
header h head =
    let lower = to_ascii_lowercase h in
    elim (strip_prefix lower (codes "content-length:")) [
      | some v ↦ record head { content_len = unwrap_or (parse_u64 (trim v)) 0 }
      | none ↦ elim (strip_prefix lower (codes "last-event-id:")) [
        | some v ↦ record head { last_event_id = unwrap_or (parse_u64 (trim v)) 0 }
        | none ↦ head
      ]
    ]

-- The loop over the header lines, up to an empty one or the end of the stream.
unfoldable pub read_head : List Chars → Head → Head
unfolding header trim_end is_blank
read_head [] head = head
read_head (line ∷ lines) head =
    let rest = read_head lines (header (trim_end line) head) in if is_blank line then head else rest

abbrev pub body_cap : ℕ
body_cap = 1024 * 1024

-- `read_exact`: a stream that is too short is an error.
unfoldable pub read_exact : ℕ → List ℕ → Option (List ℕ)
read_exact zero stream = some []
read_exact (suc n) [] = none
read_exact (suc n) (b ∷ stream) = elim (read_exact n stream) [
  | none ↦ none
  | some bs ↦ some (b ∷ bs)
]

abbrev pub min : ℕ → ℕ → ℕ
min a b = if ltb b a then b else a

unfoldable pub read_body : ℕ → List ℕ → Option (List ℕ)
unfolding read_exact
read_body content_len stream = read_exact (min content_len body_cap) stream

length-read_exact : (n : ℕ) (stream bs : List ℕ) → read_exact n stream ≡ some bs → length bs ≡ n
unfolding read_exact
length-read_exact zero stream bs e = ground (arith, e)
length-read_exact (suc n) [] bs e = ground (arith, e)
length-read_exact (suc n) (b ∷ stream) bs e = elim (Option-cases (read_exact n stream)) [
  | inl short ↦ ground (arith, e, short)
  | inr (rest, found) ↦ ground (arith, e, found, length-read_exact n stream rest found)
]

-- Whatever length a request claims, its handler is given at most a mebibyte.
length-read_body :
    (n : ℕ) (stream bs : List ℕ) → read_body n stream ≡ some bs → length bs ≤ body_cap
unfolding read_body
length-read_body n stream bs e = ground (arith, length-read_exact (min n body_cap) stream bs e)

-- `split_once('?')`: the path and the query.
unfoldable pub split_query : Chars → Chars × Chars
split_query [] = ([], [])
split_query (c ∷ s) = let (p, q) = split_query s in if eqb c b'?' then ([], s) else (c ∷ p, q)

pub data Route : Type 0 where
  page : Route
  status_json : Route
  events : Route
  shell : Route
  ffmpeg : Route
  imagegen : Route
  score : Route
  concept : Route
  snapshot : Route
  file : Chars → Route
  gallery : Route
  not_found : Route

get_route : Chars → Chars → Route
unfolding same_chars codes
get_route path query =
    if same_chars path (codes "/")
    then page
    else if same_chars path (codes "/status.json")
    then status_json
    else if same_chars path (codes "/events")
    then events
    else if same_chars path (codes "/file")
    then file query
    else if same_chars path (codes "/gallery.json")
    then gallery
    else not_found

post_route : Chars → Route
unfolding same_chars codes
post_route path =
    if same_chars path (codes "/shell")
    then shell
    else if same_chars path (codes "/ffmpeg")
    then ffmpeg
    else if same_chars path (codes "/imagegen")
    then imagegen
    else if same_chars path (codes "/score")
    then score
    else if same_chars path (codes "/concept")
    then concept
    else if same_chars path (codes "/snapshot")
    then snapshot
    else not_found

-- The handler of a request, by its first line.
unfoldable pub route : Chars → Route
unfolding words split_query get_route post_route same_chars codes
route line = elim (words line) [
  | [] ↦ not_found
  | method ∷ [] ↦ by_method method (codes "/", [])
  | method ∷ target ∷ rest ↦ by_method method (split_query target)
]
  where
    by_method : Chars → Chars × Chars → Route
    by_method method (path, query) =
        if same_chars method (codes "GET")
        then get_route path query
        else if same_chars method (codes "POST")
        then post_route path
        else not_found
