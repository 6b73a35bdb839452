-- ===== src/Tests/Watching.antt =====
-- The monitor, the user store, the keychain's files and the checks of app/app/src on concrete inputs.
use octos_one.Prelude.{
  ◌≡◌, ◌⊎◌, refl, true, none, some, inl, inr, false, List, [], ◌∷◌, ◌++◌, arith, eqb, any, not,
  if◌then◌else◌, string_eq,
}
use octos_one.Prelude.Chars.{Chars, chars_eq, split, as_bytes, is_blank, is_whitespace}
use octos_one.Prelude.Utf8.{IsText}
use octos_one.Prelude.Text.{codes}
use octos_one.Monitor.{Line, Log, Client, take_id, push_line, poll}
use octos_one.Monitor.Watching.{
  Watch, Event, taken, pushed, polled, seen, watch, lines_of, keeps_up, seen-watch,
}
use octos_one.Monitor.Ring.{count_id, rounds, rounds-late}
use octos_one.Monitor.Paths.{Host, Response, file, serve, requested_path, pct_decode}
use octos_one.Monitor.Paths.Confined.{IsConfined, file-IsConfined}
use octos_one.Monitor.Paths.Decoding.{pct_encode, pct_decode-pct_encode}
use octos_one.Monitor.Body.{quoted, json_escape, body_field}
use octos_one.Monitor.Body.RoundTrip.{without_cr, body_field-json_escape}
use octos_one.Monitor.Base64.{b64_encode, b64_decode}
use octos_one.Monitor.Base64.RoundTrip.{IsBytes, b64_decode-b64_encode}
use octos_one.Monitor.Concept.{Models, concept, start}
use octos_one.Monitor.Concept.Verdict.{told, verdict, tries, concept-verdict}
use octos_one.Shell.Fences.{assistant_message_is_safe_to_store, repeat}
use octos_one.Shell.Fences.Unwrap.{wrapped}
use octos_one.Shell.Fences.Blocks.{Blocks-total, is_bad, safe-Blocks}

abbrev one_line : List Line
one_line = (1, []) ∷ []

abbrev watched : Watch
watched = record {
  ring = record { seq = 1; logs = one_line };
  held = [];
  client = record { last_id = 0; sent = [] };
}

abbrev moves : List Event
moves = taken none [] ∷ taken (some 7) [] ∷ polled ∷ pushed 0 ∷ polled ∷ pushed 0 ∷ polled ∷ []

seen-watch_example : seen (watch moves watched) ≡ seen watched ++ lines_of moves 1
seen-watch_example =
    seen-watch moves watched (omega arith) (1, (omega arith, omega arith), omega arith, omega arith)
      refl (unfold keeps_up push_line in refl)

abbrev ring : Log
ring = record { seq = 1; logs = one_line }

abbrev reader : Client
reader = record { last_id = 1; sent = one_line }

rounds-late_example :
    count_id
      (take_id 1)
      (rounds
        (((2, []) ∷ []) ∷ [])
        (poll (push_line (take_id (take_id 1), []) one_line) reader)).sent
    ≡ count_id (take_id 1) one_line
rounds-late_example =
    rounds-late (((2, []) ∷ []) ∷ []) ring reader [] (omega arith) (omega arith, omega arith)
      (omega arith)

abbrev host : Host
host = record { read = λ path. inl (1 ∷ 2 ∷ []) }

abbrev roots : List Chars
unfolding codes
roots = codes "/data/out" ∷ []

abbrev query : Chars
unfolding codes
query = codes "t=1&path=/data%2Fout/a.png"

abbrev answer : Response
answer = serve host roots (codes "/data/out/a.png")

file-IsConfined_example :
    (answer.code ≡ 403)
    ⊎ ((path : Chars) × (requested_path query ≡ some path) × IsConfined roots path)
file-IsConfined_example = file-IsConfined host roots query answer (unfold file query roots in refl)

pct_decode-pct_encode_example :
    pct_decode (pct_encode (λ b. eqb b b'a') (as_bytes (b'a' ∷ 0xe9 ∷ 0x1f600 ∷ [])))
    ≡ some (b'a' ∷ 0xe9 ∷ 0x1f600 ∷ [])
pct_decode-pct_encode_example =
    pct_decode-pct_encode (λ b. eqb b b'a') (b'a' ∷ 0xe9 ∷ 0x1f600 ∷ []) (λ b h. ground (arith, h))
      (unfold IsText in
        (inl (omega arith), (inl (omega arith), (inr (omega arith, omega arith), tt))))

-- A byte that begins no character is replaced.
replaced : pct_decode (b'%' ∷ b'f' ∷ b'f' ∷ b'a' ∷ []) ≡ some (0xfffd ∷ b'a' ∷ [])
unfolding pct_decode
replaced = refl

body_field-json_escape_example :
    body_field
      (b'{'
        ∷ (quoted (b'k' ∷ [])
            ++ b':' ∷ b'"' ∷ (json_escape (b'"' ∷ 10 ∷ 7 ∷ []) ++ b'"' ∷ b'}' ∷ [])))
      (b'k' ∷ [])
    ≡ some (without_cr (b'"' ∷ 10 ∷ 7 ∷ []))
body_field-json_escape_example = body_field-json_escape (b'k' ∷ []) (b'"' ∷ 10 ∷ 7 ∷ []) (b'}' ∷ [])

b64_decode-b64_encode_example :
    b64_decode (b64_encode (255 ∷ 0 ∷ 7 ∷ 9 ∷ [])) ≡ some (255 ∷ 0 ∷ 7 ∷ 9 ∷ [])
b64_decode-b64_encode_example =
    b64_decode-b64_encode (255 ∷ 0 ∷ 7 ∷ 9 ∷ [])
      (unfold IsBytes in (omega arith, (omega arith, (omega arith, (omega arith, tt)))))

-- The first reply has no number, the second one is too low, the third one passes.
abbrev models : Models
unfolding codes
models = record {
  design = λ i b last. none;
  generate = λ i prompt. some (i ∷ []);
  reply = λ i path.
      if eqb i 1
      then some (codes "none")
      else if eqb i 2
      then some (codes "SCORE: 4 | dull")
      else some (codes "SCORE: 9 | fine");
}

concept-verdict_example :
    told (concept models none (some []) 9 4 1 (start (some [])))
    ≡ verdict 9 1 none (tries models none (some []) 9 4 1 (start (some [])))
concept-verdict_example = concept-verdict models none (some []) 9 4 1 (start (some []))

passes_at_three : told (concept models none (some []) 9 4 1 (start (some []))) ≡ inl (9, 3, 3 ∷ [])
unfolding concept models
passes_at_three = refl

abbrev shown : Chars
unfolding codes
shown = codes "see\n```diagram\nx\n```"

-- A reply in an outer fence, with white space around.
abbrev reply : Chars
unfolding codes repeat
reply =
    32 ∷ []
    ++ (repeat b'`' 3
        ++ (codes "markdown\n"
            ++ ((codes "see\n```diagram\nx\n``" ++ b'`' ∷ [])
                ++ (10 ∷ (repeat b'`' 3 ++ 10 ∷ [])))))

safe-Blocks_example :
    assistant_message_is_safe_to_store (λ t. true) reply
    ≡ not (any (is_bad (λ t. true)) (Blocks-total (split 10 shown)).0)
unfolding codes repeat
safe-Blocks_example =
    safe-Blocks (λ t. true) reply shown (Blocks-total (split 10 shown)).0
      (wrapped true 2 b'`' (32 ∷ []) (codes "see\n```diagram\nx\n``") (10 ∷ []) (omega arith)
        (unfold is_blank in refl) (unfold is_blank in refl) (unfold is_whitespace in refl))
      (Blocks-total (split 10 shown)).1

-- A diagram whose outer fence is not closed loses its own closing fence.
cut_short :
    assistant_message_is_safe_to_store (λ t. true) (codes "```markdown\n```diagram\nx\n```") ≡ false
unfolding codes assistant_message_is_safe_to_store
cut_short = refl
