-- ===== src/Shell/Bridge/Quiet.antt =====
-- A prompt that the maps of app/app/src/backend/octos_ui.rs do not hold: no notification and no error
-- makes an event of it.
use octos_one.Prelude.{
  ◌≡◌, refl, inl, inr, Bool, false, Bool-cases, Option, none, some, List, [], ◌∷◌, arith, nat_eq,
  string_eq, ◌==◌, String, Option-cases, any,
}
use octos_one.Prelude.Chars.{is_blank}
use octos_one.Prelude.Text.{codes}
use octos_one.Prelude.Map.{Map, get, get-remove, values}
use octos_one.Store.Ids.{SessionKey, TurnId}
use octos_one.Store.Events.{
  message_delta, reasoning_delta, tool_started, turn_completed, turn_error,
}
use octos_one.Shell.Bridge.{Agent, PromptId}
use octos_one.Shell.Bridge.Mapping.{IsMapped, end_turn-IsMapped}
use octos_one.Shell.Bridge.Events.{
  Payload, plain, assistant_persisted, translate_notification, end_turn, forget_prompt, AgentEvent,
  session_ready, session_error, prompt_error, text_delta, thinking_delta, text_authoritative,
  tool_request, turn_complete, for_prompt, first, prompt_of_session, blame,
}

-- Whether an event is of a prompt.
abbrev pub is_of : PromptId → AgentEvent → Bool
is_of p (session_ready s) = false
is_of p (session_error s msg) = false
is_of p (prompt_error q msg) = q == p
is_of p (text_delta q text) = q == p
is_of p (thinking_delta q text) = q == p
is_of p (text_authoritative q text) = q == p
is_of p (tool_request q id name input) = q == p
is_of p (turn_complete q) = q == p

-- A prompt that the agent does not know any more.
pub record IsGone (p : PromptId) (a : Agent) : Type 0 where
  pub mapped : IsMapped a
  pub gone : get p a.turn_ids ≡ none

abbrev pub is_heard : PromptId → List AgentEvent → Bool
is_heard p evs = any (λ ev. is_of p ev) evs

-- A prompt that a map of the agent leads to is not a prompt that is gone.
found_other :
    (p q : PromptId) (t : TurnId) (a : Agent)
    → IsGone p a
    → get t a.prompt_ids ≡ some q
    → (q == p) ≡ false
found_other p q t a g h = ground (arith, g.gone, g.mapped.back q t, nat_eq.same_iff q p)

get-first :
    (m : Map TurnId PromptId) (q : PromptId)
    → first (values m) ≡ some q
    → (t : TurnId) × (get t m ≡ some q)
unfolding get
get-first [] q e = cc
get-first ((t, r) ∷ m) q e = (t, ground (arith, nat_eq.same_iff t t))

owner_known :
    (p : PromptId) (key : SessionKey) (m : Map PromptId SessionKey)
    → get p m ≡ none
    → prompt_of_session key m ≡ some p
    → ⊥
unfolding get prompt_of_session
owner_known p key [] h e = cc
owner_known p key ((q, k) ∷ m) h e = ground (arith, nat_eq.same_iff q p, owner_known p key m)

quiet_for :
    (p : PromptId) (f : PromptId → AgentEvent) (o : Option PromptId)
    → ((q : PromptId) → is_of p (f q) ≡ (q == p))
    → ((q : PromptId) → o ≡ some q → (q == p) ≡ false)
    → is_heard p (for_prompt f o) ≡ false
unfolding any
quiet_for p f none fq h = refl
quiet_for p f (some q) fq h = rw (fq q, h q refl) refl

quiet_for_turn :
    (p : PromptId) (f : PromptId → AgentEvent) (t : TurnId) (a : Agent)
    → ((q : PromptId) → is_of p (f q) ≡ (q == p))
    → IsGone p a
    → is_heard p (for_prompt f (get t a.prompt_ids)) ≡ false
quiet_for_turn p f t a fq g = quiet_for p f (get t a.prompt_ids) fq (λ q e. found_other p q t a g e)

quiet_first :
    (p : PromptId) (msg : String) (a : Agent)
    → IsGone p a
    → is_heard p (for_prompt (λ q. prompt_error q msg) (first (values a.prompt_ids))) ≡ false
quiet_first p msg a g =
    quiet_for p _ (first (values a.prompt_ids)) (λ q. refl)
      (λ q e. let (t, h) = get-first a.prompt_ids q e in found_other p q t a g h)

pub quiet_blame :
    (p : PromptId) (method msg : String) (a : Agent)
    → IsGone p a
    → is_heard p (blame method msg a) ≡ false
unfolding blame any
quiet_blame p method msg a g = elim (Bool-cases (method == "session/open")) [
  | inl h ↦ elim (Option-cases (first a.session_keys)) [
    | inl n ↦ rw (h, n, blame) (quiet_first p msg a g)
    | inr (entry, s) ↦ rw (h, s, blame) refl
  ]
  | inr h ↦ rw (h, blame) (quiet_first p msg a g)
]

pub end_turn-IsGone :
    (p : PromptId) (t : TurnId) (f : PromptId → AgentEvent) (a : Agent)
    → IsGone p a
    → IsGone p (end_turn t f a).0
unfolding end_turn forget_prompt
end_turn-IsGone p t f a g = record {
  mapped = end_turn-IsMapped t f a g.mapped;
  gone = elim (Option-cases (get t a.prompt_ids)) [
    | inl h ↦ rw (h, end_turn) g.gone
    | inr (q, h) ↦ rw (h, end_turn) (ground (arith, get-remove q p a.turn_ids, g.gone))
  ];
}

quiet_end :
    (p : PromptId) (t : TurnId) (f : PromptId → AgentEvent) (a : Agent)
    → ((q : PromptId) → is_of p (f q) ≡ (q == p))
    → IsGone p a
    → is_heard p (end_turn t f a).1 ≡ false
unfolding end_turn any
quiet_end p t f a fq g = elim (Option-cases (get t a.prompt_ids)) [
  | inl h ↦ rw (h, end_turn) refl
  | inr (q, h) ↦ rw (h, end_turn) (rw (fq q, found_other p q t a g h) refl)
]

pub notified-IsGone :
    (p : PromptId) (n : Payload) (a : Agent) → IsGone p a → IsGone p (translate_notification n a).0
unfolding translate_notification
notified-IsGone p (assistant_persisted key text) a g = elim (Bool-cases (is_blank (codes text))) [
  | inl h ↦ rw (h, translate_notification) g
  | inr h ↦ rw (h, translate_notification) g
]
notified-IsGone p (plain (turn_completed ev)) a g = end_turn-IsGone p ev.turn_id _ a g
notified-IsGone p (plain (turn_error ev)) a g = end_turn-IsGone p ev.turn_id _ a g
notified-IsGone p (plain _) a g = g

pub quiet_notified :
    (p : PromptId) (n : Payload) (a : Agent)
    → IsGone p a
    → is_heard p (translate_notification n a).1 ≡ false
unfolding translate_notification any
quiet_notified p (assistant_persisted key text) a g = elim (Bool-cases (is_blank (codes text))) [
  | inl h ↦ rw (h, translate_notification) refl
  | inr h ↦
      rw (h, translate_notification)
        (quiet_for p _ (prompt_of_session key a.prompt_sessions) (λ q. refl)
          (λ q e. ground (
            arith,
            nat_eq.same_iff q p,
            g.mapped.owned p,
            g.gone,
            owner_known p key a.prompt_sessions,
          )))
]
quiet_notified p (plain (message_delta ev)) a g = quiet_for_turn p _ ev.turn_id a (λ q. refl) g
quiet_notified p (plain (reasoning_delta ev)) a g = quiet_for_turn p _ ev.turn_id a (λ q. refl) g
quiet_notified p (plain (tool_started ev)) a g = quiet_for_turn p _ ev.turn_id a (λ q. refl) g
quiet_notified p (plain (turn_completed ev)) a g = quiet_end p ev.turn_id _ a (λ q. refl) g
quiet_notified p (plain (turn_error ev)) a g = quiet_end p ev.turn_id _ a (λ q. refl) g
quiet_notified p (plain _) a g = refl
