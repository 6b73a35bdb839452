-- ===== src/Shell/Bridge/Silence.antt =====
-- What the screens hear of a prompt from app/app/src/backend/octos_ui.rs, in a loop over events.
use octos_one.Prelude.{
  ◌≡◌, refl, inl, inr, false, Option, none, some, List, [], ◌∷◌, ◌++◌, arith, nat_eq, string_eq,
  Option-cases, any, ◌||◌,
}
use octos_one.Prelude.Map.{get, get-remove}
use octos_one.Store.Ids.{TurnId, DateTime, UiCursor}
use octos_one.Store.Events.{turn_completed, TurnCompletedEvent}
use octos_one.Store.Model.{AppState}
use octos_one.Shell.Bridge.{Agent, PromptId}
use octos_one.Shell.Bridge.Mapping.{IsMapped, forget_prompt-IsMapped}
use octos_one.Shell.Bridge.Events.{
  Inbound, connection_state, capability_negotiated, session_open, rpc_error, durable_notification,
  ephemeral_notification, session_hydrated, plain, translate, translate_notification, end_turn,
  forget_prompt, AgentEvent, turn_complete, handle_event,
}
use octos_one.Shell.Bridge.Quiet.{IsGone, is_heard, quiet_blame, notified-IsGone, quiet_notified}

unmoved :
    (p : PromptId) (a b : Agent)
    → b.turn_ids ≡ a.turn_ids
    → b.prompt_ids ≡ a.prompt_ids
    → b.prompt_sessions ≡ a.prompt_sessions
    → IsGone p a
    → IsGone p b
unmoved p a b t i s g = record {
  mapped = record {
    forth = rw (t, i) g.mapped.forth;
    back = rw (t, i) g.mapped.back;
    owned = rw (t, s) g.mapped.owned;
  };
  gone = rw t g.gone;
}

translate-IsGone :
    (p : PromptId) (now : DateTime) (ev : Inbound) (a : Agent) (st : AppState)
    → IsGone p a
    → IsGone p (translate now ev a st).agent
unfolding translate
translate-IsGone p now (connection_state s) a st g = unmoved p a _ refl refl refl g
translate-IsGone p now (capability_negotiated caps) a st g = unmoved p a _ refl refl refl g
translate-IsGone p now (session_open key) a st g = elim (Option-cases (get key a.session_ids)) [
  | inl h ↦ rw (h, translate) g
  | inr (sid, h) ↦ rw (h, translate) (unmoved p a _ refl refl refl g)
]
translate-IsGone p now (durable_notification n c) a st g = notified-IsGone p n a g
translate-IsGone p now (ephemeral_notification n) a st g = notified-IsGone p n a g
translate-IsGone p now (session_hydrated key none) a st g =
    elim (Option-cases (get key a.session_ids)) [
      | inl h ↦ rw (h, translate) g
      | inr (sid, h) ↦ rw (h, translate) g
    ]
translate-IsGone p now (session_hydrated key (some rows)) a st g =
    elim (Option-cases (get key a.session_ids)) [
      | inl h ↦ rw (h, translate) g
      | inr (sid, h) ↦ rw (h, translate) g
    ]
translate-IsGone p now _ a st g = g

quiet_translate :
    (p : PromptId) (now : DateTime) (ev : Inbound) (a : Agent) (st : AppState)
    → IsGone p a
    → is_heard p (translate now ev a st).events ≡ false
unfolding translate any
quiet_translate p now (session_open key) a st g = elim (Option-cases (get key a.session_ids)) [
  | inl h ↦ rw (h, translate) refl
  | inr (sid, h) ↦ rw (h, translate) refl
]
quiet_translate p now (rpc_error method message code) a st g = quiet_blame p method _ a g
quiet_translate p now (durable_notification n c) a st g = quiet_notified p n a g
quiet_translate p now (ephemeral_notification n) a st g = quiet_notified p n a g
quiet_translate p now (session_hydrated key none) a st g =
    elim (Option-cases (get key a.session_ids)) [
      | inl h ↦ rw (h, translate) refl
      | inr (sid, h) ↦ rw (h, translate) refl
    ]
quiet_translate p now (session_hydrated key (some rows)) a st g =
    elim (Option-cases (get key a.session_ids)) [
      | inl h ↦ rw (h, translate) refl
      | inr (sid, h) ↦ rw (h, translate) refl
    ]
quiet_translate p now _ a st g = refl

any-append :
    (p : PromptId) (xs ys : List AgentEvent)
    → is_heard p (xs ++ ys) ≡ is_heard p xs || is_heard p ys
unfolding any
any-append p [] ys = refl
any-append p (x ∷ xs) ys = ground (arith, any-append p xs ys)

quiet_handle_event :
    (p : PromptId) (now : DateTime) (evs : List Inbound) (a : Agent) (st : AppState)
    → IsGone p a
    → is_heard p (handle_event now evs a st).events ≡ false
unfolding handle_event any
quiet_handle_event p now [] a st g = refl
quiet_handle_event p now (ev ∷ evs) a st g =
    let here = translate now ev a st in
    rw
      (
        any-append p here.events (handle_event now evs here.agent here.store).events,
        quiet_translate p now ev a st g,
      )
      (quiet_handle_event p now evs here.agent here.store (translate-IsGone p now ev a st g))

forget_prompt-IsGone :
    (p : PromptId) (t : TurnId) (a : Agent)
    → get t a.prompt_ids ≡ some p
    → IsMapped a
    → IsGone p (forget_prompt t p a)
unfolding forget_prompt
forget_prompt-IsGone p t a h m = record {
  mapped = forget_prompt-IsMapped t p a h m;
  gone = ground (arith, get-remove p p a.turn_ids, nat_eq.same_iff p p);
}

-- If the agent's maps agree and it knows the prompt of a turn that completes, the screens hear the
-- end of that prompt once, and nothing of that prompt in any of the events that come after it.
pub events-turn_completed :
    (now : DateTime) (ev : TurnCompletedEvent) (c : Option UiCursor) (evs : List Inbound)
    (p : PromptId) (a : Agent) (st : AppState)
    → IsMapped a
    → get ev.turn_id a.prompt_ids ≡ some p
    → (rest : List AgentEvent) × ((handle_event now
          (durable_notification (plain (turn_completed ev)) c ∷ evs)
          a
          st).events
        ≡ turn_complete p ∷ rest)
      × (is_heard p rest ≡ false)
unfolding handle_event translate translate_notification end_turn
events-turn_completed now ev c evs p a st m h =
    rw (h, end_turn)
      (
        (handle_event now evs (forget_prompt ev.turn_id p a) _).events,
        refl,
        quiet_handle_event p now evs (forget_prompt ev.turn_id p a) _
            (forget_prompt-IsGone p ev.turn_id a h m),
      )
