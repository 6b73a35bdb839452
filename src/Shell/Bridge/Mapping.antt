-- ===== src/Shell/Bridge/Mapping.antt =====
-- The maps of prompts and turns of app/app/src/backend/octos_ui.rs.
use octos_one.Prelude.{
  ◌≡◌, inl, inr, none, some, [], ◌∷◌, arith, if◌then◌else◌, nat_eq, string_eq, ◌==◌, String,
  Option-cases,
}
use octos_one.Prelude.Map.{get, get-insert, get-remove, insert, Map}
use octos_one.Store.Ids.{SessionKey, TurnId}
use octos_one.Shell.Bridge.{Agent, PromptId, SessionId, send_prompt, cancel_prompt, interrupt_turn}
use octos_one.Shell.Bridge.Events.{AgentEvent, end_turn, forget_prompt}

-- A prompt and its turn are found from each other, and no prompt without a turn has a session.
pub record IsMapped (a : Agent) : Type 0 where
  pub forth : (p : PromptId) (t : TurnId) → get p a.turn_ids ≡ some t → get t a.prompt_ids ≡ some p
  pub back : (p : PromptId) (t : TurnId) → get t a.prompt_ids ≡ some p → get p a.turn_ids ≡ some t
  pub owned : (p : PromptId) → get p a.turn_ids ≡ none → get p a.prompt_sessions ≡ none

pub forget_prompt-IsMapped :
    (t : TurnId) (p : PromptId) (a : Agent)
    → get t a.prompt_ids ≡ some p
    → IsMapped a
    → IsMapped (forget_prompt t p a)
unfolding forget_prompt
forget_prompt-IsMapped t p a h m = record {
  forth = λ q u e. ground (
    arith,
    get-remove p q a.turn_ids,
    get-remove t u a.prompt_ids,
    nat_eq.same_iff p q,
    nat_eq.same_iff t u,
    m.forth q u,
    m.back p t,
  );
  back = λ q u e. ground (
    arith,
    get-remove p q a.turn_ids,
    get-remove t u a.prompt_ids,
    nat_eq.same_iff p q,
    nat_eq.same_iff t u,
    m.back q u,
    m.forth q u,
    m.back p t,
  );
  owned = λ q e. ground (
    arith,
    get-remove p q a.turn_ids,
    get-remove p q a.prompt_sessions,
    nat_eq.same_iff p q,
    m.owned q,
  );
}

pub end_turn-IsMapped :
    (t : TurnId) (f : PromptId → AgentEvent) (a : Agent) → IsMapped a → IsMapped (end_turn t f a).0
unfolding end_turn
end_turn-IsMapped t f a m = elim (Option-cases (get t a.prompt_ids)) [
  | inl h ↦ rw (h, end_turn) m
  | inr (p, h) ↦ rw (h, end_turn) (forget_prompt-IsMapped t p a h m)
]

-- The three maps after a prompt with fresh identifiers.
told-IsMapped :
    (p : PromptId) (t : TurnId) (sessions : Map PromptId SessionKey) (a : Agent)
    → get p a.turn_ids ≡ none
    → get t a.prompt_ids ≡ none
    → IsMapped a
    → ((q : PromptId) → get q a.prompt_sessions ≡ none → ¬ (p ≡ q) → get q sessions ≡ none)
    → IsMapped (record a {
      turn_ids = insert p t a.turn_ids;
      prompt_ids = insert t p a.prompt_ids;
      prompt_sessions = sessions;
    })
told-IsMapped p t sessions a fp ft m s = record {
  forth = λ q u e. ground (
    arith,
    get-insert p q t a.turn_ids,
    get-insert t u p a.prompt_ids,
    nat_eq.same_iff p q,
    nat_eq.same_iff t u,
    m.forth q u,
  );
  back = λ q u e. ground (
    arith,
    get-insert p q t a.turn_ids,
    get-insert t u p a.prompt_ids,
    nat_eq.same_iff p q,
    nat_eq.same_iff t u,
    m.back q u,
  );
  owned = λ q e. ground (arith, get-insert p q t a.turn_ids, nat_eq.same_iff p q, m.owned q, s q);
}

pub send_prompt-IsMapped :
    (p : PromptId) (t : TurnId) (s : SessionId) (text : String) (a : Agent)
    → get p a.turn_ids ≡ none
    → get t a.prompt_ids ≡ none
    → IsMapped a
    → IsMapped (send_prompt p t s text a).0
unfolding send_prompt
send_prompt-IsMapped p t s text a fp ft m = elim (Option-cases (get s a.session_keys)) [
  | inl h ↦ rw (h, send_prompt) (told-IsMapped p t a.prompt_sessions a fp ft m (λ q e ne. e))
  | inr (k, h) ↦
      rw (h, send_prompt)
        (told-IsMapped p t (insert p k a.prompt_sessions) a fp ft m
          (λ q e ne. ground (arith, get-insert p q k a.prompt_sessions, nat_eq.same_iff p q)))
]

-- After a prompt to a session whose key is known, cancelling that prompt interrupts its turn in that
-- session, and cancelling another does what it did before.
pub cancel_prompt-send_prompt :
    (p q : PromptId) (t : TurnId) (s : SessionId) (k : SessionKey) (text : String) (a : Agent)
    → get s a.session_keys ≡ some k
    → cancel_prompt q (send_prompt p t s text a).0
      ≡ (if p == q then interrupt_turn k t ∷ [] else cancel_prompt q a)
unfolding send_prompt cancel_prompt
cancel_prompt-send_prompt p q t s k text a h =
    rw (h, send_prompt)
      (ground (arith, get-insert p q t a.turn_ids, get-insert p q k a.prompt_sessions))
