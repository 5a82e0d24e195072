-- ===== src/Session/State.antt =====
-- The states of a session, and the moves between them that `AudioSessionManager::transition` allows.
use distributed_audio_system.Prelude.{
  Bool, ap, arith, refl, true, ℕ, ◌&&◌, ◌<◌, ◌==◌, ◌||◌, ◌≡◌, ◌≤◌,
}

pub data AudioSessionState : Type 0 where
  idle negotiating established streaming stopping closed failed : AudioSessionState

-- The values of the enumeration.
abbrev pub state_code : AudioSessionState → ℕ
state_code idle = 0
state_code negotiating = 1
state_code established = 2
state_code streaming = 3
state_code stopping = 4
state_code closed = 5
state_code failed = 6

abbrev pub state_eq : AudioSessionState → AudioSessionState → Bool
state_eq a b = state_code a == state_code b

-- The test of `transition`.
unfoldable pub valid_transition : AudioSessionState → AudioSessionState → Bool
valid_transition current next =
    state_eq current negotiating && (state_eq next established || state_eq next failed)
    || state_eq current established
      && (state_eq next streaming || state_eq next stopping || state_eq next failed)
    || state_eq current streaming && (state_eq next stopping || state_eq next failed)
    || state_eq current stopping && state_eq next closed
    || state_eq current closed && state_eq next closed
    || state_eq current failed && state_eq next failed

-- One move of a session.
pub data Moves : AudioSessionState → AudioSessionState → Type 0 where
  confirm : Moves negotiating established
  refuse : Moves negotiating failed
  stream : Moves established streaming
  leave : Moves established stopping
  lose : Moves established failed
  halt : Moves streaming stopping
  break_ : Moves streaming failed
  finish : Moves stopping closed

pub data Reach (s : AudioSessionState) : AudioSessionState → Type 0 where
  here : Reach s s
  next : {t u : AudioSessionState} → Reach s t → Moves t u → Reach s u

pub Reach-trans : {s t u : AudioSessionState} → Reach s t → Reach t u → Reach s u
Reach-trans r here = r
Reach-trans r (next q m) = next (Reach-trans r q) m

pub valid_transition-Reach : (a b : AudioSessionState) → valid_transition a b ≡ true → Reach a b
unfolding valid_transition
valid_transition-Reach negotiating established h = next here confirm
valid_transition-Reach negotiating failed h = next here refuse
valid_transition-Reach established streaming h = next here stream
valid_transition-Reach established stopping h = next here leave
valid_transition-Reach established failed h = next here lose
valid_transition-Reach streaming stopping h = next here halt
valid_transition-Reach streaming failed h = next here break_
valid_transition-Reach stopping closed h = next here finish
valid_transition-Reach closed closed h = here
valid_transition-Reach failed failed h = here
valid_transition-Reach a b h = cc

Moves-code :
    {a b : AudioSessionState} → Moves a b → (state_code a < state_code b) × (state_code a < 5)
Moves-code confirm = (omega arith, omega arith)
Moves-code refuse = (omega arith, omega arith)
Moves-code stream = (omega arith, omega arith)
Moves-code leave = (omega arith, omega arith)
Moves-code lose = (omega arith, omega arith)
Moves-code halt = (omega arith, omega arith)
Moves-code break_ = (omega arith, omega arith)
Moves-code finish = (omega arith, omega arith)

-- A session that is closed or has failed stays so.
pub Reach-final : {a b : AudioSessionState} → Reach a b → 5 ≤ state_code a → b ≡ a
Reach-final here h = refl
Reach-final {a} (next {t} r m) h =
    let (up, open_) = Moves-code m in
    let same : state_code t ≡ state_code a = ap state_code (Reach-final r h) in absurd (omega arith)
