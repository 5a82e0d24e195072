-- ===== src/Session/Manager/Lifecycle.antt =====
-- One session of AudioSessionManager (src/audio_session.cpp) before and after an operation.
use distributed_audio_system.Identity.{DeviceId, SessionId, session_eq, session_eq_iff, session_key}
use distributed_audio_system.Prelude.{
  Bool, Bool-cases, Option, [], ap, arith, false, if◌then◌else◌, inl, inr, refl, some, subst, sym,
  true, ◌∙◌, ◌∷◌, ◌≡◌,
}
use distributed_audio_system.Prelude.Int.{ℤ}
use distributed_audio_system.Prelude.Map.{Map, assign, find, find-assign}
use distributed_audio_system.Session.Manager.{SessionInfo, is_established, react, transition}
use distributed_audio_system.Session.Manager.Expiry.{update_all}
use distributed_audio_system.Session.Message.{
  SessionControlMessage, SessionMessageType, SessionRejectReason, accept, ack, offer, reject,
}
use distributed_audio_system.Session.State.{
  AudioSessionState, Reach, Reach-trans, closed, established, failed, here, stopping, streaming,
  valid_transition, valid_transition-Reach,
}

-- The same session at a later time.
pub record Continues (i j : SessionInfo) : Type 0 where
  pub same_id : j.id ≡ i.id
  pub same_local : j.local_device ≡ i.local_device
  pub same_remote : j.remote_device ≡ i.remote_device
  pub same_configuration : j.configuration ≡ i.configuration
  pub same_creation : j.created_at ≡ i.created_at
  pub moved : Reach i.state j.state

-- A change of the time and of the reason is none of the session.
pub touch :
    (i : SessionInfo) (now : ℤ) (r : SessionRejectReason)
    → Continues i (record i { last_activity = now; failure_reason = r })
touch i now r = record {
  same_id = refl;
  same_local = refl;
  same_remote = refl;
  same_configuration = refl;
  same_creation = refl;
  moved = here;
}

pub Continues-refl : (i : SessionInfo) → Continues i i
Continues-refl i = touch i i.last_activity i.failure_reason

pub Continues-trans : {i j k : SessionInfo} → Continues i j → Continues j k → Continues i k
Continues-trans p q = record {
  same_id = q.same_id ∙ p.same_id;
  same_local = q.same_local ∙ p.same_local;
  same_remote = q.same_remote ∙ p.same_remote;
  same_configuration = q.same_configuration ∙ p.same_configuration;
  same_creation = q.same_creation ∙ p.same_creation;
  moved = Reach-trans p.moved q.moved;
}

pub transition-Continues :
    (i : SessionInfo) (to : AudioSessionState) → Continues i (transition i to)
unfolding transition
transition-Continues i to = elim (Bool-cases (valid_transition i.state to)) [
  | inl e ↦ simp e (record {
    same_id = refl;
    same_local = refl;
    same_remote = refl;
    same_configuration = refl;
    same_creation = refl;
    moved = valid_transition-Reach i.state to e;
  })
  | inr e ↦ simp e (Continues-refl i)
]

-- One of two sessions.
pub if-Continues :
    (b : Bool) (i j k : SessionInfo)
    → Continues i j
    → Continues i k
    → Continues i (if b then j else k)
if-Continues true i j k p q = p
if-Continues false i j k p q = q

-- Either of two outcomes.
if-Continues_pair :
    (b : Bool) (i : SessionInfo) (x y : SessionInfo × Option SessionControlMessage)
    → Continues i x.0
    → Continues i y.0
    → Continues i (if b then x else y).0
if-Continues_pair true i x y p q = p
if-Continues_pair false i x y p q = q

pub react-Continues :
    (mine : DeviceId) (i : SessionInfo) (m : SessionControlMessage) (t : SessionMessageType)
    → Continues i (react mine i m t).0
unfolding react
react-Continues mine i m offer = Continues-refl i
react-Continues mine i m accept =
    if-Continues_pair _ i _ _ (transition-Continues i established) (Continues-refl i)
react-Continues mine i m reject =
    if-Continues_pair _ i _ _
      (Continues-trans (touch i i.last_activity m.reason) (transition-Continues _ failed))
      (Continues-refl i)
react-Continues mine i m SessionMessageType.start =
    if-Continues_pair _ i _ _ (transition-Continues i streaming) (Continues-refl i)
react-Continues mine i m SessionMessageType.stop =
    if-Continues_pair _ i _ _
      (Continues-trans
        (if-Continues (is_established i.state) i _ i (transition-Continues i stopping)
          (Continues-refl i))
        (transition-Continues _ closed))
      (Continues-refl i)
react-Continues mine i m ack =
    if-Continues_pair _ i _ _ (transition-Continues i closed) (Continues-refl i)

-- The map has a later state of the session under the same key.
abbrev pub Kept : SessionId → SessionInfo → Map SessionId SessionInfo → Type 0
Kept id i sessions = (j : SessionInfo) × (find id sessions ≡ some j) × Continues i j

pub assign-Kept :
    (sessions : Map SessionId SessionInfo) (id k : SessionId) (i info v : SessionInfo)
    → find id sessions ≡ some i
    → find k sessions ≡ some info
    → Continues info v
    → Kept id i (assign k v sessions)
assign-Kept sessions id k i info v e f c = elim (Bool-cases (session_eq k id)) [
  | inl same ↦
      let p : info ≡ i =
        let both : some info ≡ some i =
          sym f ∙ ap (λ x. find x sessions) ((session_eq_iff k id).0 same) ∙ e in
        cc in
      (v, find-assign k id v sessions info f ∙ rw same refl, subst (λ x. Continues x v) p c)
  | inr other ↦ (i, find-assign k id v sessions info f ∙ rw other e, Continues-refl i)
]

-- A session survives the loop, as what the loop makes of it.
pub find-update_all :
    (f : SessionInfo → SessionInfo) (id : SessionId) (sessions : Map SessionId SessionInfo)
    (i : SessionInfo)
    → find id sessions ≡ some i
    → find id (update_all f sessions) ≡ some (f i)
unfolding find update_all
find-update_all f id [] i e = cc
find-update_all f id ((k, info) ∷ m) i e = ground (arith, find-update_all f id m i)
