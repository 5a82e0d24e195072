-- ===== src/Session/Manager/Runs.antt =====
-- Runs of the manager: any calls of its operations, in any order.

use distributed_audio_system.Discovery.Device.{DeviceInfo}
use distributed_audio_system.Identity.{DeviceId, SessionId, device_eq, session_key, session_valid}
use distributed_audio_system.Prelude.{
  Bool-cases, List, Option-cases, [], inl, inr, not, some, ◌||◌, ◌∷◌, ◌≡◌, ◌≤◌,
}
use distributed_audio_system.Prelude.Int.{ℤ}
use distributed_audio_system.Prelude.Map.{assign, emplace, find, find-emplace_kept}
use distributed_audio_system.Session.Config.{AudioSessionConfig, config_is_valid}
use distributed_audio_system.Session.Manager.{
  AudioSessionManager, SessionInfo, choose_configuration, create_offer, handle, handle_offer,
  is_established, start, stop, supported, transition,
}
use distributed_audio_system.Session.Manager.Expiry.{
  device_unavailable, expire, expire_session, lose_session,
}
use distributed_audio_system.Session.Manager.Lifecycle.{
  Continues-refl, Continues-trans, Kept, assign-Kept, find-update_all, if-Continues,
  react-Continues, touch, transition-Continues,
}
use distributed_audio_system.Session.Message.{
  SessionControlMessage, is_offer, remote_unavailable, timeout,
}
use distributed_audio_system.Session.State.{
  AudioSessionState, Reach-final, failed, state_code, stopping, streaming, valid_transition,
}

-- A call of an operation, at its time.
pub data Call : Type 0 where
  offer_to : DeviceInfo → ℤ → Call
  receive : SessionControlMessage → ℤ → Call
  start_at : SessionId → ℤ → Call
  stop_at : SessionId → ℤ → Call
  expire_at : ℤ → Call
  device_lost : DeviceId → ℤ → Call

abbrev pub call : AudioSessionManager → Call → AudioSessionManager
call m (offer_to remote now) = (create_offer m remote now).0
call m (receive message now) = (handle m message now).0
call m (start_at id now) = (start m id now).0
call m (stop_at id now) = (stop m id now).0
call m (expire_at now) = (expire m now).0
call m (device_lost id now) = device_unavailable m id now

pub calls : AudioSessionManager → List Call → AudioSessionManager
calls m [] = m
calls m (c ∷ cs) = calls (call m c) cs

module _ (m : AudioSessionManager) (id : SessionId) (i : SessionInfo)
    (e : find id m.sessions ≡ some i) where
  stays : Kept id i m.sessions
  stays = (i, e, Continues-refl i)

  emplaced : (k : SessionId) (v : SessionInfo) → Kept id i (emplace k v m.sessions)
  emplaced k v = (i, find-emplace_kept k id v i m.sessions e, Continues-refl i)

  create_offer-Kept :
      (remote : DeviceInfo) (now : ℤ) → Kept id i (create_offer m remote now).0.sessions
  unfolding create_offer
  create_offer-Kept remote now = elim (Option-cases (choose_configuration m.local_device remote)) [
    | inl nothing ↦ rw (nothing, create_offer) stays
    | inr (config, chosen) ↦ rw (chosen, create_offer) (emplaced _ _)
  ]

  handle_offer-Kept :
      (message : SessionControlMessage) (config : AudioSessionConfig) (now : ℤ)
      → Kept id i (handle_offer m message config now).0.sessions
  unfolding handle_offer
  handle_offer-Kept message config now = elim (Option-cases (find message.session_id m.sessions)) [
    | inl absent ↦ rw (absent, handle_offer) (emplaced _ _)
    | inr (info, present) ↦ elim (Bool-cases (is_established info.state)) [
      | inl up ↦ rw (present, up, handle_offer) stays
      | inr down ↦ rw (present, down, handle_offer) stays
    ]
  ]

  handle-Kept :
      (message : SessionControlMessage) (now : ℤ) → Kept id i (handle m message now).0.sessions
  unfolding handle
  handle-Kept message now =
      elim (Bool-cases (
        not (device_eq message.destination m.local_device.id)
        || not (session_valid message.session_id))) [
          | inl foreign ↦ simp foreign stays
          | inr ours ↦ elim (Bool-cases (is_offer message.type_)) [
            | inl offers ↦ elim (Option-cases message.configuration) [
              | inl nothing ↦ simp (ours, offers, nothing) stays
              | inr (config, has) ↦
                  elim (Bool-cases (
                    device_eq message.source m.local_device.id
                    || not (supported m.local_device config.format)
                    || not (config_is_valid config))) [
                      | inl refused ↦ simp (ours, offers, has, refused) stays
                      | inr taken ↦
                          simp (ours, offers, has, taken) (handle_offer-Kept message config now)
                    ]
            ]
            | inr other ↦ elim (Option-cases (find message.session_id m.sessions)) [
              | inl absent ↦ simp (ours, other, absent) stays
              | inr (info, present) ↦
                  simp (ours, other, present)
                    (assign-Kept m.sessions id message.session_id i info _ e present (
                      Continues-trans (touch info now info.failure_reason)
                        (react-Continues m.local_device.id _ message message.type_)))
            ]
          ]
        ]

  -- `start` and `stop`: a move to another state, at a later time.
  moved_on :
      (k : SessionId) (info : SessionInfo) (to : AudioSessionState) (now : ℤ)
      → find k m.sessions ≡ some info
      → Kept id i (assign k (record (transition info to) { last_activity = now }) m.sessions)
  moved_on k info to now present =
      assign-Kept m.sessions id k i info _ e present
        (Continues-trans (transition-Continues info to) (touch _ now _))

  start-Kept : (k : SessionId) (now : ℤ) → Kept id i (start m k now).0.sessions
  unfolding start
  start-Kept k now = elim (Option-cases (find k m.sessions)) [
    | inl absent ↦ rw (absent, start) stays
    | inr (info, present) ↦ elim (Bool-cases (valid_transition info.state streaming)) [
      | inl can ↦ rw (present, can, start) (moved_on k info streaming now present)
      | inr cannot ↦ rw (present, cannot, start) stays
    ]
  ]

  stop-Kept : (k : SessionId) (now : ℤ) → Kept id i (stop m k now).0.sessions
  unfolding stop
  stop-Kept k now = elim (Option-cases (find k m.sessions)) [
    | inl absent ↦ rw (absent, stop) stays
    | inr (info, present) ↦ elim (Bool-cases (is_established info.state)) [
      | inl can ↦ rw (present, can, stop) (moved_on k info stopping now present)
      | inr cannot ↦ rw (present, cannot, stop) stays
    ]
  ]

  expire-Kept : (now : ℤ) → Kept id i (expire m now).0.sessions
  unfolding expire
  expire-Kept now = (
    _,
    find-update_all (expire_session m.negotiation_timeout now) id m.sessions i e,
    if-Continues _ i _ i
        (Continues-trans (touch i i.last_activity timeout) (transition-Continues _ failed))
        (Continues-refl i),
  )

  device_unavailable-Kept :
      (device : DeviceId) (now : ℤ) → Kept id i (device_unavailable m device now).sessions
  unfolding device_unavailable
  device_unavailable-Kept device now = (
    _,
    find-update_all (lose_session device now) id m.sessions i e,
    if-Continues _ i _ i
        (Continues-trans (touch i now remote_unavailable) (transition-Continues _ failed))
        (Continues-refl i),
  )

  call-Kept : (c : Call) → Kept id i (call m c).sessions
  call-Kept (offer_to remote now) = create_offer-Kept remote now
  call-Kept (receive message now) = handle-Kept message now
  call-Kept (start_at k now) = start-Kept k now
  call-Kept (stop_at k now) = stop-Kept k now
  call-Kept (expire_at now) = expire-Kept now
  call-Kept (device_lost device now) = device_unavailable-Kept device now

-- A session that the manager has is there after any calls of the manager's operations, with the same
-- parties, configuration and time of creation, in a state that the transitions lead to.
pub calls-Kept :
    (m : AudioSessionManager) (cs : List Call) (id : SessionId) (i : SessionInfo)
    → find id m.sessions ≡ some i
    → Kept id i (calls m cs).sessions
unfolding calls
calls-Kept m [] id i e = (i, e, Continues-refl i)
calls-Kept m (c ∷ cs) id i e =
    let (j, f, p) = call-Kept m id i e c in
    let (k, g, q) = calls-Kept (call m c) cs id j f in (k, g, Continues-trans p q)

-- A session that is closed or has failed is still so after any calls of the manager's operations.
pub calls_final :
    (m : AudioSessionManager) (cs : List Call) (id : SessionId) (i : SessionInfo)
    → find id m.sessions ≡ some i
    → 5 ≤ state_code i.state
    → (j : SessionInfo) × (find id (calls m cs).sessions ≡ some j) × (j.state ≡ i.state)
calls_final m cs id i e final =
    let (j, f, p) = calls-Kept m cs id i e in (j, f, Reach-final p.moved final)
