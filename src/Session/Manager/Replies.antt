-- ===== src/Session/Manager/Replies.antt =====
-- The messages that AudioSessionManager (src/audio_session.cpp) answers with, and whether they can be sent.

use distributed_audio_system.Identity.{
  DeviceId, SessionId, device_eq, device_valid, session_eq, session_eq_iff, session_key,
  session_valid,
}
use distributed_audio_system.Identity.Laws.{IsIdentity}
use distributed_audio_system.Prelude.{
  All, Bool, Bool-cases, OfOption, Option, Option-cases, ap, false, if◌then◌else◌, inl, inr, none,
  not, refl, some, subst, sym, true, ◌&&◌, ◌||◌, ◌∙◌, ◌≡◌,
}
use distributed_audio_system.Prelude.Int.{ℤ}
use distributed_audio_system.Prelude.Map.{All-assign, All-find, All-place, emplace, find}
use distributed_audio_system.Session.Config.{AudioSessionConfig, config_is_valid}
use distributed_audio_system.Session.Manager.{
  AudioSessionManager, SessionInfo, acknowledge, handle, handle_offer, is_established, new_session,
  react, reply, same_config, supported, transition,
}
use distributed_audio_system.Session.Manager.Lifecycle.{Continues, react-Continues, touch}
use distributed_audio_system.Session.Message.{
  SessionControlMessage, SessionMessageType, accept, ack, incompatible_format, is_offer, no_reason,
  offer, reject,
}
use distributed_audio_system.Session.Message.Shape.{
  ConfigFits, MessageFits, MessageValid, has_reason,
}
use distributed_audio_system.Session.State.{
  closed, established, failed, negotiating, state_eq, stopping, streaming,
}

-- A session under its id, with what a packet about it needs.
pub record Sound (k : SessionId) (i : SessionInfo) : Type 0 where
  pub same_id : i.id ≡ k
  pub id_valid : session_valid k ≡ true
  pub id_fits : IsIdentity k.bytes
  pub remote_valid : device_valid i.remote_device ≡ true
  pub remote_fits : IsIdentity i.remote_device.bytes
  pub config_valid : config_is_valid i.configuration ≡ true
  pub config_fits : ConfigFits i.configuration

abbrev pub SoundEntry : SessionId × SessionInfo → Type 0
SoundEntry (k, i) = Sound k i

pub record ManagerInv (m : AudioSessionManager) : Type 0 where
  pub local_valid : device_valid m.local_device.id ≡ true
  pub local_fits : IsIdentity m.local_device.id.bytes
  pub sound : All SoundEntry m.sessions

-- A message that the serializer takes.
pub record Writable (m : SessionControlMessage) : Type 0 where
  pub valid : MessageValid m
  pub fits : MessageFits m
  pub reasoned : has_reason m ≡ true

pub Continues-Sound : (k : SessionId) (i j : SessionInfo) → Continues i j → Sound k i → Sound k j
Continues-Sound k i j c s = record {
  same_id = c.same_id ∙ s.same_id;
  id_valid = s.id_valid;
  id_fits = s.id_fits;
  remote_valid = ap device_valid c.same_remote ∙ s.remote_valid;
  remote_fits = subst (λ (d : DeviceId). IsIdentity d.bytes) (sym c.same_remote) s.remote_fits;
  config_valid = ap config_is_valid c.same_configuration ∙ s.config_valid;
  config_fits = subst ConfigFits (sym c.same_configuration) s.config_fits;
}

if-Writable :
    (b : Bool) (x y : SessionInfo × Option SessionControlMessage)
    → OfOption Writable x.1
    → OfOption Writable y.1
    → OfOption Writable (if b then x else y).1
if-Writable true x y p q = p
if-Writable false x y p q = q

module _ (m : AudioSessionManager) (v : ManagerInv m) where
  acknowledge-Writable :
      (k : SessionId) (i : SessionInfo) → Sound k i → Writable (acknowledge i m.local_device.id)
  acknowledge-Writable k i s = record {
    valid = record {
      session_id_valid = ap session_valid s.same_id ∙ s.id_valid;
      source_valid = v.local_valid;
      destination_valid = s.remote_valid;
      presence = refl;
      config_valid = tt;
    };
    fits = record {
      session_fits = subst (λ (d : SessionId). IsIdentity d.bytes) (sym s.same_id) s.id_fits;
      source_fits = v.local_fits;
      destination_fits = s.remote_fits;
      config_fits = tt;
    };
    reasoned = refl;
  }

  react-Writable :
      (k : SessionId) (i : SessionInfo) (message : SessionControlMessage) (t : SessionMessageType)
      → Sound k i
      → OfOption Writable (react m.local_device.id i message t).1
  unfolding react
  react-Writable k i message offer s = tt
  react-Writable k i message accept s =
      if-Writable
        (state_eq i.state negotiating && same_config message.configuration i.configuration)
        (transition i established, none) (i, none) tt tt
  react-Writable k i message reject s =
      if-Writable (state_eq i.state negotiating)
        (transition (record i { failure_reason = message.reason }) failed, none) (i, none) tt tt
  react-Writable k i message SessionMessageType.start s =
      if-Writable (is_established i.state)
        (transition i streaming, some (acknowledge i m.local_device.id)) (i, none)
        (acknowledge-Writable k i s) tt
  react-Writable k i message SessionMessageType.stop s =
      if-Writable (is_established i.state || state_eq i.state stopping)
        (
          transition (if is_established i.state then transition i stopping else i) closed,
          some (acknowledge i m.local_device.id),
        )
        (i, none) (acknowledge-Writable k i s) tt
  react-Writable k i message ack s =
      if-Writable (state_eq i.state stopping) (transition i closed, none) (i, none) tt tt

  accept-Writable :
      (message : SessionControlMessage) (config : AudioSessionConfig)
      → MessageValid message
      → MessageFits message
      → config_is_valid config ≡ true
      → ConfigFits config
      → Writable
          (reply accept message.session_id m.local_device.id message.source (some config) no_reason)
  accept-Writable message config mv mf cv cf = record {
    valid = record {
      session_id_valid = mv.session_id_valid;
      source_valid = v.local_valid;
      destination_valid = mv.source_valid;
      presence = refl;
      config_valid = cv;
    };
    fits = record {
      session_fits = mf.session_fits;
      source_fits = v.local_fits;
      destination_fits = mf.source_fits;
      config_fits = cf;
    };
    reasoned = refl;
  }

  reject-Writable :
      (message : SessionControlMessage)
      → MessageValid message
      → MessageFits message
      → Writable (
          reply reject message.session_id m.local_device.id message.source none incompatible_format)
  reject-Writable message mv mf = record {
    valid = record {
      session_id_valid = mv.session_id_valid;
      source_valid = v.local_valid;
      destination_valid = mv.source_valid;
      presence = refl;
      config_valid = tt;
    };
    fits = record {
      session_fits = mf.session_fits;
      source_fits = v.local_fits;
      destination_fits = mf.source_fits;
      config_fits = tt;
    };
    reasoned = refl;
  }

  emplace-ManagerInv :
      (k : SessionId) (i : SessionInfo)
      → find k m.sessions ≡ none
      → Sound k i
      → ManagerInv (record m { sessions = emplace k i m.sessions })
  unfolding emplace
  emplace-ManagerInv k i absent s =
      rw (absent, emplace)
        (record {
          local_valid = v.local_valid;
          local_fits = v.local_fits;
          sound = All-place SoundEntry k i m.sessions s v.sound;
        })

  handle_offer-Inv :
      (message : SessionControlMessage) (config : AudioSessionConfig) (now : ℤ)
      → MessageValid message
      → MessageFits message
      → config_is_valid config ≡ true
      → ConfigFits config
      → ManagerInv (handle_offer m message config now).0
        × OfOption Writable (handle_offer m message config now).1
  unfolding handle_offer
  handle_offer-Inv message config now mv mf cv cf =
      elim (Option-cases (find message.session_id m.sessions)) [
        | inl absent ↦
            rw (absent, handle_offer)
              (
                emplace-ManagerInv message.session_id
                    (new_session message.session_id m.local_device.id message.source config
                      established now)
                    absent
                    (record {
                      same_id = refl;
                      id_valid = mv.session_id_valid;
                      id_fits = mf.session_fits;
                      remote_valid = mv.source_valid;
                      remote_fits = mf.source_fits;
                      config_valid = cv;
                      config_fits = cf;
                    }),
                accept-Writable message config mv mf cv cf,
              )
        | inr (i, present) ↦
            let s = All-find SoundEntry message.session_id m.sessions v.sound present in
            elim (Bool-cases (is_established i.state)) [
              | inl up ↦
                  rw (present, up, handle_offer)
                    (v, accept-Writable message i.configuration mv mf s.config_valid s.config_fits)
              | inr down ↦ rw (present, down, handle_offer) (v, tt)
            ]
      ]

  -- Every answer to a message that the parser accepts can be sent, and the invariant is kept.
  pub handle-Inv :
      (message : SessionControlMessage) (now : ℤ)
      → MessageValid message
      → MessageFits message
      → ManagerInv (handle m message now).0 × OfOption Writable (handle m message now).1
  unfolding handle
  handle-Inv message now mv mf =
      elim (Bool-cases (
        not (device_eq message.destination m.local_device.id)
        || not (session_valid message.session_id))) [
          | inl foreign ↦ simp foreign (v, tt)
          | inr ours ↦ elim (Bool-cases (is_offer message.type_)) [
            | inl offers ↦ elim (Option-cases message.configuration) [
              | inl nothing ↦ simp (ours, offers, nothing) (v, reject-Writable message mv mf)
              | inr (config, has) ↦
                  elim (Bool-cases (
                    device_eq message.source m.local_device.id
                    || not (supported m.local_device config.format)
                    || not (config_is_valid config))) [
                      | inl refused ↦
                          simp (ours, offers, has, refused) (v, reject-Writable message mv mf)
                      | inr taken ↦
                          simp (ours, offers, has, taken)
                            (handle_offer-Inv message config now mv mf
                              (subst (OfOption (λ c. config_is_valid c ≡ true)) has mv.config_valid)
                              (subst (OfOption ConfigFits) has mf.config_fits))
                    ]
            ]
            | inr other ↦ elim (Option-cases (find message.session_id m.sessions)) [
              | inl absent ↦ simp (ours, other, absent) (v, tt)
              | inr (i, present) ↦
                  let s = All-find SoundEntry message.session_id m.sessions v.sound present in
                  let touched =
                    Continues-Sound message.session_id i _ (touch i now i.failure_reason) s in
                  let changed =
                    (react m.local_device.id (record i { last_activity = now }) message
                      message.type_).0 in
                  simp (ours, other, present)
                    (
                      record {
                        local_valid = v.local_valid;
                        local_fits = v.local_fits;
                        sound =
                            All-assign SoundEntry message.session_id changed m.sessions
                              (λ (j : SessionId) (same : session_eq j message.session_id ≡ true).
                                subst (λ (x : SessionId). Sound x changed)
                                  (sym ((session_eq_iff j message.session_id).0 same))
                                  (Continues-Sound message.session_id _ _
                                    (react-Continues m.local_device.id _ message message.type_)
                                    touched))
                              v.sound;
                      },
                      react-Writable message.session_id _ message message.type_ touched,
                    )
            ]
          ]
        ]
