-- ===== src/Session/Manager/Handshake.antt =====
-- The messages between two AudioSessionManagers (src/audio_session.cpp) about a new session.
use distributed_audio_system.Audio.{format_eq}
use distributed_audio_system.Discovery.Device.{
  DeviceInfo, check_compatibility, first_common, first_common_lem,
}
use distributed_audio_system.Identity.{
  DeviceId, SessionId, device_eq, device_eq_iff, session_eq, session_eq_iff, session_from_u64,
  session_key, session_valid,
}
use distributed_audio_system.Identity.Laws.{session_from_u64_lem}
use distributed_audio_system.Prelude.{
  Option-cases, arith, false, inl, inr, none, refl, some, true, ◌<◌, ◌^◌, ◌∙◌, ◌≡◌,
}
use distributed_audio_system.Prelude.Int.{ℤ}
use distributed_audio_system.Prelude.Map.{emplace, find, find-assign, find-emplace_new}
use distributed_audio_system.Sequence.{add_u64}
use distributed_audio_system.Session.Config.{AudioSessionConfig, config_eq, config_is_valid}
use distributed_audio_system.Session.Manager.{
  AudioSessionManager, SessionInfo, choose_configuration, create_offer, handle, handle_offer,
  new_session, react, reply, supported, transition,
}
use distributed_audio_system.Session.Message.{SessionControlMessage, accept, no_reason, offer}
use distributed_audio_system.Session.State.{established, negotiating, valid_transition}

config_eq_refl : (c : AudioSessionConfig) → config_eq c c ≡ true
unfolding config_eq format_eq
config_eq_refl c =
    let sender = (device_eq_iff c.sender c.sender).1 refl in
    let receiver = (device_eq_iff c.receiver c.receiver).1 refl in ground (arith, sender, receiver)

-- A configuration that is chosen is valid, and the other device supports its format.
choose_configuration-supported :
    (mine theirs : DeviceInfo) (config : AudioSessionConfig)
    → choose_configuration mine theirs ≡ some config
    → (config_is_valid config ≡ true) × (supported theirs config.format ≡ true)
unfolding choose_configuration check_compatibility supported
choose_configuration-supported mine theirs config e =
    elim (Option-cases (first_common mine.sample_rates theirs.sample_rates)) [
      | inl lost ↦ absurd (ground (arith, e, lost))
      | inr (rate, has_rate) ↦
          elim (Option-cases (first_common mine.channel_counts theirs.channel_counts)) [
            | inl lost ↦ absurd (ground (arith, e, has_rate, lost))
            | inr (channels, has_channels) ↦
                elim (Option-cases (first_common mine.bits_per_sample theirs.bits_per_sample)) [
                  | inl lost ↦ absurd (ground (arith, e, has_rate, has_channels, lost))
                  | inr (bits, has_bits) ↦
                      let r =
                        (first_common_lem mine.sample_rates theirs.sample_rates rate has_rate).1 in
                      let c =
                        (first_common_lem mine.channel_counts theirs.channel_counts channels
                          has_channels).1 in
                      let b =
                        (first_common_lem mine.bits_per_sample theirs.bits_per_sample bits
                          has_bits).1 in
                      (
                        ground (arith, e, has_rate, has_channels, has_bits),
                        ground (arith, e, has_rate, has_channels, has_bits, r, c, b),
                      )
                ]
          ]
    ]

-- The session is established, with that device and that configuration.
abbrev pub Agreed : AudioSessionManager → SessionId → DeviceId → AudioSessionConfig → Type 0
Agreed m id remote config =
    (i : SessionInfo) × (find id m.sessions ≡ some i)
    × (i.state ≡ established)
    × (i.remote_device ≡ remote)
    × (i.configuration ≡ config)

handle_offer-Agreed :
    (m : AudioSessionManager) (id : SessionId) (source destination : DeviceId)
    (config : AudioSessionConfig) (now : ℤ)
    → find id m.sessions ≡ none
    → ((handle_offer m (reply offer id source destination (some config) no_reason) config now).1
        ≡ some (reply accept id m.local_device.id source (some config) no_reason))
      × Agreed
          (handle_offer m (reply offer id source destination (some config) no_reason) config now).0
          id
          source
          config
unfolding handle_offer
handle_offer-Agreed m id source destination config now absent =
    let self : session_eq id id ≡ true = (session_eq_iff id id).1 refl in
    let info = new_session id m.local_device.id source config established now in
    rw (absent, handle_offer)
      (refl, (info, find-emplace_new id id info m.sessions absent ∙ rw self refl, refl, refl, refl))

-- An offer of an unknown session is accepted.
offer-Agreed :
    (m : AudioSessionManager) (id : SessionId) (source : DeviceId) (config : AudioSessionConfig)
    (now : ℤ)
    → session_valid id ≡ true
    → device_eq source m.local_device.id ≡ false
    → supported m.local_device config.format ≡ true
    → config_is_valid config ≡ true
    → find id m.sessions ≡ none
    → ((handle m (reply offer id source m.local_device.id (some config) no_reason) now).1
        ≡ some (reply accept id m.local_device.id source (some config) no_reason))
      × Agreed
          (handle m (reply offer id source m.local_device.id (some config) no_reason) now).0
          id
          source
          config
unfolding handle
offer-Agreed m id source config now valid other can good absent =
    let mine : device_eq m.local_device.id m.local_device.id ≡ true =
      (device_eq_iff m.local_device.id m.local_device.id).1 refl in
    simp (mine, valid, other, can, good)
      (handle_offer-Agreed m id source m.local_device.id config now absent)

-- An acceptance of a session that is negotiated establishes it.
accept-Agreed :
    (m : AudioSessionManager) (id : SessionId) (source : DeviceId) (info : SessionInfo) (now : ℤ)
    → session_valid id ≡ true
    → find id m.sessions ≡ some info
    → info.state ≡ negotiating
    → ((handle m
          (reply accept id source m.local_device.id (some info.configuration) no_reason)
          now).1
        ≡ none)
      × Agreed
          (handle m
            (reply accept id source m.local_device.id (some info.configuration) no_reason)
            now).0
          id
          info.remote_device
          info.configuration
unfolding handle react transition valid_transition
accept-Agreed m id source info now valid present waits =
    let mine : device_eq m.local_device.id m.local_device.id ≡ true =
      (device_eq_iff m.local_device.id m.local_device.id).1 refl in
    let self : session_eq id id ≡ true = (session_eq_iff id id).1 refl in
    let same = config_eq_refl info.configuration in
    let up : SessionInfo = record info { last_activity = now; state = established } in
    simp (mine, valid, present, waits, same)
      (refl, (up, find-assign id id up m.sessions info present ∙ rw self refl, refl, refl, refl))

-- When two different devices have a configuration in common, and the id of the next session is
-- made from a number of 64 bits and new to both, an offer, its acceptance and the receipt of the
-- acceptance leave both with that session, established, under the chosen configuration.
pub create_offer-handle-Agreed :
    (a b : AudioSessionManager) (config : AudioSessionConfig) (offered_at taken_at done_at : ℤ)
    → choose_configuration a.local_device b.local_device ≡ some config
    → device_eq a.local_device.id b.local_device.id ≡ false
    → a.next_id < 2 ^ 64
    → find (session_from_u64 a.next_id) a.sessions ≡ none
    → find (session_from_u64 a.next_id) b.sessions ≡ none
    → (o r : SessionControlMessage) × ((create_offer a b.local_device offered_at).1 ≡ some o)
      × ((handle b o taken_at).1 ≡ some r)
      × ((handle (create_offer a b.local_device offered_at).0 r done_at).1 ≡ none)
      × Agreed (handle b o taken_at).0 (session_from_u64 a.next_id) a.local_device.id config
      × Agreed
          (handle (create_offer a b.local_device offered_at).0 r done_at).0
          (session_from_u64 a.next_id)
          b.local_device.id
          config
unfolding create_offer
create_offer-handle-Agreed a b config offered_at taken_at done_at chosen apart range new_a new_b =
    let id = session_from_u64 a.next_id in
    let mine = a.local_device.id in
    let theirs = b.local_device.id in
    let valid = (session_from_u64_lem a.next_id a.next_id range range).0 in
    let (good, can) = choose_configuration-supported a.local_device b.local_device config chosen in
    let info = new_session id mine theirs config negotiating offered_at in
    let offering : AudioSessionManager = record a {
      next_id = add_u64 a.next_id 1;
      sessions = emplace id info a.sessions;
    } in
    let self : session_eq id id ≡ true = (session_eq_iff id id).1 refl in
    let there : find id offering.sessions ≡ some info =
      find-emplace_new id id info a.sessions new_a ∙ rw self refl in
    let (answered, taken) = offer-Agreed b id mine config taken_at valid apart can good new_b in
    let (silent, settled) = accept-Agreed offering id theirs info done_at valid there refl in
    (
      reply offer id mine theirs (some config) no_reason,
      reply accept id theirs mine (some config) no_reason,
      rw (chosen, create_offer) refl,
      answered,
      rw (chosen, create_offer) silent,
      taken,
      rw (chosen, create_offer) settled,
    )
