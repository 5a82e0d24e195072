-- ===== src/Session/Manager.antt =====
-- `AudioSessionManager` of src/audio_session.cpp. A time point is an integer of nanoseconds; the mutex
-- makes each operation one step.
pub mod Expiry
pub mod Lifecycle
pub mod Runs
pub mod Handshake
pub mod Replies
use distributed_audio_system.Audio.{AudioFormat}
use distributed_audio_system.Discovery.Device.{DeviceInfo, check_compatibility, contains}
use distributed_audio_system.Identity.{
  DeviceId, SessionId, device_eq, device_valid, session_from_u64, session_key, session_valid,
}
use distributed_audio_system.Prelude.{
  Bool, List, Option, [], false, if◌then◌else◌, map, none, not, some, ℕ, ◌&&◌, ◌||◌,
}
use distributed_audio_system.Prelude.Int.{ltb_ℤ, pos, ℤ}
use distributed_audio_system.Prelude.Map.{Map, assign, emplace, find}
use distributed_audio_system.Sequence.{add_u64}
use distributed_audio_system.Session.Config.{AudioSessionConfig, config_eq, config_is_valid}
use distributed_audio_system.Session.Message.{
  SessionControlMessage, SessionMessageType, SessionRejectReason, accept, ack, incompatible_format,
  is_offer, no_reason, offer, reject,
}
use distributed_audio_system.Session.State.{
  AudioSessionState, closed, established, failed, negotiating, state_eq, stopping, streaming,
  valid_transition,
}

pub record SessionInfo : Type 0 where
  pub id : SessionId
  pub local_device : DeviceId
  pub remote_device : DeviceId
  pub configuration : AudioSessionConfig
  pub state : AudioSessionState
  pub created_at : ℤ
  pub last_activity : ℤ
  pub failure_reason : SessionRejectReason

pub record AudioSessionManager : Type 0 where
  pub local_device : DeviceInfo
  pub negotiation_timeout : ℤ
  pub next_id : ℕ
  pub sessions : Map SessionId SessionInfo

-- The constructor; `none` is its exception.
unfoldable pub session_manager : DeviceInfo → ℤ → Option AudioSessionManager
session_manager local_device negotiation_timeout =
    if not (device_valid local_device.id) || not (ltb_ℤ (pos 0) negotiation_timeout)
    then none
    else some (record {
      local_device = local_device;
      negotiation_timeout = negotiation_timeout;
      next_id = 1;
      sessions = [];
    })

unfoldable pub supported : DeviceInfo → AudioFormat → Bool
supported device format =
    contains device.sample_rates format.sample_rate
    && contains device.channel_counts format.channel_count
    && contains device.bits_per_sample format.bits_per_sample

-- What `choose_configuration` puts together once the devices have a format in common.
abbrev pub offered : DeviceInfo → DeviceInfo → AudioFormat → AudioSessionConfig
offered local_device remote format = record {
  format = format;
  samples_per_frame = 240;
  sender = local_device.id;
  receiver = remote.id;
  sender_audio_port = local_device.audio_port;
  receiver_audio_port = remote.audio_port;
}

-- `compatible` says that the three values are there.
unfoldable pub choose_configuration : DeviceInfo → DeviceInfo → Option AudioSessionConfig
choose_configuration local_device remote =
    let compatibility = check_compatibility local_device remote in
    elim compatibility.sample_rate [
      | none ↦ none
      | some rate ↦ elim compatibility.channels [
        | none ↦ none
        | some channels ↦ elim compatibility.bits_per_sample [
          | none ↦ none
          | some bits ↦
              let config =
                offered local_device remote (record {
                  sample_rate = rate;
                  channel_count = channels;
                  bits_per_sample = bits;
                }) in
              if config_is_valid config then some config else none
        ]
      ]
    ]

abbrev pub new_session :
    SessionId → DeviceId → DeviceId → AudioSessionConfig → AudioSessionState → ℤ → SessionInfo
new_session id local_device remote config state now = record {
  id = id;
  local_device = local_device;
  remote_device = remote;
  configuration = config;
  state = state;
  created_at = now;
  last_activity = now;
  failure_reason = no_reason;
}

abbrev pub reply :
    SessionMessageType
    → SessionId
    → DeviceId
    → DeviceId
    → Option AudioSessionConfig
    → SessionRejectReason
    → SessionControlMessage
reply t id source destination config reason = record {
  type_ = t;
  session_id = id;
  source = source;
  destination = destination;
  configuration = config;
  reason = reason;
}

unfoldable pub create_offer :
    AudioSessionManager → DeviceInfo → ℤ → AudioSessionManager × Option SessionControlMessage
create_offer m remote now = elim (choose_configuration m.local_device remote) [
  | none ↦ (m, none)
  | some config ↦
      let id = session_from_u64 m.next_id in
      let mine = m.local_device.id in
      (
        record m {
          next_id = add_u64 m.next_id 1;
          sessions = emplace id (new_session id mine remote.id config negotiating now) m.sessions;
        },
        some (reply offer id mine remote.id (some config) no_reason),
      )
]

unfoldable pub transition : SessionInfo → AudioSessionState → SessionInfo
transition info to = if valid_transition info.state to then record info { state = to } else info

abbrev pub is_established : AudioSessionState → Bool
is_established s = state_eq s established || state_eq s streaming

-- `handle`, for an offer.
unfoldable pub handle_offer :
    AudioSessionManager
    → SessionControlMessage
    → AudioSessionConfig
    → ℤ
    → AudioSessionManager × Option SessionControlMessage
handle_offer m message config now =
    let mine = m.local_device.id in
    elim (find message.session_id m.sessions) [
      | some info ↦
          if is_established info.state
          then (
            m,
            some (
                reply accept message.session_id mine message.source (some info.configuration)
                  no_reason),
          )
          else (m, none)
      | none ↦ (
        record m {
          sessions =
              emplace message.session_id
                (new_session message.session_id mine message.source config established now)
                m.sessions;
        },
        some (reply accept message.session_id mine message.source (some config) no_reason),
      )
    ]

-- `message.configuration == info.configuration`.
abbrev pub same_config : Option AudioSessionConfig → AudioSessionConfig → Bool
same_config none config = false
same_config (some c) config = config_eq c config

-- The answer to a start and to a stop.
abbrev pub acknowledge : SessionInfo → DeviceId → SessionControlMessage
acknowledge info mine = reply ack info.id mine info.remote_device none no_reason

-- `handle`, for a message of the type given that is no offer, on the session that was found.
unfoldable pub react :
    DeviceId
    → SessionInfo
    → SessionControlMessage
    → SessionMessageType
    → SessionInfo × Option SessionControlMessage
react mine info message offer = (info, none)
react mine info message accept =
    if state_eq info.state negotiating && same_config message.configuration info.configuration
    then (transition info established, none)
    else (info, none)
react mine info message reject =
    if state_eq info.state negotiating
    then (transition (record info { failure_reason = message.reason }) failed, none)
    else (info, none)
react mine info message SessionMessageType.start =
    if is_established info.state
    then (transition info streaming, some (acknowledge info mine))
    else (info, none)
react mine info message SessionMessageType.stop =
    if is_established info.state || state_eq info.state stopping
    then (
      transition (if is_established info.state then transition info stopping else info) closed,
      some (acknowledge info mine),
    )
    else (info, none)
react mine info message ack =
    if state_eq info.state stopping then (transition info closed, none) else (info, none)

abbrev pub refuse_offer :
    AudioSessionManager → SessionControlMessage → AudioSessionManager × Option SessionControlMessage
refuse_offer m message = (
  m,
  some (reply reject message.session_id m.local_device.id message.source none incompatible_format),
)

unfoldable pub handle :
    AudioSessionManager
    → SessionControlMessage
    → ℤ
    → AudioSessionManager × Option SessionControlMessage
handle m message now =
    let mine = m.local_device.id in
    if not (device_eq message.destination mine) || not (session_valid message.session_id)
    then (m, none)
    else if is_offer message.type_
    then elim message.configuration [
      | none ↦ refuse_offer m message
      | some config ↦
          if device_eq message.source mine
            || not (supported m.local_device config.format)
            || not (config_is_valid config)
          then refuse_offer m message
          else handle_offer m message config now
    ]
    else elim (find message.session_id m.sessions) [
      | none ↦ (m, none)
      | some info ↦
          let answer = react mine (record info { last_activity = now }) message message.type_ in
          (record m { sessions = assign message.session_id answer.0 m.sessions }, answer.1)
    ]

unfoldable pub start :
    AudioSessionManager → SessionId → ℤ → AudioSessionManager × Option SessionControlMessage
start m id now = elim (find id m.sessions) [
  | none ↦ (m, none)
  | some info ↦
      if valid_transition info.state streaming
      then (
        record m {
          sessions =
              assign id (record (transition info streaming) { last_activity = now }) m.sessions;
        },
        some
            (reply SessionMessageType.start id m.local_device.id info.remote_device none no_reason),
      )
      else (m, none)
]

unfoldable pub stop :
    AudioSessionManager → SessionId → ℤ → AudioSessionManager × Option SessionControlMessage
stop m id now = elim (find id m.sessions) [
  | none ↦ (m, none)
  | some info ↦
      if is_established info.state
      then (
        record m {
          sessions =
              assign id (record (transition info stopping) { last_activity = now }) m.sessions;
        },
        some (reply SessionMessageType.stop id m.local_device.id info.remote_device none no_reason),
      )
      else (m, none)
]

unfoldable pub lookup : AudioSessionManager → SessionId → Option SessionInfo
lookup m id = find id m.sessions

-- `sessions()`.
unfoldable pub session_list : AudioSessionManager → List SessionInfo
session_list m = map (λ e. e.1) m.sessions
