-- ===== src/Session/Tests.antt =====
-- An offer, its packet, and a manager with one session, on which the theorems are used.
use distributed_audio_system.Audio.{format_is_valid}
use distributed_audio_system.Bytes.{
  append_bytes, append_u16, append_u32, append_u8, read_bytes, read_n, read_u16, read_u32, read_u8,
}
use distributed_audio_system.Bytes.Laws.{all_bytes-IsByte}
use distributed_audio_system.Discovery.Device.{
  DeviceInfo, check_compatibility, contains, first_common,
}
use distributed_audio_system.Identity.{
  DeviceId, SessionId, any_nonzero, device_eq, device_valid, session_from_u64, session_key,
  session_valid,
}
use distributed_audio_system.Prelude.{
  List, [], arith, false, length, list_eq, none, ok, refl, some, true, ℕ, ◌∷◌, ◌≡◌, ◌≤◌,
}
use distributed_audio_system.Prelude.Int.{pos}
use distributed_audio_system.Prelude.Map.{emplace, find, place}
use distributed_audio_system.Session.Config.{AudioSessionConfig, config_is_valid}
use distributed_audio_system.Session.Manager.{
  AudioSessionManager, SessionInfo, choose_configuration, create_offer, handle, handle_offer, reply,
  supported,
}
use distributed_audio_system.Session.Manager.Handshake.{Agreed, create_offer-handle-Agreed}
use distributed_audio_system.Session.Manager.Lifecycle.{Kept}
use distributed_audio_system.Session.Manager.Replies.{ManagerInv}
use distributed_audio_system.Session.Manager.Runs.{
  calls, calls-Kept, calls_final, device_lost, expire_at, receive, start_at, stop_at,
}
use distributed_audio_system.Session.Message.{
  SessionControlMessage, accept, append_config, check_body, check_header,
  deserialize_session_message, finish_packet, message_payload, no_reason, offer, parse_config,
  read_body, read_config, read_header, reason_code, reason_of_code, serialize_session_message,
  type_code, type_of_code,
}
use distributed_audio_system.Session.Message.Parse.{parsed}
use distributed_audio_system.Session.Message.RoundTrip.{
  session_parse-serialize, session_serialize-parse,
}
use distributed_audio_system.Session.Message.Shape.{ConfigFits, MessageFits}
use distributed_audio_system.Session.Service.{SessionControlService, poll}
use distributed_audio_system.Session.Service.Polls.{session_poll_total}
use distributed_audio_system.Session.State.{AudioSessionState, closed, established}

abbrev sender_id : DeviceId
sender_id = record { bytes = 218 ∷ 0 ∷ 0 ∷ 0 ∷ 0 ∷ 0 ∷ 0 ∷ 0 ∷ 0 ∷ 0 ∷ 0 ∷ 0 ∷ 0 ∷ 0 ∷ 0 ∷ 1 ∷ [] }

abbrev receiver_id : DeviceId
receiver_id = record {
  bytes = 218 ∷ 0 ∷ 0 ∷ 0 ∷ 0 ∷ 0 ∷ 0 ∷ 0 ∷ 0 ∷ 0 ∷ 0 ∷ 0 ∷ 0 ∷ 0 ∷ 0 ∷ 2 ∷ [];
}

abbrev first_id : SessionId
first_id = record { bytes = 83 ∷ 0 ∷ 0 ∷ 0 ∷ 0 ∷ 0 ∷ 0 ∷ 0 ∷ 0 ∷ 0 ∷ 0 ∷ 0 ∷ 0 ∷ 0 ∷ 0 ∷ 1 ∷ [] }

abbrev sample_config : AudioSessionConfig
sample_config = record {
  format = record { sample_rate = 48_000; channel_count = 2; bits_per_sample = 16 };
  samples_per_frame = 240;
  sender = sender_id;
  receiver = receiver_id;
  sender_audio_port = 5_000;
  receiver_audio_port = 5_001;
}

abbrev sample_offer : SessionControlMessage
sample_offer = record {
  type_ = offer;
  session_id = first_id;
  source = sender_id;
  destination = receiver_id;
  configuration = some sample_config;
  reason = no_reason;
}

abbrev offer_packet : List ℕ
offer_packet =
    83 ∷ 69 ∷ 83 ∷ 49 ∷ 1 ∷ 1 ∷ 0 ∷ 0 ∷ 0 ∷ 0 ∷ 0 ∷ 98 ∷ 83 ∷ 0 ∷ 0 ∷ 0 ∷ 0 ∷ 0 ∷ 0 ∷ 0 ∷ 0 ∷ 0 ∷ 0
    ∷ 0 ∷ 0 ∷ 0 ∷ 0 ∷ 1 ∷ 218 ∷ 0 ∷ 0 ∷ 0 ∷ 0 ∷ 0 ∷ 0 ∷ 0 ∷ 0 ∷ 0 ∷ 0 ∷ 0 ∷ 0 ∷ 0 ∷ 0 ∷ 1 ∷ 218 ∷ 0
    ∷ 0 ∷ 0 ∷ 0 ∷ 0 ∷ 0 ∷ 0 ∷ 0 ∷ 0 ∷ 0 ∷ 0 ∷ 0 ∷ 0 ∷ 0 ∷ 2 ∷ 0 ∷ 1 ∷ 218 ∷ 0 ∷ 0 ∷ 0 ∷ 0 ∷ 0 ∷ 0
    ∷ 0 ∷ 0 ∷ 0 ∷ 0 ∷ 0 ∷ 0 ∷ 0 ∷ 0 ∷ 1 ∷ 218 ∷ 0 ∷ 0 ∷ 0 ∷ 0 ∷ 0 ∷ 0 ∷ 0 ∷ 0 ∷ 0 ∷ 0 ∷ 0 ∷ 0 ∷ 0
    ∷ 0 ∷ 2 ∷ 0 ∷ 0 ∷ 187 ∷ 128 ∷ 0 ∷ 2 ∷ 0 ∷ 16 ∷ 0 ∷ 0 ∷ 0 ∷ 240 ∷ 19 ∷ 136 ∷ 19 ∷ 137 ∷ []

sample_config-ConfigFits : ConfigFits sample_config
sample_config-ConfigFits = record {
  format_fits = record {
    rate_fits = omega arith;
    channels_fit = omega arith;
    bits_fit = omega arith;
  };
  samples_fit = omega arith;
  sender_fits = (refl, all_bytes-IsByte sender_id.bytes refl);
  receiver_fits = (refl, all_bytes-IsByte receiver_id.bytes refl);
  sender_port_fits = omega arith;
  receiver_port_fits = omega arith;
}

sample_offer-MessageFits : MessageFits sample_offer
sample_offer-MessageFits = record {
  session_fits = (refl, all_bytes-IsByte first_id.bytes refl);
  source_fits = (refl, all_bytes-IsByte sender_id.bytes refl);
  destination_fits = (refl, all_bytes-IsByte receiver_id.bytes refl);
  config_fits = sample_config-ConfigFits;
}

serialize_offer : serialize_session_message sample_offer ≡ ok offer_packet
unfolding serialize_session_message session_valid device_valid any_nonzero config_is_valid
    format_is_valid message_payload append_config finish_packet append_u8 append_u16 append_u32
    append_bytes reason_code type_code
serialize_offer = refl

session_parse-serialize_example :
    deserialize_session_message offer_packet ≡ some (parsed sample_offer)
session_parse-serialize_example =
    session_parse-serialize sample_offer offer_packet sample_offer-MessageFits serialize_offer

parse_offer : deserialize_session_message offer_packet ≡ some (parsed sample_offer)
unfolding deserialize_session_message read_header read_u8 read_u16 read_u32 read_bytes check_header
    read_body read_n check_body session_valid device_valid any_nonzero type_of_code reason_of_code
    parse_config read_config config_is_valid format_is_valid
parse_offer = refl

session_serialize-parse_example : serialize_session_message sample_offer ≡ ok offer_packet
session_serialize-parse_example =
    session_serialize-parse offer_packet sample_offer (all_bytes-IsByte offer_packet refl)
      parse_offer refl

abbrev local_info : DeviceInfo
local_info = record {
  id = receiver_id;
  name = 114 ∷ [];
  protocol_version = 1;
  address = [];
  sample_rates = 48_000 ∷ [];
  channel_counts = 2 ∷ [];
  bits_per_sample = 16 ∷ [];
  audio_port = 5_001;
  discovery_port = 5_002;
}

-- A session in the given state.
abbrev session_in : AudioSessionState → SessionInfo
session_in s = record {
  id = first_id;
  local_device = receiver_id;
  remote_device = sender_id;
  configuration = sample_config;
  state = s;
  created_at = pos 0;
  last_activity = pos 0;
  failure_reason = no_reason;
}

abbrev manager_in : AudioSessionState → AudioSessionManager
manager_in s = record {
  local_device = local_info;
  negotiation_timeout = pos 100;
  next_id = 1;
  sessions = (first_id, session_in s) ∷ [];
}

-- The handling of the offer by a manager that has no session yet.
handle-sample_offer :
    handle (record (manager_in established) { sessions = [] }) sample_offer (pos 0) ≡ (
      manager_in established,
      some (reply accept first_id receiver_id sender_id (some sample_config) no_reason),
    )
unfolding handle handle_offer list_eq session_valid any_nonzero supported contains config_is_valid
    format_is_valid device_valid find emplace place
handle-sample_offer = refl

found : (s : AudioSessionState) → find first_id (manager_in s).sessions ≡ some (session_in s)
unfolding find list_eq
found s = refl

calls-Kept_example :
    Kept first_id
      (session_in established)
      (calls
        (manager_in established)
        (start_at first_id (pos 1) ∷ stop_at first_id (pos 2) ∷ expire_at (pos 500) ∷ [])).sessions
calls-Kept_example =
    calls-Kept (manager_in established)
      (start_at first_id (pos 1) ∷ stop_at first_id (pos 2) ∷ expire_at (pos 500) ∷ []) first_id
      (session_in established) (found established)

calls_final_example :
    (j : SessionInfo) × (find first_id
        (calls
          (manager_in closed)
          (receive sample_offer (pos 3) ∷ device_lost sender_id (pos 4) ∷ [])).sessions
      ≡ some j)
    × (j.state ≡ closed)
calls_final_example =
    calls_final (manager_in closed)
      (receive sample_offer (pos 3) ∷ device_lost sender_id (pos 4) ∷ []) first_id
      (session_in closed) (found closed) (omega arith)

abbrev fresh_manager : DeviceInfo → AudioSessionManager
fresh_manager info = record {
  local_device = info;
  negotiation_timeout = pos 100;
  next_id = 1;
  sessions = [];
}

abbrev remote_info : DeviceInfo
remote_info = record local_info { id = sender_id }

abbrev agreed_config : AudioSessionConfig
agreed_config = record sample_config { sender_audio_port = 5_001; receiver_audio_port = 5_001 }

choose_sample : choose_configuration remote_info local_info ≡ some agreed_config
unfolding choose_configuration check_compatibility first_common contains config_is_valid
    format_is_valid device_valid any_nonzero
choose_sample = refl

absent_in_fresh :
    (info : DeviceInfo) → find (session_from_u64 1) (fresh_manager info).sessions ≡ none
unfolding find
absent_in_fresh info = refl

apart_devices : device_eq sender_id receiver_id ≡ false
unfolding list_eq
apart_devices = refl

create_offer-handle-Agreed_example :
    (o r : SessionControlMessage) × ((create_offer (fresh_manager remote_info) local_info (pos 1)).1
      ≡ some o)
    × ((handle (fresh_manager local_info) o (pos 2)).1 ≡ some r)
    × ((handle (create_offer (fresh_manager remote_info) local_info (pos 1)).0 r (pos 3)).1 ≡ none)
    × Agreed
        (handle (fresh_manager local_info) o (pos 2)).0
        (session_from_u64 1)
        sender_id
        agreed_config
    × Agreed
        (handle (create_offer (fresh_manager remote_info) local_info (pos 1)).0 r (pos 3)).0
        (session_from_u64 1)
        receiver_id
        agreed_config
create_offer-handle-Agreed_example =
    create_offer-handle-Agreed (fresh_manager remote_info) (fresh_manager local_info) agreed_config
      (pos 1) (pos 2) (pos 3) choose_sample apart_devices (omega arith)
      (absent_in_fresh remote_info) (absent_in_fresh local_info)

manager_in-ManagerInv : (s : AudioSessionState) → ManagerInv (manager_in s)
unfolding session_valid device_valid any_nonzero config_is_valid format_is_valid
manager_in-ManagerInv s = record {
  local_valid = refl;
  local_fits = (refl, all_bytes-IsByte receiver_id.bytes refl);
  sound = (
    record {
      same_id = refl;
      id_valid = refl;
      id_fits = (refl, all_bytes-IsByte first_id.bytes refl);
      remote_valid = refl;
      remote_fits = (refl, all_bytes-IsByte sender_id.bytes refl);
      config_valid = refl;
      config_fits = sample_config-ConfigFits;
    },
    tt,
  );
}

abbrev sample_service : SessionControlService
sample_service = record { manager = manager_in established; stopped = false }

session_poll_total_example :
    (last : SessionControlService) × (n : ℕ) × (replies : List (ℕ × List ℕ)) × (poll
        (λ address. true)
        (λ address packet. some (length packet))
        sample_service
        (pos 5)
        ((9, offer_packet) ∷ [])
      ≡ some (ok (last, n, replies)))
    × (length replies ≤ n)
    × (n ≤ 1)
    × ManagerInv last.manager
session_poll_total_example =
    session_poll_total (λ (address : ℕ). true)
      (λ (address : ℕ) (packet : List ℕ). some (length packet)) (pos 5) sample_service
      ((9, offer_packet) ∷ []) refl (manager_in-ManagerInv established)
      (all_bytes-IsByte offer_packet refl, tt)
