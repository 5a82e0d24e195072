-- ===== src/Lib.antt =====
-- A verification library for the distributed audio system: audio frames travel as UDP packets between devices
-- that find one another by discovery messages and agree on sessions by control messages.
--
-- The parts, from the bottom up (sources are under src/, their types under include/distributed_audio/):
--
--   Prelude     names shared by all files: Boolean tests, lists, integers, bit operations, ordered maps.
--   Bytes       the big-endian writers and readers that the three codecs have in common. A reader is a
--               function to Option: `none` is a read past the end of the packet.
--   Audio       audio_format.hpp, audio_frame.cpp, timing_utils.cpp: formats, frames, the length of a frame.
--   Packet      packet_serializer.cpp, network_protocol.hpp: the codec of audio packets. The reads of
--               deserialize_audio_frame are `read_header`, its tests `check_header` and `check_sizes`, its
--               end `build_frame`.
--   Sequence    sequence_tracker.cpp: the receiver's account of lost, late and repeated packets.
--   Receiver    udp_receiver.cpp: what becomes of a datagram, over Packet and Sequence.
--   Jitter      jitter_buffer.cpp: frames go in by sequence number (`insert`) and come out in order (`pop`),
--               with silence or a repeated frame in place of one that is missing.
--   Queue       audio_buffer.cpp: the bounded queue between two threads. A call that waits on a condition
--               variable is taken at the moment it goes on; the calls are then a sequence, since each one
--               holds the mutex.
--   Identity    SessionId and DeviceId of audio_session.cpp and device_discovery.cpp.
--   Discovery   device_discovery.cpp: Discovery/Message the codec, with the parser in Discovery/Message/Read,
--               Discovery/Registry the devices that were seen, Discovery/Device their capabilities,
--               Discovery/Service the answers of a device, over all three.
--   Session     audio_session.cpp: Session/Config and Session/Message the codec, Session/State the states,
--               Session/Manager the sessions of a device and their answers to messages (Session/Manager/Expiry:
--               what time and lost devices do to them),
--               Session/Service the answers to datagrams, over Session/Manager and the codec.
--   Liveness    network_resilience.cpp, SessionLiveness: interruption of a session and attempts to recover.
--   AudioIo     audio_io.cpp: AudioIo/Capture and AudioIo/Playback the bounded buffers of the devices,
--               AudioIo/Mock the mock devices and their backend.
--   Float       what the code uses of float (`Float`), and of double with long double (`Floats`): operations
--               without laws. Float/Laws names the laws that the results on samples ask for, Float/Fixed is
--               an instance, numbers with a fixed point, on which the definitions are run.
--   Samples     pcm_conversion.cpp; Samples/Channels channel_mixer.cpp, Samples/Gain gain_processor.cpp,
--               Samples/Mixer audio_mixer.cpp, Samples/Meter audio_meter.cpp, Samples/Pipeline
--               dsp_pipeline.cpp, which is a conversion, a change of the channels, a gain and a measurement.
--   Clock       clock.cpp and the JitterEstimator of timing_utils.cpp; Clock/Estimator clock_estimator.cpp,
--               Clock/Scheduler playback_scheduler.cpp, Clock/Simulated simulated_playback.cpp.
--   Stream      audio_stream.cpp: packets of a session, and the sender of a stream, over Packet and Identity.
--               Stream/Receiver is the receiver, over Sequence, Jitter and Clock: `poll_receiver` takes what
--               the calls of recvfrom give, until one gives nothing; Stream/Receiver/Playback is
--               playback_step.
--   Resilience  network_resilience.cpp: the counters of a network and the adaptive jitter buffer;
--               Resilience/Run the deterministic run, over Impairment, Jitter and Liveness.
--   Synchronization  multi_device_sync.cpp: a simulated device, over Impairment, Jitter and Clock, with
--               `advance` in Synchronization/Advance; and in Synchronization/Controller the controller that
--               corrects the timing of several devices.
--   Impairment  network_impairment.cpp: the simulated network of the tests.
--
-- Conventions. A byte, and an integer of 16, 32 or 64 bits, is a natural number; what wraps around in the source
-- has the remainder written out (`add_u64`, `sub_u64`). Time points and durations are integers of nanoseconds,
-- without the bounds of std::int64_t, unless the definition says so. A string is the list of its bytes. A
-- std::map is a list of pairs ordered by its keys (Prelude/Map). An exception is an `err` or, where a
-- function has one exception only, a `none`, as the comment at the function says. Operations that
-- change an object return the new one beside their answer. There is no fuel: every loop is structural
-- recursion on a list, or on the number of values that a packet announces.
--
-- Floating-point numbers. The types are parameters with the operations that the code calls; a conversion to an
-- integer is an operation as well, so what the source leaves undefined there is whatever the instance gives. A
-- comparison is a Boolean operation, so NaN may be unordered. A result that needs a law takes it as a
-- hypothesis (`FloatLaws`), and the instance with a fixed point has the laws.
--
-- Not modelled: sockets and system calls (udp_socket.cpp, udp_sender.cpp, the constructors of the
-- services and of the receiver), whose answers are parameters where they matter; the PortAudio backend, the
-- command line and benchmarks (portaudio_backend.cpp, main.cpp, benchmark.cpp); SteadyClock, which reads the
-- clock of the system; SyntheticAudioSource in audio_stream.cpp; and texts of errors.

pub mod Prelude
pub mod Bytes
pub mod Audio
pub mod Packet
pub mod Samples
pub mod Sequence
pub mod Jitter
pub mod Identity
pub mod Discovery
pub mod Session
pub mod Queue
pub mod Liveness
pub mod Stream
pub mod Receiver
pub mod Impairment
pub mod AudioIo
pub mod Resilience
pub mod Synchronization
pub mod Clock
pub mod Float
