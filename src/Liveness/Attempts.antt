-- ===== src/Liveness/Attempts.antt =====
-- How often a peer is tried, and what ends it.
use distributed_audio_system.Liveness.{
  RecoveryConfig, SessionLiveness, is_final, peer_available, should_retry, stop, update,
  valid_traffic,
}
use distributed_audio_system.Prelude.{
  All, Bool, List, [], ap, arith, false, if◌then◌else◌, not, refl, true, ℕ, ◌+◌, ◌∷◌, ◌≡◌, ◌≤◌,
}
use distributed_audio_system.Prelude.Int.{ℤ}

-- A call of an operation, at its time.
pub data Call : Type 0 where
  traffic : ℤ → Call
  availability : Bool → ℤ → Call
  passing : ℤ → Call
  retrying : ℤ → Call
  stopping : Call

abbrev pub call : SessionLiveness → Call → SessionLiveness
call l (traffic now) = valid_traffic l now
call l (availability a now) = peer_available l a now
call l (passing now) = update l now
call l (retrying now) = (should_retry l now).0
call l stopping = stop l

unfoldable pub calls : SessionLiveness → List Call → SessionLiveness
calls l [] = l
calls l (c ∷ cs) = calls (call l c) cs

-- One for a retry that is allowed.
abbrev pub retry_of : SessionLiveness → Call → ℕ
retry_of l (retrying now) = if (should_retry l now).1 then 1 else 0
retry_of l _ = 0

pub retries : SessionLiveness → List Call → ℕ
retries l [] = 0
retries l (c ∷ cs) = retry_of l c + retries (call l c) cs

-- The peer is not heard of.
abbrev pub is_silent : Call → Bool
is_silent (traffic now) = false
is_silent (availability a now) = not a
is_silent _ = true

abbrev pub IsSilent : Call → Type 0
IsSilent c = is_silent c ≡ true

call-attempts :
    (l : SessionLiveness) (c : Call)
    → IsSilent c
    → l.attempts ≤ l.config.maximum_attempts
    → ((call l c).attempts ≡ retry_of l c + l.attempts)
      × ((call l c).attempts ≤ (call l c).config.maximum_attempts)
      × ((call l c).config ≡ l.config)
unfolding valid_traffic update peer_available stop should_retry
call-attempts l (traffic now) s h = cc
call-attempts l (availability a now) s h = (ground arith, ground arith, ground arith)
call-attempts l (passing now) s h = (ground arith, ground arith, ground arith)
call-attempts l (retrying now) s h = (ground arith, ground arith, ground arith)
call-attempts l stopping s h = (ground arith, ground arith, refl)

-- While the peer is not heard of, the retries that are allowed are counted, and with those before
-- they are at most the maximum of the configuration, whatever is called and when. To begin with
-- the attempts are no more than that.
pub calls-retries :
    (l : SessionLiveness) (cs : List Call)
    → All IsSilent cs
    → l.attempts ≤ l.config.maximum_attempts
    → ((calls l cs).attempts ≡ retries l cs + l.attempts)
      × (retries l cs + l.attempts ≤ l.config.maximum_attempts)
unfolding calls retries
calls-retries l [] s h = (omega arith, omega arith)
calls-retries l (c ∷ cs) s h =
    let (count, bound, same) = call-attempts l c s.0 h in
    let (later, below) = calls-retries (call l c) cs s.1 bound in
    let limit = ap (λ (k : RecoveryConfig). k.maximum_attempts) same in (omega arith, omega arith)

call_final :
    (l : SessionLiveness) (c : Call) → is_final l.state ≡ true → is_final (call l c).state ≡ true
unfolding valid_traffic update peer_available stop should_retry
call_final l c h = ground arith

-- A session that has failed or was stopped is not revived: no call makes it stream again, and no retry
-- is allowed.
calls-is_final :
    (l : SessionLiveness) (cs : List Call)
    → is_final l.state ≡ true
    → (is_final (calls l cs).state ≡ true) × (retries l cs ≡ 0)
unfolding calls retries should_retry
calls-is_final l [] h = (h, refl)
calls-is_final l (c ∷ cs) h =
    let (final, none_left) = calls-is_final (call l c) cs (call_final l c h) in
    (final, ground (arith, none_left))
