-- ===== src/Resolver/State/Pause.antt =====
-- The pause of src/resolver/state.rs over time.
use sagittarius.Prelude.{ℕ, zero, suc, ◌+◌, ◌≤◌, ◌<◌, ◌≡◌, refl, ◌↔◌, true, false, arith}
use sagittarius.Resolver.State.{
  ResolverState, pos, negsuc, pause_for_secs, resume, pause_deadline, blocking_paused,
}

-- A pause lasts until its deadline.
blocking_paused_iff :
    {C : Type 0} (now : ℕ) (st : ResolverState C)
    → (blocking_paused now st ≡ true) ↔ ((1 ≤ st.paused_until) × (now < st.paused_until))
unfolding blocking_paused pause_deadline
blocking_paused_iff now st = ground arith

-- A pause of n seconds holds at exactly the times before its end, one of no second or of fewer ends
-- any pause, and so does a resume.
pub pause_for_secs-blocking_paused :
    {C : Type 0} (st : ResolverState C) (now later : ℕ) (n : ℕ)
    → ((blocking_paused later (pause_for_secs now (pos n) st) ≡ true)
        ↔ ((1 ≤ n) × (later < now + n)))
      × (blocking_paused later (pause_for_secs now (negsuc n) st) ≡ false)
      × (blocking_paused later (resume (pause_for_secs now (pos n) st)) ≡ false)
unfolding blocking_paused pause_deadline pause_for_secs resume
pause_for_secs-blocking_paused st now later zero =
    ((λ e. cc, λ h. absurd (omega (arith, h))), refl, refl)
pause_for_secs-blocking_paused st now later (suc n) =
    let gate = blocking_paused_iff later (record st { paused_until = now + suc n }) in
    ((λ e. (omega arith, (gate.0 e).1), λ h. gate.1 (omega arith, h.1)), refl, refl)
