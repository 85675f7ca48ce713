-- ===== src/Reconcile/Session/Rounds.antt =====
-- The rounds of a session of crates/nostr-pubsub-reconcile/src/lib.rs, whatever its engine answers.
use nostr_pubsub.Prelude.{
  ℕ, ◌+◌, ◌≤◌, ◌≡◌, ◌≢◌, refl, Bool, true, false, none, some, List, [], ◌∷◌, inl, inr, ◌⊎◌, arith,
  if◌then◌else◌,
}
use nostr_pubsub.Reconcile.Frames.{Bytes}
use nostr_pubsub.Reconcile.Frames.Total.{validate-ne-none}
use nostr_pubsub.Reconcile.Session.{
  Engine, SessionError, Session, Step, tick, check_frame, accept, initiate, respond, reconcile,
  Limits,
}

pub data SessionCall : Type 0 where
  initiating : SessionCall
  responding reconciling : Bytes → SessionCall

abbrev is_ok : {A : Type 0} → SessionError ⊎ A → Bool
is_ok (inl e) = false
is_ok (inr a) = true

module _ {G : Type 0} ⦃engine : Engine G⦄ where
  -- The state after a call, and whether the call succeeded.
  unfoldable pub make_call : SessionCall → Session G → Session G × Bool
  make_call SessionCall.initiating s = let (t, r) = initiate s in (t, is_ok r)
  make_call (SessionCall.responding frame) s = let (t, r) = respond frame s in (t, is_ok r)
  make_call (SessionCall.reconciling frame) s = let (t, r) = reconcile frame s in (t, is_ok r)

  -- How many of the calls succeed.
  unfoldable pub successes : List SessionCall → Session G → ℕ
  successes [] s = 0
  successes (c ∷ cs) s = let (t, ok) = make_call c s in (if ok then 1 else 0) + successes cs t

  make_call-rounds :
      (c : SessionCall) (s : Session G)
      → ((if (make_call c s).1 then 1 else 0) + s.rounds ≤ (make_call c s).0.rounds)
        × ((make_call c s).0.limits.max_rounds ≡ s.limits.max_rounds)
        × (s.rounds ≤ s.limits.max_rounds → (make_call c s).0.rounds ≤ s.limits.max_rounds)
  unfolding make_call initiate respond reconcile accept tick
  make_call-rounds SessionCall.initiating s = ground arith
  make_call-rounds (SessionCall.responding frame) s = ground arith
  make_call-rounds (SessionCall.reconciling frame) s = ground arith

  -- Whatever the engine answers and whatever frames come in, the calls of a session that succeed
  -- and the rounds that it counted before are no more than its limit of rounds.
  pub successes-le :
      (cs : List SessionCall) (s : Session G)
      → s.rounds ≤ s.limits.max_rounds
      → successes cs s + s.rounds ≤ s.limits.max_rounds
  unfolding successes
  successes-le [] s h = omega arith
  successes-le (c ∷ cs) s h =
      let (more, same, within) = make_call-rounds c s in
      omega (arith, more, same, successes-le cs (make_call c s).0 (omega (arith, within h, same)))

  -- A finished session refuses every call, and stays as it is.
  make_call_finished :
      (c : SessionCall) (s : Session G) → s.finished ≡ true → make_call c s ≡ (s, false)
  unfolding make_call initiate respond reconcile accept tick
  make_call_finished SessionCall.initiating s h = ground arith
  make_call_finished (SessionCall.responding frame) s h = ground arith
  make_call_finished (SessionCall.reconciling frame) s h = ground arith

  successes_finished :
      (cs : List SessionCall) (s : Session G) → s.finished ≡ true → successes cs s ≡ 0
  unfolding successes
  successes_finished [] s h = refl
  successes_finished (c ∷ cs) s h =
      rw (make_call_finished c s h) (omega (arith, successes_finished cs s h))

  reconcile-finished :
      (frame : Bytes) (s : Session G) (step : Step)
      → (reconcile frame s).1 ≡ inr step
      → step.next ≡ none
      → (reconcile frame s).0.finished ≡ true
  unfolding reconcile
  reconcile-finished frame s step e h = ground arith

  -- A round without a next frame is the last one.
  reconcile_last :
      (frame : Bytes) (s : Session G) (step : Step) (cs : List SessionCall)
      → (reconcile frame s).1 ≡ inr step
      → step.next ≡ none
      → successes cs (reconcile frame s).0 ≡ 0
  reconcile_last frame s step cs e h =
      successes_finished cs (reconcile frame s).0 (reconcile-finished frame s step e h)

check_frame-ne-diverged :
    (l : Limits) (frame : Bytes) → check_frame l frame ≢ some SessionError.diverged
unfolding check_frame
check_frame-ne-diverged l frame = ground (arith, validate-ne-none frame)
