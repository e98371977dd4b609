-- ===== src/Proxy/Handler/Progress.antt =====
-- That the proxy's handler can always return (boot/proxy_entry.go).
use rk_grpc.Prelude.{
  ◌≡◌, refl, ◌≢◌, true, false, none, some, List, [], ◌∷◌, ◌++◌, arith, inl, inr, Bool-cases,
  Option-cases, ◌∙◌, ap, sym, append-nil, append_assoc,
}
use rk_grpc.Proxy.Handler.{
  StreamError, Outcome, System, Step, s2c_round, c2s_round, receive_s2c, receive_c2s, step, run,
  start, c2s_outcome,
}

module _ {F E : Type 0} where
  -- The backend gives the frames that are left, each is sent, and the handler receives the end.
  abbrev pub finish : List F → List (Step E)
  finish [] = c2s_round none none none ∷ receive_c2s ∷ []
  finish (f ∷ fs) = c2s_round none none none ∷ finish fs

  round_at_end :
      (s : System F E)
      → s.c2s.inbox ≡ []
      → s.c2s.running ≡ true
      → s.outcome ≡ none
      → let s' = step (c2s_round none none none) s in
        (s'.outcome ≡ none) × (s'.c2s.channel ≡ some s.c2s.ending) × (s'.c2s.sent ≡ s.c2s.sent)
  unfolding step
  round_at_end s e r o = ground arith

  round_at_frame :
      (s : System F E) (f : F) (fs : List F)
      → s.c2s.inbox ≡ f ∷ fs
      → s.c2s.running ≡ true
      → s.outcome ≡ none
      → let s' = step (c2s_round none none none) s in
        (s'.c2s.inbox ≡ fs)
        × (s'.c2s.running ≡ true)
        × (s'.outcome ≡ none)
        × (s'.c2s.ending ≡ s.c2s.ending)
        × (s'.c2s.sent ≡ s.c2s.sent ++ f ∷ [])
  unfolding step
  round_at_frame s f fs e r o = ground arith

  receive_at_value :
      (s : System F E) (x : StreamError E)
      → s.outcome ≡ none
      → s.c2s.channel ≡ some x
      → ((step receive_c2s s).outcome ≡ some (c2s_outcome x))
        × ((step receive_c2s s).c2s.sent ≡ s.c2s.sent)
  unfolding step
  receive_at_value s x o c = ground arith

  -- If the goroutine towards the client still runs and the handler has not returned, one round for
  -- each frame that is left, one for the end of the backend's stream and one receive make it return
  -- what that end calls for, with every frame sent.
  pub run-finish :
      (inbox : List F) (s : System F E)
      → s.c2s.inbox ≡ inbox
      → s.c2s.running ≡ true
      → s.outcome ≡ none
      → ((run (finish inbox) s).outcome ≡ some (c2s_outcome s.c2s.ending))
        × ((run (finish inbox) s).c2s.sent ≡ s.c2s.sent ++ inbox)
  unfolding run
  run-finish [] s e r o =
      let (o', c, same) = round_at_end s e r o in
      let (returns, kept) =
        receive_at_value (step (c2s_round none none none) s) s.c2s.ending o' c in
      (returns, kept ∙ same ∙ sym (append-nil s.c2s.sent))
  run-finish (f ∷ fs) s e r o =
      let (e', r', o', ends, sent) = round_at_frame s f fs e r o in
      let (returns, all) = run-finish fs (step (c2s_round none none none) s) e' r' o' in
      (returns ∙ ap (λ x. some (c2s_outcome x)) ends, all ∙ rw (sent, append_assoc))

  -- A goroutine that has ended has left its report, until the handler returns.
  IsReported : System F E → Type 0
  IsReported s = s.c2s.running ≡ false → s.outcome ≡ none → s.c2s.channel ≢ none

  step-IsReported : (a : Step E) (s : System F E) → IsReported s → IsReported (step a s)
  unfolding step IsReported
  step-IsReported (s2c_round send) s h = ground arith
  step-IsReported (c2s_round header send_header send) s h = ground arith
  step-IsReported receive_s2c s h = ground arith
  step-IsReported receive_c2s s h = ground arith

  run-IsReported : (acts : List (Step E)) (s : System F E) → IsReported s → IsReported (run acts s)
  unfolding run
  run-IsReported [] s h = h
  run-IsReported (a ∷ acts) s h = run-IsReported acts (step a s) (step-IsReported a s h)

  -- From every state that the handler can be in, whatever has happened before, some further steps
  -- make it return: it is never stuck for good.
  pub run-start_can_return :
      (acts : List (Step E)) (up down : List F) (up_end down_end : StreamError E)
      → (more : List (Step E)) × (o : Outcome E) × ((run more
            (run acts (start up up_end down down_end))).outcome
          ≡ some o)
  unfolding start IsReported
  run-start_can_return acts up down up_end down_end =
      let s = run acts (start up up_end down down_end) in
      elim (Option-cases s.outcome) [
        | inr (o, returned) ↦ ([], o, unfold run in returned)
        | inl going ↦ elim (Bool-cases s.c2s.running) [
          | inl runs ↦ (
            finish s.c2s.inbox,
            c2s_outcome s.c2s.ending,
            (run-finish s.c2s.inbox s refl runs going).0,
          )
          | inr ended ↦ elim (Option-cases s.c2s.channel) [
            | inl empty ↦ absurd (
                run-IsReported acts (start up up_end down down_end) (ground arith) ended going
                  empty)
            | inr (x, full) ↦
                (receive_c2s ∷ [], c2s_outcome x, unfold run in (receive_at_value s x going full).0)
          ]
        ]
      ]
