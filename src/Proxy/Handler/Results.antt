-- ===== src/Proxy/Handler/Results.antt =====
-- What the return of the proxy's handler tells (boot/proxy_entry.go).
use rk_grpc.Prelude.{
  ◌≡◌, refl, ◌≢◌, Bool, true, false, Option, none, some, List, [], ◌∷◌, ◌++◌, arith, append_assoc,
  append-nil, All, ◌∙◌, sym, if_cases, if◌then◌else◌, inl, inr, Bool-cases,
}
use rk_grpc.Proxy.Handler.{
  StreamError, eof, fault, nil_error, Pump, System, Step, s2c_round, c2s_round, receive_s2c,
  receive_c2s, step, run, start, forward_client_to_server, header_error, send_msg,
}

-- A call that does not fail with io.EOF.
abbrev pub NoEof : {E : Type 0} → Option (StreamError E) → Type 0
NoEof none = Unit
NoEof (some eof) = ⊥
NoEof (some (fault e)) = Unit

-- No header or send call towards the client fails with io.EOF.
abbrev pub IsProper : {E : Type 0} → Step E → Type 0
IsProper (s2c_round send) = Unit
IsProper (c2s_round header send_header send) = NoEof header × NoEof send_header × NoEof send
IsProper receive_s2c = Unit
IsProper receive_c2s = Unit

header_error-NoEof :
    {E : Type 0} (header send_header : Option (StreamError E))
    → NoEof header
    → NoEof send_header
    → NoEof (header_error header send_header)
unfolding header_error
header_error-NoEof none send_header n m = m
header_error-NoEof (some e) send_header n m = n

module _ {F E : Type 0} where
  -- The goroutine that forwards to the client, with whether the header is sent.
  record PumpSound (down : List F) (p : Pump F E) (header_sent : Bool) : Type 0 where
    whole : p.running ≡ true → down ≡ p.sent ++ p.inbox
    quiet : p.running ≡ true → p.channel ≡ none
    at_eof : p.channel ≡ some eof → (p.sent ≡ down) × (p.ending ≡ eof)
    stale : p.fresh ≡ false → header_sent ≡ true
    unsent : p.fresh ≡ true → p.sent ≡ []

  send_msg-PumpSound :
      (down fs : List F) (f : F) (send : Option (StreamError E)) (p : Pump F E) (header_sent : Bool)
      → NoEof send
      → p.inbox ≡ f ∷ fs
      → p.running ≡ true
      → PumpSound down p header_sent
      → PumpSound down (send_msg send f fs p) true
  unfolding send_msg
  send_msg-PumpSound down fs f none p hs n e r s =
      let split : down ≡ (p.sent ++ f ∷ []) ++ fs = s.whole r ∙ rw (e, append_assoc) in ground arith
  send_msg-PumpSound down fs f (some eof) p hs n e r s = absurd n
  send_msg-PumpSound down fs f (some (fault x)) p hs n e r s = ground arith

  forward_client_to_server-PumpSound :
      (down inbox : List F) (header send : Option (StreamError E)) (p : Pump F E)
      (header_sent : Bool)
      → NoEof header
      → NoEof send
      → p.inbox ≡ inbox
      → p.running ≡ true
      → PumpSound down p header_sent
      → let (p', sent) = forward_client_to_server inbox header send p in
        PumpSound down p' (if sent then true else header_sent)
  unfolding forward_client_to_server
  forward_client_to_server-PumpSound down [] header send p hs n m e r s =
      let split : down ≡ p.sent = s.whole r ∙ rw (e, append-nil) in ground arith
  forward_client_to_server-PumpSound down (f ∷ fs) none send p hs n m e r s =
      if_cases (λ (q : Pump F E × Bool). PumpSound down q.0 (if q.1 then true else hs)) p.fresh
        (λ t. send_msg-PumpSound down fs f send p hs m e r s)
        (λ t. rw (s.stale t) (send_msg-PumpSound down fs f send p hs m e r s))
  forward_client_to_server-PumpSound down (f ∷ fs) (some eof) send p hs n m e r s = absurd n
  forward_client_to_server-PumpSound down (f ∷ fs) (some (fault x)) send p hs n m e r s =
      if_cases (λ (q : Pump F E × Bool). PumpSound down q.0 (if q.1 then true else hs)) p.fresh
        (λ t. ground arith) (λ t. rw (s.stale t) (send_msg-PumpSound down fs f send p hs m e r s))

  record Sound (down : List F) (s : System F E) : Type 0 where
    pump : PumpSound down s.c2s s.header_sent
    going : s.c2s.running ≡ true → s.outcome ≢ some nil_error
    done :
        s.outcome ≡ some nil_error
        → (s.c2s.sent ≡ down) × (s.c2s.ending ≡ eof) × (s.trailer_set ≡ true)

  step-Sound :
      (down : List F) (a : Step E) (s : System F E)
      → IsProper a
      → Sound down s
      → Sound down (step a s)
  unfolding step
  step-Sound down (s2c_round send) s n h = ground arith
  step-Sound down (c2s_round header send_header send) s (n, m, k) h =
      if_cases (Sound down) s.c2s.running
        (λ r.
          let pump =
            forward_client_to_server-PumpSound down s.c2s.inbox (header_error header send_header)
              send s.c2s s.header_sent (header_error-NoEof header send_header n m) k refl r
              h.pump in
          if_cases (Sound down)
            (forward_client_to_server s.c2s.inbox (header_error header send_header) send s.c2s).1
            (λ t. record {
              pump = rw t at pump;
              going = λ g. h.going r;
              done = λ e. absurd (h.going r e);
            })
            (λ t. record {
              pump = rw t at pump;
              going = λ g. h.going r;
              done = λ e. absurd (h.going r e);
            }))
        (λ r. h)
  step-Sound down receive_s2c s n h = ground arith
  step-Sound down receive_c2s s n h = ground arith

  run-Sound :
      (down : List F) (acts : List (Step E)) (s : System F E)
      → All IsProper acts
      → Sound down s
      → Sound down (run acts s)
  unfolding run
  run-Sound down [] s n h = h
  run-Sound down (a ∷ acts) s (n, ns) h =
      run-Sound down acts (step a s) ns (step-Sound down a s n h)

  -- Where no header or send call towards the client fails with io.EOF and the handler has returned
  -- nil, the backend has ended with io.EOF, all its frames have been sent to the client, the header
  -- too if there is a frame, and the trailer has been set.
  pub nil_error_delivers :
      (acts : List (Step E)) (up down : List F) (up_end down_end : StreamError E)
      → All IsProper acts
      → (run acts (start up up_end down down_end)).outcome ≡ some nil_error
      → let s = run acts (start up up_end down down_end) in
        (s.c2s.ending ≡ eof)
        × (s.c2s.sent ≡ down)
        × (down ≢ [] → s.header_sent ≡ true)
        × (s.trailer_set ≡ true)
  unfolding start
  nil_error_delivers acts up down up_end down_end proper h =
      let s = run acts (start up up_end down down_end) in
      let sound = run-Sound down acts (start up up_end down down_end) proper (ground arith) in
      let (sent, ends, trailer) = sound.done h in
      (
        ends,
        sent,
        λ filled. elim (Bool-cases s.c2s.fresh) [
          | inl unsent ↦ absurd (filled (sym sent ∙ sound.pump.unsent unsent))
          | inr stale ↦ sound.pump.stale stale
        ],
        trailer,
      )
