-- ===== src/Proxy/Handler/Order.antt =====
-- What the proxy's goroutines deliver (boot/proxy_entry.go): frames in order, none twice, none made
-- up, and all of them where the handler says that the call went well.
use rk_grpc.Prelude.{
  ◌+◌, ◌≡◌, refl, Bool, true, Option, none, some, List, [], ◌∷◌, ◌++◌, ltb, append_assoc, ◌∙◌,
  if_cases,
}
use rk_grpc.Proxy.Handler.{
  StreamError, eof, Outcome, Pump, System, Step, s2c_round, c2s_round, receive_s2c, receive_c2s,
  step, run, start, forward_server_to_client, forward_client_to_server, header_error, send_msg,
  receive_from_s2c, receive_from_c2s,
}

module _ {F E : Type 0} where
  -- What a pump has sent is the beginning of what its source gives, and a pump that runs has
  -- dropped nothing.
  abbrev pub InOrder : List F → Pump F E → Type 0
  InOrder source p =
      (rest : List F) × (source ≡ p.sent ++ rest) × (p.running ≡ true → rest ≡ p.inbox)

  abbrev Both : List F → List F → System F E → Type 0
  Both up down s = InOrder up s.s2c × InOrder down s.c2s

  send_msg-InOrder :
      (source fs : List F) (f : F) (send : Option (StreamError E)) (p : Pump F E)
      → p.inbox ≡ f ∷ fs
      → p.running ≡ true
      → InOrder source p
      → InOrder source (send_msg send f fs p)
  unfolding send_msg
  send_msg-InOrder source fs f none p e r (rest, split, all) =
      (fs, split ∙ rw (all r, e, append_assoc), λ h. refl)
  send_msg-InOrder source fs f (some x) p e r (rest, split, all) = (rest, split, λ h. cc)

  forward_server_to_client-InOrder :
      (source inbox : List F) (send : Option (StreamError E)) (p : Pump F E)
      → p.inbox ≡ inbox
      → p.running ≡ true
      → InOrder source p
      → InOrder source (forward_server_to_client inbox send p)
  unfolding forward_server_to_client
  forward_server_to_client-InOrder source [] send p e r (rest, split, all) = (rest, split, λ h. cc)
  forward_server_to_client-InOrder source (f ∷ fs) send p e r h =
      send_msg-InOrder source fs f send p e r h

  forward_client_to_server-InOrder :
      (source inbox : List F) (header send : Option (StreamError E)) (p : Pump F E)
      → p.inbox ≡ inbox
      → p.running ≡ true
      → InOrder source p
      → InOrder source (forward_client_to_server inbox header send p).0
  unfolding forward_client_to_server
  forward_client_to_server-InOrder source [] header send p e r (rest, split, all) =
      (rest, split, λ h. cc)
  forward_client_to_server-InOrder source (f ∷ fs) none send p e r h =
      let sent = send_msg-InOrder source fs f send p e r h in
      if_cases (λ (q : Pump F E × Bool). InOrder source q.0) p.fresh (λ t. sent) (λ t. sent)
  forward_client_to_server-InOrder source (f ∷ fs) (some x) send p e r (rest, split, all) =
      if_cases (λ (q : Pump F E × Bool). InOrder source q.0) p.fresh (λ t. (rest, split, λ h. cc))
        (λ t. send_msg-InOrder source fs f send p e r (rest, split, all))

  receive_from_s2c-InOrder :
      (up down : List F) (o : Option (Outcome E)) (c : Option (StreamError E)) (s : System F E)
      → InOrder up s.s2c × InOrder down s.c2s
      → InOrder up (receive_from_s2c o c s).s2c × InOrder down (receive_from_s2c o c s).c2s
  unfolding receive_from_s2c
  receive_from_s2c-InOrder up down none (some eof) s h =
      if_cases (Both up down) (ltb (s.rounds + 1) 2) (λ t. h) (λ t. h)
  receive_from_s2c-InOrder up down _ _ s h = h

  receive_from_c2s-InOrder :
      (up down : List F) (o : Option (Outcome E)) (c : Option (StreamError E)) (s : System F E)
      → InOrder up s.s2c × InOrder down s.c2s
      → InOrder up (receive_from_c2s o c s).s2c × InOrder down (receive_from_c2s o c s).c2s
  unfolding receive_from_c2s
  receive_from_c2s-InOrder up down none (some e) s h = h
  receive_from_c2s-InOrder up down _ _ s h = h

  step-InOrder :
      (up down : List F) (a : Step E) (s : System F E) → Both up down s → Both up down (step a s)
  unfolding step
  step-InOrder up down (s2c_round send) s (u, d) =
      if_cases (Both up down) s.s2c.running
        (λ r. (forward_server_to_client-InOrder up s.s2c.inbox send s.s2c refl r u, d))
        (λ r. (u, d))
  step-InOrder up down (c2s_round header send_header send) s (u, d) =
      if_cases (Both up down) s.c2s.running
        (λ r.
          let d' =
            forward_client_to_server-InOrder down s.c2s.inbox (header_error header send_header) send
              s.c2s refl r d in
          if_cases (Both up down)
            (forward_client_to_server s.c2s.inbox (header_error header send_header) send s.c2s).1
            (λ t. (u, d')) (λ t. (u, d')))
        (λ r. (u, d))
  step-InOrder up down receive_s2c s h =
      receive_from_s2c-InOrder up down s.outcome s.s2c.channel s h
  step-InOrder up down receive_c2s s h =
      receive_from_c2s-InOrder up down s.outcome s.c2s.channel s h

  run-InOrder :
      (up down : List F) (acts : List (Step E)) (s : System F E)
      → Both up down s
      → Both up down (run acts s)
  unfolding run
  run-InOrder up down [] s h = h
  run-InOrder up down (a ∷ acts) s h =
      run-InOrder up down acts (step a s) (step-InOrder up down a s h)

  -- Whatever the schedule and whatever the stream calls return, each goroutine has sent the first
  -- frames of its source in their order, and one that still runs has dropped none.
  pub run-start-InOrder :
      (acts : List (Step E)) (up down : List F) (up_end down_end : StreamError E)
      → let s = run acts (start up up_end down down_end) in InOrder up s.s2c × InOrder down s.c2s
  unfolding start
  run-start-InOrder acts up down up_end down_end =
      run-InOrder up down acts _ ((up, refl, λ h. refl), (down, refl, λ h. refl))
