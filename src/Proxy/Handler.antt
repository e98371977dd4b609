-- ===== src/Proxy/Handler.antt =====
-- The stream handler of the proxy: `handler`, `forwardServerToClient` and `forwardClientToServer`,
-- boot/proxy_entry.go. The handler runs beside two goroutines, which it starts and which each hand
-- it at most one error through a channel of one place. A schedule is a list of the steps that the
-- three make; the environment's part (what a call of the streams returns) stands in the step.
pub mod Channels
pub mod Order
pub mod Results
pub mod Progress
use rk_grpc.Prelude.{
  ℕ, suc, ◌+◌, Bool, true, false, Option, none, some, List, [], ◌∷◌, ◌++◌, ltb, if◌then◌else◌, ◌==◌,
}

-- An error of a stream: `io.EOF`, or any other.
pub data StreamError (E : Type 0) : Type 0 where
  eof : StreamError E
  fault : E → StreamError E

-- What the handler returns: nil, an error of the backend as it is, or a status of its own.
pub data Outcome (E : Type 0) : Type 0 where
  nil_error : Outcome E
  rpc_error : E → Outcome E
  failed_proxying_s2c : E → Outcome E
  never_reach : Outcome E

-- A forwarding goroutine: the frames that its source has still to give, with the error at which
-- `RecvMsg` ends, the frames that it has sent, and its channel. `fresh` is `i == 0`.
pub record Pump (F E : Type 0) : Type 0 where
  pub inbox : List F
  pub ending : StreamError E
  pub sent : List F
  pub running : Bool
  pub fresh : Bool
  pub channel : Option (StreamError E)

-- The handler and its goroutines. `s2c` forwards from the server stream to the backend, `c2s` back;
-- `rounds` is the `i` of the handler's loop, `outcome` what it has returned.
pub record System (F E : Type 0) : Type 0 where
  pub s2c : Pump F E
  pub c2s : Pump F E
  pub header_sent : Bool
  pub close_sent : Bool
  pub trailer_set : Bool
  pub cancelled : Bool
  pub rounds : ℕ
  pub outcome : Option (Outcome E)

-- One step. A pump's step carries what the stream calls of its round return; `none` is success.
-- A call that the round does not make is not looked at.
pub data Step (E : Type 0) : Type 0 where
  s2c_round : Option (StreamError E) → Step E
  c2s_round : Option (StreamError E) → Option (StreamError E) → Option (StreamError E) → Step E
  receive_s2c : Step E
  receive_c2s : Step E

module _ {E : Type 0} where
  -- The two header calls of the first round: `src.Header()`, then `dst.SendHeader(md)`.
  unfoldable pub header_error :
      Option (StreamError E) → Option (StreamError E) → Option (StreamError E)
  header_error (some e) send_header = some e
  header_error none send_header = send_header

  -- What the handler returns for an error of the backend's stream.
  unfoldable pub c2s_outcome : StreamError E → Outcome E
  c2s_outcome eof = nil_error
  c2s_outcome (fault e) = rpc_error e

module _ {F E : Type 0} where
  -- `ret <- err`, and the end of the goroutine.
  unfoldable pub report : StreamError E → Pump F E → Pump F E
  report e p = record p { running = false; channel = some e }

  -- `dst.SendMsg(f)`, after the frame has been received.
  unfoldable pub send_msg : Option (StreamError E) → F → List F → Pump F E → Pump F E
  unfolding report
  send_msg none f rest p = record p { inbox = rest; sent = p.sent ++ f ∷ []; fresh = false }
  send_msg (some e) f rest p = report e (record p { inbox = rest })

  -- A round of the loop of `forwardServerToClient`.
  unfoldable pub forward_server_to_client : List F → Option (StreamError E) → Pump F E → Pump F E
  unfolding report send_msg
  forward_server_to_client [] send p = report p.ending p
  forward_server_to_client (f ∷ fs) send p = send_msg send f fs p

  -- A round of the loop of `forwardClientToServer`, with whether it has sent the header.
  unfoldable pub forward_client_to_server :
      List F → Option (StreamError E) → Option (StreamError E) → Pump F E → Pump F E × Bool
  unfolding report send_msg
  forward_client_to_server [] header send p = (report p.ending p, false)
  forward_client_to_server (f ∷ fs) header send p =
      if p.fresh
      then elim header [
        | none ↦ (send_msg send f fs p, true)
        | some e ↦ (report e (record p { inbox = fs }), false)
      ]
      else (send_msg send f fs p, false)

  -- The end of a round of the handler's loop: it goes on while `i < 2`.
  unfoldable pub end_round : System F E → System F E
  end_round s =
      let s' = record s { rounds = s.rounds + 1 } in
      if ltb s'.rounds 2 then s' else record s' { outcome = some never_reach }

  -- `case s2cErr := <-s2cErrChan`
  unfoldable pub on_s2c_error : StreamError E → System F E → System F E
  unfolding end_round
  on_s2c_error eof s =
      end_round (record s { s2c = record (s.s2c) { channel = none }; close_sent = true })
  on_s2c_error (fault e) s = record s {
    s2c = record (s.s2c) { channel = none };
    cancelled = true;
    outcome = some (failed_proxying_s2c e);
  }

  -- `case c2sErr := <-c2sErrChan`
  unfoldable pub on_c2s_error : StreamError E → System F E → System F E
  unfolding c2s_outcome
  on_c2s_error e s = record s {
    c2s = record (s.c2s) { channel = none };
    trailer_set = true;
    outcome = some (c2s_outcome e);
  }

  -- The two cases of the `select`, where the handler has not returned and the channel has a value.
  unfoldable pub receive_from_s2c :
      Option (Outcome E) → Option (StreamError E) → System F E → System F E
  unfolding on_s2c_error
  receive_from_s2c none (some e) s = on_s2c_error e s
  receive_from_s2c _ _ s = s

  unfoldable pub receive_from_c2s :
      Option (Outcome E) → Option (StreamError E) → System F E → System F E
  unfolding on_c2s_error
  receive_from_c2s none (some e) s = on_c2s_error e s
  receive_from_c2s _ _ s = s

  -- One step of the system. A step of a goroutine that has ended, a receive from an empty channel
  -- and a receive after the handler has returned do not happen: they leave the system as it is.
  unfoldable pub step : Step E → System F E → System F E
  unfolding forward_server_to_client forward_client_to_server receive_from_s2c receive_from_c2s
      header_error
  step (s2c_round send) s =
      if s.s2c.running
      then record s { s2c = forward_server_to_client s.s2c.inbox send s.s2c }
      else s
  step (c2s_round header send_header send) s =
      if s.c2s.running
      then (let (p, sent) =
            forward_client_to_server s.c2s.inbox (header_error header send_header) send s.c2s in
          if sent then record s { c2s = p; header_sent = true } else record s { c2s = p })
      else s
  step receive_s2c s = receive_from_s2c s.outcome s.s2c.channel s
  step receive_c2s s = receive_from_c2s s.outcome s.c2s.channel s

  unfoldable pub run : List (Step E) → System F E → System F E
  run [] s = s
  run (a ∷ acts) s = run acts (step a s)

  abbrev pub fresh_pump : List F → StreamError E → Pump F E
  fresh_pump inbox ending = record {
    inbox = inbox;
    ending = ending;
    sent = [];
    running = true;
    fresh = true;
    channel = none;
  }

  -- The handler as it enters its loop: the frames that each side will give, and how each ends.
  unfoldable pub start : List F → StreamError E → List F → StreamError E → System F E
  start up up_end down down_end = record {
    s2c = fresh_pump up up_end;
    c2s = fresh_pump down down_end;
    header_sent = false;
    close_sent = false;
    trailer_set = false;
    cancelled = false;
    rounds = 0;
    outcome = none;
  }
