-- ===== src/Proxy/Call/Delivers.antt =====
-- What a proxied call that ends well has done (boot/proxy_entry.go): the rules, the connection, the
-- stream and the loop together.
use rk_grpc.Prelude.{
  String, ◌≡◌, refl, sym, ◌∙◌, arith, [], ◌∷◌, ◌≢◌, true, Option, none, some, List, ◌⊎◌, inl, inr,
  All, Option-cases,
}
use rk_grpc.Proxy.Rule.{Libraries, Rule, Request}
use rk_grpc.Proxy.Director.{Directed, dials, unimplemented, panics, get_director}
use rk_grpc.Proxy.Director.Safety.{Allows, get_director-Allows}
use rk_grpc.Proxy.Handler.{
  StreamError, eof, Outcome, nil_error, System, Step, run, start, step, s2c_round, c2s_round,
  receive_s2c, receive_c2s, forward_client_to_server, send_msg, report, receive_from_s2c,
  receive_from_c2s, on_s2c_error, on_c2s_error, end_round,
}
use rk_grpc.Proxy.Handler.Results.{IsProper, nil_error_delivers}
use rk_grpc.Proxy.Call.{
  Backends, no_method, by_loop, answered, with_stream, with_connection, with_director,
  enter_handler, loop_answer, handler_after,
}

loop_answer-nil :
    {E : Type 0} (o : Option (Outcome E))
    → loop_answer o ≡ answered (by_loop nil_error)
    → o ≡ some nil_error
unfolding loop_answer
loop_answer-nil none h = absurd (cc)
loop_answer-nil (some o) h = cc

module _ {F E : Type 0} where
  -- No step changes how the backend's stream ends.
  step-ending : (a : Step E) (s : System F E) → (step a s).c2s.ending ≡ s.c2s.ending
  unfolding step forward_client_to_server send_msg report receive_from_s2c receive_from_c2s
      on_s2c_error on_c2s_error end_round
  step-ending (s2c_round send) s = ground arith
  step-ending (c2s_round header send_header send) s = ground arith
  step-ending receive_s2c s = ground arith
  step-ending receive_c2s s = ground arith

  run-ending : (acts : List (Step E)) (s : System F E) → (run acts s).c2s.ending ≡ s.c2s.ending
  unfolding run
  run-ending [] s = refl
  run-ending (a ∷ acts) s = run-ending acts (step a s) ∙ step-ending a s

module _ {F E : Type 0} (B : Backends F E) (up : List F) (up_end : StreamError E)
    (acts : List (Step E)) where
  -- The handler has delivered what the backend at the destination gave for the method.
  pub record Delivered (dest method : String) : Type 0 where
    pub conn : B.Conn
    pub down : List F
    pub dialled : B.dial dest ≡ inr conn
    pub opened : B.new_client_stream conn method ("X-Forwarded-For", B.local_ip) ≡ inr (down, eof)
    pub delivered : (run acts (start up up_end down eof)).c2s.sent ≡ down
    pub trailer : (run acts (start up up_end down eof)).trailer_set ≡ true

  stream-Delivered :
      (proper : All IsProper acts) (dest method : String) (conn : B.Conn)
      (opened : E ⊎ (List F × StreamError E))
      → B.dial dest ≡ inr conn
      → B.new_client_stream conn method ("X-Forwarded-For", B.local_ip) ≡ opened
      → handler_after acts (with_stream B up up_end dest opened) ≡ answered (by_loop nil_error)
      → Delivered dest method
  unfolding handler_after with_stream start
  stream-Delivered proper dest method conn (inl e) dialled same h = absurd (cc)
  stream-Delivered proper dest method conn (inr (down, down_end)) dialled same h =
      let (ends, sent, header, trailer) =
        nil_error_delivers acts up down up_end down_end proper (loop_answer-nil _ h) in
      let down_eof : down_end ≡ eof =
        sym (run-ending acts (start up up_end down down_end)) ∙ ends in
      record {
        conn = conn;
        down = down;
        dialled = dialled;
        opened = rw down_eof at same;
        delivered = rw down_eof at sent;
        trailer = rw down_eof at trailer;
      }

  connection-Delivered :
      (proper : All IsProper acts) (dest method : String) (made : E ⊎ B.Conn)
      → B.dial dest ≡ made
      → handler_after acts (with_connection B up up_end method dest made)
        ≡ answered (by_loop nil_error)
      → Delivered dest method
  unfolding handler_after with_connection
  connection-Delivered proper dest method (inl e) same h = absurd (cc)
  connection-Delivered proper dest method (inr conn) same h =
      stream-Delivered proper dest method conn _ same refl h

  module _ (L : Libraries) (r : Rule) (req : Request) (rand : L.Rand) where
    director-Delivered :
        (proper : All IsProper acts) (method : String) (directed : Directed L.Rand)
        → get_director L r req rand ≡ directed
        → handler_after acts (with_director B up up_end method directed)
          ≡ answered (by_loop nil_error)
        → (dest : String) × (dest ≢ "") × Allows L r req dest × Delivered dest method
    unfolding handler_after with_director
    director-Delivered proper method (dials dest rand') same h =
        let (ne, allows) = get_director-Allows L r req rand rand' dest same in
        (dest, ne, allows, connection-Delivered proper dest method _ refl h)
    director-Delivered proper method (unimplemented rand') same h = absurd (cc)
    director-Delivered proper method panics same h = absurd (cc)

    -- Where no header or send call towards the client fails with io.EOF and the handler has
    -- returned nil from its loop, the request has a method, the handler has dialled a destination
    -- that is not empty and that the rules allow for the request, has opened a stream for the
    -- method there with this host in X-Forwarded-For, and has sent the client every frame that the
    -- stream gave before its end, and the trailer.
    pub nil_answer_delivers :
        All IsProper acts
        → handler_after acts (enter_handler B up up_end L r req rand) ≡ answered (by_loop nil_error)
        → (method : String) × (dest : String) × (req.method ≡ some method)
          × (dest ≢ "")
          × Allows L r req dest
          × Delivered dest method
    unfolding handler_after enter_handler
    nil_answer_delivers proper h = elim (Option-cases req.method) [
      | inl unnamed ↦
          let returned : answered (by_loop nil_error) ≡ answered no_method =
            sym (rw (unnamed, enter_handler) at h) in
          absurd (cc)
      | inr (method, named) ↦
          let (dest, ne, allows, done) =
            director-Delivered proper method _ refl (rw (named, enter_handler) at h) in
          (method, dest, named, ne, allows, done)
    ]
