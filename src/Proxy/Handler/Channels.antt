-- ===== src/Proxy/Handler/Channels.antt =====
-- The channels of the proxy's handler (boot/proxy_entry.go): each goroutine reports once, so the
-- handler's loop never runs out of its two rounds.
use rk_grpc.Prelude.{◌≡◌, ◌≢◌, true, none, some, List, [], ◌∷◌, arith}
use rk_grpc.Proxy.Handler.{
  StreamError, never_reach, Pump, System, Step, s2c_round, c2s_round, receive_s2c, receive_c2s,
  step, run, start,
}

module _ {F E : Type 0} where
  -- A goroutine that runs has reported nothing.
  abbrev pub IsQuiet : Pump F E → Type 0
  IsQuiet p = p.running ≡ true → p.channel ≡ none

  pub record ReportsOnce (s : System F E) : Type 0 where
    pub s2c_quiet : IsQuiet s.s2c
    pub c2s_quiet : IsQuiet s.c2s
    pub running_first : s.s2c.running ≡ true → s.rounds ≡ 0
    pub report_first : s.s2c.channel ≢ none → s.rounds ≡ 0
    pub reachable : s.outcome ≢ some never_reach

  step-ReportsOnce : (a : Step E) (s : System F E) → ReportsOnce s → ReportsOnce (step a s)
  unfolding step
  step-ReportsOnce (s2c_round send) s inv = ground arith
  step-ReportsOnce (c2s_round header send_header send) s inv = ground arith
  step-ReportsOnce receive_s2c s inv = ground arith
  step-ReportsOnce receive_c2s s inv = ground arith

  run-ReportsOnce :
      (acts : List (Step E)) (s : System F E) → ReportsOnce s → ReportsOnce (run acts s)
  unfolding run
  run-ReportsOnce [] s inv = inv
  run-ReportsOnce (a ∷ acts) s inv = run-ReportsOnce acts (step a s) (step-ReportsOnce a s inv)

  -- From the start, whatever the schedule and whatever the stream calls return, a goroutine that
  -- runs has an empty channel, and the handler never returns the status that its last line gives.
  pub run-start-ReportsOnce :
      (acts : List (Step E)) (up down : List F) (up_end down_end : StreamError E)
      → ReportsOnce (run acts (start up up_end down down_end))
  unfolding start
  run-start-ReportsOnce acts up down up_end down_end = run-ReportsOnce acts _ (ground arith)
