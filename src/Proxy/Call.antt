-- ===== src/Proxy/Call.antt =====
-- A call through the proxy, boot/proxy_entry.go: what `handler` does before its loop, with the
-- director of the rules, and the loop. grpc.DialContext and grpc.NewClientStream are parameters.
pub mod Delivers
use rk_grpc.Prelude.{String, Option, none, some, List, ◌⊎◌, inl, inr}
use rk_grpc.Proxy.Rule.{Libraries, Rule, Request}
use rk_grpc.Proxy.Director.{Directed, dials, unimplemented, panics, get_director}
use rk_grpc.Proxy.Handler.{StreamError, Outcome, System, Step, run, start}

-- What the handler uses of grpc-go: dialling a destination, and opening a stream on a connection for
-- a method, with a pair added to the outgoing metadata; the stream is the frames that the backend
-- will give, with the error at which they end. `local_ip` is rk-entry's.
pub record Backends (F E : Type 0) : Type 1 where
  pub Conn : Type 0
  pub dial : String → E ⊎ Conn
  pub new_client_stream : Conn → String → String × String → E ⊎ (List F × StreamError E)
  pub local_ip : String

-- What the handler returns.
pub data Returned (E : Type 0) : Type 0 where
  no_method : Returned E
  unknown_method : Returned E
  director_error : E → Returned E
  stream_error : E → Returned E
  by_loop : Outcome E → Returned E

-- The handler before its loop: it has returned, or panicked, or it enters the loop, with the
-- connection to a destination and the goroutines started. No connection is ever closed.
pub data Entered (F E : Type 0) : Type 0 where
  refused : Returned E → Entered F E
  proxying : String → System F E → Entered F E
  panicking : Entered F E

-- The handler after some steps.
pub data Answer (E : Type 0) : Type 0 where
  answered : Returned E → Answer E
  running : Answer E
  panicked : Answer E

module _ {F E : Type 0} (B : Backends F E) (up : List F) (up_end : StreamError E) where
  unfoldable pub with_stream : String → E ⊎ (List F × StreamError E) → Entered F E
  with_stream dest (inl e) = refused (stream_error e)
  with_stream dest (inr (down, down_end)) = proxying dest (start up up_end down down_end)

  unfoldable pub with_connection : String → String → E ⊎ B.Conn → Entered F E
  unfolding with_stream
  with_connection method dest (inl e) = refused (director_error e)
  with_connection method dest (inr conn) =
      with_stream dest (B.new_client_stream conn method ("X-Forwarded-For", B.local_ip))

  unfoldable pub with_director : {R : Type 0} → String → Directed R → Entered F E
  unfolding with_connection
  with_director method (dials dest rand) = with_connection method dest (B.dial dest)
  with_director method (unimplemented rand) = refused unknown_method
  with_director method panics = panicking

  -- The method of the stream is that of the request that the director sees.
  unfoldable pub enter_handler : (L : Libraries) → Rule → Request → L.Rand → Entered F E
  unfolding with_director
  enter_handler L r req rand = elim (req.method) [
    | none ↦ refused no_method
    | some method ↦ with_director method (get_director L r req rand)
  ]

unfoldable pub loop_answer : {E : Type 0} → Option (Outcome E) → Answer E
loop_answer none = running
loop_answer (some o) = answered (by_loop o)

module _ {F E : Type 0} where
  unfoldable pub handler_after : List (Step E) → Entered F E → Answer E
  unfolding loop_answer
  handler_after acts (refused r) = answered r
  handler_after acts (proxying dest s) = loop_answer (run acts s).outcome
  handler_after acts panicking = panicked
