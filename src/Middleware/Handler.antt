-- ===== src/Middleware/Handler.antt =====
-- Handlers and interceptors of grpc-go as the middleware sees them, with the first lines that every
-- interceptor of middleware/ begins with, and WrapServerStream of middleware/context/wrappers.go.
-- The request, and the method's name, are passed on by all of them as they are, and stand in the
-- handler.
use rk_grpc.Prelude.{ℕ, String, Bool, true, false, Option, some, List, ◌∷◌, [], ◌++◌, if◌then◌else◌}
use rk_grpc.Middleware.Payload.{Context, wrap_context_for_server, add_to_server_context_payload}
use rk_grpc.Middleware.Access.{Runtime, Value, text, Heap, Asserted, held, failed, get_logger}

-- What is written to rk-entry's objects: the counter of panics and the log line of a recovery, the
-- warning that a header is not set, the
-- event that closes a call, with the ids and the code, the metrics of a call, with the labels and the
-- code, and the end of a span, with its status, its message and the code and its name, if they are
-- among the attributes.
pub data Note (R : Runtime) : Type 0 where
  panic_counted : Option R.Event → Note R
  panic_logged : Option R.Logger → Option R.Error → Note R
  header_not_set : Option R.Logger → String → Note R
  call_logged : String → String → String → Note R
  call_measured : List String → String → Note R
  span_ended : Option R.Span → ℕ → String → Option (ℕ × String) → Note R

-- The payloads, the headers set for the client, and the notes, the latest first.
pub record World (R : Runtime) : Type 0 where
  pub heap : Heap R
  pub headers : List (String × String)
  pub notes : List (Note R)

-- How a handler ends: it returns a response, which may be nil, and an error, or it panics.
pub data Handled (R : Runtime) (A : Type 0) : Type 0 where
  returned : Option A → Option R.Error → Handled R A
  panicked : R.Recovered → Handled R A

abbrev pub UnaryHandler : Runtime → Type 0 → Type 0
UnaryHandler R A = Context → World R → Handled R A × World R

-- An interceptor, with the handler that it is given.
abbrev pub Interceptor : Runtime → Type 0 → Type 0
Interceptor R A = UnaryHandler R A → UnaryHandler R A

-- `grpc.ServerStream`: its context, and whether it is a *WrappedServerStream. An inner interceptor
-- may exchange the context of a wrapped stream for one derived from it, which has the same payload.
pub record ServerStream : Type 0 where
  pub context : Context
  pub is_wrapped : Bool

-- `wrappedStream` with its context.
abbrev pub wrapped_stream : Context → ServerStream
wrapped_stream ctx = record { context = ctx; is_wrapped = true }

-- A stream's handler returns an error only: its response stays nil.
abbrev pub StreamHandler : Runtime → Type 0 → Type 0
StreamHandler R A = ServerStream → World R → Handled R A × World R

-- `stream.Context()` after the assignment to `wrappedStream.WrappedContext`: WrapServerStream
-- returns a wrapped stream itself, so that the assignment changes it; a bare stream it wraps in
-- a new one, and the assignment leaves the bare one as it is.
unfoldable pub stream_after : ServerStream → Context → ServerStream
stream_after stream wrapped =
    if stream.is_wrapped then record stream { context = wrapped } else stream

module _ (R : Runtime) where
  -- `rkgrpcmid.AddToServerContextPayload(ctx, key, value)`
  unfoldable pub add_to_payload : Context → R.Key → Value R → World R → World R
  add_to_payload ctx key value w = record w {
    heap = add_to_server_context_payload (some ctx) key (some value) w.heap;
  }

  unfoldable pub note : Note R → World R → World R
  note n w = record w { notes = n ∷ w.notes }

  -- What follows grpc.SetHeader, whose success is given, with what GetLogger gives: a warning, if it
  -- has failed, and the header in the payload.
  unfoldable pub after_set_header :
      {A : Type 0}
      → Bool
      → Asserted (Option R.Logger)
      → Context
      → String × String
      → World R
      → (World R → Handled R A × World R)
      → Handled R A × World R
  unfolding add_to_payload note
  after_set_header true l ctx (key, value) w next = next (
      add_to_payload ctx (R.header_key key) (text value)
        (record w { headers = w.headers ++ (key, value) ∷ [] }))
  after_set_header false (held l) ctx (key, value) w next =
      next (add_to_payload ctx (R.header_key key) (text value) (note (header_not_set l key) w))
  after_set_header false failed ctx (key, value) w next = (panicked R.type_assertion, w)

  -- `rkgrpcctx.AddHeaderToClient(ctx, key, value)`, and what is done next.
  unfoldable pub add_header_to_client :
      {A : Type 0}
      → Context
      → String × String
      → World R
      → (World R → Handled R A × World R)
      → Handled R A × World R
  unfolding after_set_header
  add_header_to_client ctx (key, value) w next =
      after_set_header (R.set_header key value) (get_logger R ctx w.heap) ctx (key, value) w next

  unfoldable pub add_headers_to_client :
      {A : Type 0}
      → Context
      → List (String × String)
      → World R
      → (World R → Handled R A × World R)
      → Handled R A × World R
  unfolding add_header_to_client
  add_headers_to_client ctx [] w next = next w
  add_headers_to_client ctx (h ∷ hs) w next =
      add_header_to_client ctx h w (λ w'. add_headers_to_client ctx hs w' next)

  -- The context is wrapped, and the entry's name is added to its payload.
  unfoldable pub enter : String → Context → World R → Context × World R
  unfolding add_to_payload
  enter entry_name ctx w =
      let (wrapped, heap) = wrap_context_for_server ctx w.heap in
      (
        wrapped,
        add_to_payload wrapped R.entry_name_key (text entry_name) (record w { heap = heap }),
      )
