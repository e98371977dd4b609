-- ===== src/Boot/Registration/Answered.antt =====
-- The handlers of an entry that RegisterGrpcEntryYAML, boot/grpc_entry.go, returns, with the
-- interceptors of middleware/ around them, as Bootstrap hands them to the gRPC server.
use rk_grpc.Prelude.{sym, String, ◌≡◌, refl, ap, ◌∙◌, false, some, List, [], ◌∷◌, map, str_eq}
use rk_grpc.Boot.GrpcWebOptions.{TextLibraries}
use rk_grpc.Middleware.Payload.{Context}
use rk_grpc.Middleware.Access.{Runtime}
use rk_grpc.Middleware.Access.Types.{KeyTypes}
use rk_grpc.Middleware.Log.{Call}
use rk_grpc.Middleware.Handler.{World, UnaryHandler, ServerStream, StreamHandler}
use rk_grpc.Middleware.Chain.{
  Kind, chain, Sets, unary_interceptors, interceptor_of, stream_interceptor_of, registered_handler,
  registered_stream_handler,
}
use rk_grpc.Middleware.Chain.Keeps.{TypedWorld}
use rk_grpc.Middleware.Chain.Interceptors.{KeepsTypes, KeepsStreamTypes}
use rk_grpc.Middleware.Chain.Typed.{Answers}
use rk_grpc.Middleware.Chain.Answered.{registered_handlers-Answer}
use rk_grpc.Boot.Registration.{AppContext, RegisteredEntry, GrpcElement, GlobalState}
use rk_grpc.Boot.Registration.Element.{register_grpc_entry_yaml}
use rk_grpc.Boot.Registration.Laws.{entry_of, last_enabled}
use rk_grpc.Boot.Registration.Expected.{IsConfigured}
use rk_grpc.Middleware.Chain.Order.{unary_interceptors-enabled}
use rk_grpc.Boot.Registration.Configured.{register_grpc_entry_yaml-configures}

module _ (X : AppContext) (R : Runtime) {A : Type 0} (s : Sets R) (call : Call) where
  -- `grpc.ChainUnaryInterceptor(entry.UnaryInterceptors...)`, and the same for streams. The options of
  -- each interceptor are those of its middleware.
  unfoldable pub entry_handler : RegisteredEntry X → UnaryHandler R A → UnaryHandler R A
  unfolding chain interceptor_of
  entry_handler e handler =
      chain (map (λ i. interceptor_of R s call i.0) e.unary_interceptors) handler

  unfoldable pub entry_stream_handler : RegisteredEntry X → StreamHandler R A → StreamHandler R A
  unfolding chain stream_interceptor_of
  entry_stream_handler e handler =
      chain (map (λ i. stream_interceptor_of R s call i.0) e.stream_interceptors) handler

map-paired {ℓ} :
    {B : Type ℓ} (f : Kind → B) (name : String) (ks : List Kind)
    → map (λ (i : Kind × String). f i.0) (map (λ k. (k, name)) ks) ≡ map f ks
map-paired f name [] = refl
map-paired f name (k ∷ ks) = ap (λ bs. f k ∷ bs) (map-paired f name ks)

module _ (X : AppContext) (L : TextLibraries) {R : Runtime} (T : KeyTypes R) {A : Type 0} where
  entry_handler-registered :
      (s : Sets R) (call : Call) (el : GrpcElement X) (e : RegisteredEntry X)
      → IsConfigured X L el e
      → (handler : UnaryHandler R A)
      → entry_handler X R s call e handler ≡ registered_handler R s call el.middleware handler
  unfolding entry_handler registered_handler
  entry_handler-registered s call el e c handler =
      let kinds = unary_interceptors el.middleware in
      ap (λ (is : List (Kind × String)). chain (map (λ i. interceptor_of R s call i.0) is) handler)
        (c.12 ∙ ap (map (λ k. (k, el.name))) (sym (unary_interceptors-enabled el.middleware)))
      ∙ ap (λ is. chain is handler) (map-paired (interceptor_of R s call) el.name kinds)

  entry_stream_handler-registered :
      (s : Sets R) (call : Call) (el : GrpcElement X) (e : RegisteredEntry X)
      → IsConfigured X L el e
      → (handler : StreamHandler R A)
      → entry_stream_handler X R s call e handler
        ≡ registered_stream_handler R s call el.middleware handler
  unfolding entry_stream_handler registered_stream_handler
  entry_stream_handler-registered s call el e c handler =
      let kinds = unary_interceptors el.middleware in
      ap
        (λ (is : List (Kind × String)).
          chain (map (λ i. stream_interceptor_of R s call i.0) is) handler)
        (c.13 ∙ ap (map (λ k. (k, el.name))) (sym (unary_interceptors-enabled el.middleware)))
      ∙ ap (λ is. chain is handler) (map-paired (stream_interceptor_of R s call) el.name kinds)

  -- An entry that is enabled under a name that is not empty, and not configured again behind,
  -- answers every unary call and every stream that reaches its interceptors, also where the
  -- service's handler panics, if the values in the payloads have the types of their keys and the
  -- handlers leave them so.
  pub configured_entry-Answers :
      (name : String) (els : List (GrpcElement X)) (el : GrpcElement X) (g : GlobalState)
      → str_eq name "" ≡ false
      → last_enabled X L name els ≡ some el
      → (s : Sets R) (call : Call) (handler : UnaryHandler R A) (stream_handler : StreamHandler R A)
      → KeepsTypes T handler
      → KeepsStreamTypes T stream_handler
      → (ctx : Context) (stream : ServerStream) (w : World R) → TypedWorld T w
      → (e : RegisteredEntry X) × (entry_of name (register_grpc_entry_yaml X L els g).0 ≡ some e)
        × Answers (entry_handler X R s call e handler ctx w).0
        × Answers (entry_stream_handler X R s call e stream_handler stream w).0
  configured_entry-Answers name els el g h found s call handler stream_handler k sk ctx stream w t =
      let (e, returned, _, c) = register_grpc_entry_yaml-configures X L name els el g h found in
      let (answer, stream_answer, _, _) =
        registered_handlers-Answer T s call el.middleware handler stream_handler k sk ctx stream w
          t in
      (
        e,
        returned,
        rw (entry_handler-registered s call el e c handler) answer,
        rw (entry_stream_handler-registered s call el e c stream_handler) stream_answer,
      )
