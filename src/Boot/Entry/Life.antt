-- ===== src/Boot/Entry/Life.antt =====
-- The life of the entries that an entry contains, and of its servers, over Bootstrap and Interrupt of
-- boot/grpc_entry.go.
use mathlib.Core.List.{Memᴰ}
use mathlib.Core.List.Memᴰ
use rk_grpc.Prelude.{
  String, ◌≡◌, refl, true, Option, none, some, List, [], ◌∷◌, ◌++◌, map, append_assoc, append-nil,
  if◌then◌else◌,
}
use rk_grpc.Boot.Entry.{
  Component, sw, docs, static_file, prom, common_service, pprof, proxy, GrpcEntry, EntryState, ok,
  BootStatement, bootstrap_entry, new_server, register_gw, handle, new_http_server, add_server_opts,
  set_layers, default_gw_port, execute, run_statements, EntryCall, bootstrapped, interrupted,
  http_shut_down, server_stopped, entry_removed,
}
use rk_grpc.Boot.Entry.Statements.{
  if_enabled, proxy_statements, sw_statements, docs_statements, static_file_statements,
  prom_statements, common_service_statements, pprof_statements, http_statements, statements,
  bootstrap, is_enabled, not_nil, interrupt_calls, interrupt,
}
use rk_grpc.Boot.Entry.Running.{
  bootstraps, bootstraps-append, run_statements-calls, run_statements-cons, execute-handle,
}

-- A statement stops no server.
execute-servers :
    {Error : Type 0} (st : BootStatement Error) (s s' : EntryState)
    → execute st s ≡ ok s'
    → (s.server ≡ true → s'.server ≡ true) × (s.http_server ≡ true → s'.http_server ≡ true)
unfolding execute
execute-servers (bootstrap_entry c) s s' e = (λ h. cc, λ h. cc)
execute-servers new_server s s' e = (λ h. cc, λ h. cc)
execute-servers (register_gw none) s s' e = (λ h. cc, λ h. cc)
execute-servers (register_gw (some err)) s s' e = absurd (cc e)
execute-servers {Error = Error} (handle p h) s s' e =
    let grown = (execute-handle {Error = Error} p h s s' e).1 in
    (λ up. cc (grown, up), λ up. cc (grown, up))
execute-servers new_http_server s s' e = (λ h. cc, λ h. cc)
execute-servers (add_server_opts opts) s s' e = (λ h. cc, λ h. cc)
execute-servers (set_layers layers) s s' e = (λ h. cc, λ h. cc)
execute-servers (default_gw_port port) s s' e = (λ h. cc, λ h. cc)

run_statements-servers :
    {Error : Type 0} (sts : List (BootStatement Error)) (s s' : EntryState)
    → run_statements sts s ≡ ok s'
    → (s.server ≡ true → s'.server ≡ true) × (s.http_server ≡ true → s'.http_server ≡ true)
unfolding run_statements
run_statements-servers [] s s' e = (λ h. cc, λ h. cc)
run_statements-servers (st ∷ sts) s s' e =
    let (t, first, others) = run_statements-cons st sts s s' e in
    let now = execute-servers st s t first in
    let later = run_statements-servers sts t s' others in
    (λ h. later.0 (now.0 h), λ h. later.1 (now.1 h))

execute-new_server :
    {Error : Type 0} (s s' : EntryState)
    → execute {Error = Error} new_server s ≡ ok s'
    → s'.server ≡ true
unfolding execute
execute-new_server s s' e = cc

execute-new_http_server :
    {Error : Type 0} (s s' : EntryState)
    → execute {Error = Error} new_http_server s ≡ ok s'
    → s'.http_server ≡ true
unfolding execute
execute-new_http_server s s' e = cc

run_statements-new_server :
    {Error : Type 0} (sts : List (BootStatement Error)) (s s' : EntryState)
    → run_statements sts s ≡ ok s'
    → Memᴰ new_server sts
    → s'.server ≡ true
run_statements-new_server [] s s' e h = elim h [ ]
run_statements-new_server {Error = Error} (st ∷ sts) s s' e (Memᴰ.head this) =
    let (t, first, others) = run_statements-cons st sts s s' e in
    (run_statements-servers sts t s' others).0
      (execute-new_server {Error = Error} s t (cc (this, first)))
run_statements-new_server (st ∷ sts) s s' e (Memᴰ.tail h) =
    let (t, first, others) = run_statements-cons st sts s s' e in
    run_statements-new_server sts t s' others h

run_statements-new_http_server :
    {Error : Type 0} (sts : List (BootStatement Error)) (s s' : EntryState)
    → run_statements sts s ≡ ok s'
    → Memᴰ new_http_server sts
    → s'.http_server ≡ true
run_statements-new_http_server [] s s' e h = elim h [ ]
run_statements-new_http_server {Error = Error} (st ∷ sts) s s' e (Memᴰ.head this) =
    let (t, first, others) = run_statements-cons st sts s s' e in
    (run_statements-servers sts t s' others).1
      (execute-new_http_server {Error = Error} s t (cc (this, first)))
run_statements-new_http_server (st ∷ sts) s s' e (Memᴰ.tail h) =
    let (t, first, others) = run_statements-cons st sts s s' e in
    run_statements-new_http_server sts t s' others h

bootstraps-register_gw :
    {Error : Type 0} (rs : List (Option Error)) → bootstraps (map register_gw rs) ≡ []
unfolding bootstraps
bootstraps-register_gw [] = refl
bootstraps-register_gw (r ∷ rs) = bootstraps-register_gw rs

if_enabled-not_nil :
    {A B : Type 0} (o : Option A) (b : B)
    → if_enabled o (λ a. b ∷ []) ≡ (if not_nil o then b ∷ [] else [])
unfolding if_enabled
if_enabled-not_nil none b = refl
if_enabled-not_nil (some a) b = refl

module _ {Error : Type 0} (entry : GrpcEntry Error) where
  -- A call for each enabled one among components.
  unfoldable pub enabled_calls : (Component → EntryCall) → List Component → List EntryCall
  enabled_calls call [] = []
  enabled_calls call (c ∷ cs) =
      (if is_enabled entry c then call c ∷ [] else []) ++ enabled_calls call cs

  interrupt_calls_lem :
      (s : EntryState)
      → s.server ≡ true
      → s.http_server ≡ true
      → interrupt_calls entry s
        ≡ enabled_calls interrupted (common_service ∷ sw ∷ static_file ∷ docs ∷ prom ∷ pprof ∷ [])
          ++ http_shut_down ∷ server_stopped ∷ entry_removed ∷ []
  unfolding interrupt_calls enabled_calls is_enabled
  interrupt_calls_lem s up http_up =
      simp (up, http_up, if_enabled-not_nil, append_assoc, append-nil)

bootstraps-if_enabled :
    {Error A : Type 0} (o : Option A) (body : A → List (BootStatement Error)) (c : Component)
    → ((a : A) → bootstraps (body a) ≡ bootstrapped c ∷ [])
    → bootstraps (if_enabled o body) ≡ (if not_nil o then bootstrapped c ∷ [] else [])
unfolding if_enabled bootstraps
bootstraps-if_enabled none body c h = refl
bootstraps-if_enabled (some a) body c h = h a

bootstraps-if_enabled_none :
    {Error A : Type 0} (o : Option A) (body : A → List (BootStatement Error))
    → ((a : A) → bootstraps (body a) ≡ [])
    → bootstraps (if_enabled o body) ≡ []
unfolding if_enabled bootstraps
bootstraps-if_enabled_none none body h = refl
bootstraps-if_enabled_none (some a) body h = h a

module _ {Error : Type 0} (join : String → String → String) (entry : GrpcEntry Error) where
  bootstraps-proxy_statements :
      bootstraps (proxy_statements join entry)
      ≡ (if is_enabled entry proxy then bootstrapped proxy ∷ [] else [])
  unfolding proxy_statements bootstraps is_enabled
  bootstraps-proxy_statements = bootstraps-if_enabled entry.proxy_entry _ proxy (λ a. refl)

  bootstraps-sw_statements :
      bootstraps (sw_statements join entry)
      ≡ (if is_enabled entry sw then bootstrapped sw ∷ [] else [])
  unfolding sw_statements bootstraps is_enabled
  bootstraps-sw_statements = bootstraps-if_enabled entry.sw_entry _ sw (λ a. refl)

  bootstraps-docs_statements :
      bootstraps (docs_statements join entry)
      ≡ (if is_enabled entry docs then bootstrapped docs ∷ [] else [])
  unfolding docs_statements bootstraps is_enabled
  bootstraps-docs_statements = bootstraps-if_enabled entry.docs_entry _ docs (λ a. refl)

  bootstraps-static_file_statements :
      bootstraps (static_file_statements join entry)
      ≡ (if is_enabled entry static_file then bootstrapped static_file ∷ [] else [])
  unfolding static_file_statements bootstraps is_enabled
  bootstraps-static_file_statements =
      bootstraps-if_enabled entry.static_file_entry _ static_file (λ a. refl)

  bootstraps-prom_statements :
      bootstraps (prom_statements join entry)
      ≡ (if is_enabled entry prom then bootstrapped prom ∷ [] else [])
  unfolding prom_statements bootstraps is_enabled
  bootstraps-prom_statements = bootstraps-if_enabled entry.prom_entry _ prom (λ a. refl)

  bootstraps-common_service_statements :
      bootstraps (common_service_statements join entry)
      ≡ (if is_enabled entry common_service then bootstrapped common_service ∷ [] else [])
  unfolding common_service_statements bootstraps is_enabled
  bootstraps-common_service_statements =
      bootstraps-if_enabled entry.common_service_entry _ common_service (λ a. refl)

  bootstraps-pprof_statements : bootstraps (pprof_statements join entry) ≡ []
  unfolding pprof_statements bootstraps
  bootstraps-pprof_statements = bootstraps-if_enabled_none entry.pprof_entry _ (λ a. refl)

  -- The calls that Bootstrap adds.
  bootstraps-statements :
      bootstraps (statements join entry)
      ≡ enabled_calls entry bootstrapped
          (proxy ∷ sw ∷ docs ∷ static_file ∷ prom ∷ common_service ∷ [])
  unfolding statements http_statements enabled_calls bootstraps
  bootstraps-statements = simp (
    bootstraps-append, bootstraps-proxy_statements, bootstraps-register_gw,
    bootstraps-sw_statements, bootstraps-docs_statements, bootstraps-static_file_statements,
    bootstraps-prom_statements, bootstraps-common_service_statements, bootstraps-pprof_statements,
    append_assoc, append-nil,
  )

  Memᴰ-servers :
      Memᴰ new_server (statements join entry) × Memᴰ new_http_server (statements join entry)
  unfolding statements http_statements
  Memᴰ-servers = (
    Memᴰ.tail (Memᴰ.append_left _ (Memᴰ.append_right _ (Memᴰ.head refl))),
    Memᴰ.tail (
        Memᴰ.append_right _
          (Memᴰ.tail (Memᴰ.append_right _ (Memᴰ.tail (Memᴰ.tail (Memᴰ.head refl)))))),
  )

  -- A Bootstrap that comes to its end has bootstrapped the enabled ones of the proxy and the five
  -- entries that have a path but pprof, and Interrupt then interrupts the enabled ones of the six
  -- entries that have a path, pprof among them and the proxy not, shuts the HTTP server down, stops
  -- the gRPC server and removes the entry, each once and in this order.
  pub bootstrap-then_interrupt :
      (s s' : EntryState)
      → bootstrap join entry s ≡ ok s'
      → (interrupt entry s').calls
        ≡ s.calls
          ++ enabled_calls entry bootstrapped
              (proxy ∷ sw ∷ docs ∷ static_file ∷ prom ∷ common_service ∷ [])
          ++ (enabled_calls entry interrupted
                (common_service ∷ sw ∷ static_file ∷ docs ∷ prom ∷ pprof ∷ [])
              ++ http_shut_down ∷ server_stopped ∷ entry_removed ∷ [])
  unfolding bootstrap interrupt
  bootstrap-then_interrupt s s' e =
      let sts = statements join entry in
      let server_up = run_statements-new_server sts s s' e Memᴰ-servers.0 in
      let http_up = run_statements-new_http_server sts s s' e Memᴰ-servers.1 in
      cc (
        run_statements-calls sts s s' e,
        bootstraps-statements,
        interrupt_calls_lem entry s' server_up http_up,
      )
