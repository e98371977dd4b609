-- ===== src/Boot/Registration/Configured.antt =====
-- What RegisterGrpcEntryYAML, boot/grpc_entry.go, returns for a configuration, and does to the global
-- context.
use rk_grpc.Prelude.{
  String, ◌≡◌, refl, ap, ◌∙◌, Bool, true, false, Option, none, some, List, [], ◌∷◌, ◌++◌, map,
  str_eq, if◌then◌else◌, Bool-cases, Option-cases, inl, inr, same_of_str_eq,
}
use rk_grpc.Boot.GrpcWebOptions.{TextLibraries}
use rk_grpc.Middleware.Chain.{
  Kind, logging, panics, prom, trace, jwt, meta, auth, timeout, rate_limit, unary_interceptors,
}
use rk_grpc.Boot.Registration.{GrpcElement, GlobalState, AppContext, RegisteredEntry}
use rk_grpc.Boot.Registration.Options.{
  name_or_default, register_grpc_entry, is_tls_enabled, apply_entry_options, default_entry,
  with_name, with_description, with_logger_entry, with_event_entry, with_port, with_gw_port,
  with_grpc_dial_options, with_sw_entry, with_docs_entry, with_prom_entry, with_proxy_entry,
  with_gw_mux_options, with_grpc_web_options, with_common_service_entry,
  with_static_file_handler_entry, with_cert_entry, with_pprof_entry, with_enable_reflection,
}
use rk_grpc.Boot.Registration.Element.{
  or_else, element_proxy, element_mux_options, element_grpc_web_options, named, element_registered,
  lift_size_limit, add_middleware, element_entry, register_grpc_entry_yaml,
}
use rk_grpc.Middleware.Chain.Order.{all_kinds, enabled_of, unary_interceptors-enabled}
use rk_grpc.Boot.Registration.Expected.{logger_of, events_of, proxy_of, IsConfigured}
use rk_grpc.Proxy.Entry.{
  with_name_proxy, with_event_entry_proxy, with_logger_entry_proxy, with_rule_proxy,
  new_proxy_entry, apply_proxy_options, or_stdout,
}
use rk_grpc.Boot.Registration.Laws.{
  entry_of, or_in, map_some, last_enabled, enabled_elements, all_ignored, last_builder,
  entry_of-register_elements, register_elements-state,
}

module _ (X : AppContext) (T : TextLibraries) where
  or_in-none : {E : Type 0} (o : Option E) → or_in o none ≡ o
  or_in-none none = refl
  or_in-none (some e) = refl

  -- Under each name there is the entry of the last enabled element of that name, and no other entry;
  -- the global context has been given the entries of all enabled elements in their order, those that
  -- another one has replaced included, ignores their paths, and builds errors after the last known
  -- model of an enabled element, or as before.
  pub register_grpc_entry_yaml-follows :
      (els : List (GrpcElement X)) (s : GlobalState)
      → let (res, s') = register_grpc_entry_yaml X T els s in
        ((name : String)
          → entry_of name res ≡ map_some (element_entry X T) (last_enabled X T name els))
        × (s'.added
            ≡ s.added ++ map (λ el. name_or_default X el.name el.port) (enabled_elements X T els))
        × (s'.ignored ≡ s.ignored ++ all_ignored X T (enabled_elements X T els))
        × (s'.error_builder ≡ or_in (last_builder X T (enabled_elements X T els)) s.error_builder)
  unfolding register_grpc_entry_yaml
  register_grpc_entry_yaml-follows els s =
      let final = register_elements-state X T els [] s in
      (
        (λ name.
            entry_of-register_elements X T name els [] s
            ∙ or_in-none (map_some (element_entry X T) (last_enabled X T name els))),
        ap (λ g. g.added) final,
        ap (λ g. g.ignored) final,
        ap (λ g. g.error_builder) final,
      )

  found_name :
      (name : String) (b : Bool) (el el' : GrpcElement X)
      → (if b then (if str_eq el.name name then some el else none) else none) ≡ some el'
      → el'.name ≡ name
  found_name name false el el' e = absurd (cc e)
  found_name name true el el' e = elim (Bool-cases (str_eq el.name name)) [
    | inl same ↦ cc (rw same at e, same_of_str_eq el.name name same)
    | inr other ↦ absurd (cc (rw other at e))
  ]

  last_enabled-name :
      (name : String) (els : List (GrpcElement X)) (el : GrpcElement X)
      → last_enabled X T name els ≡ some el
      → el.name ≡ name
  last_enabled-name name [] el e = absurd (cc e)
  last_enabled-name name (x ∷ els) el e = elim (Option-cases (last_enabled X T name els)) [
    | inl missing ↦ found_name name x.enabled x el (rw missing at e)
    | inr (y, found) ↦ last_enabled-name name els el (cc (found, rw found at e))
  ]

  named_same : (name : String) (k : Kind) → named name name k ≡ (k, name)
  unfolding named
  named_same name logging = refl
  named_same name panics = refl
  named_same name prom = refl
  named_same name trace = refl
  named_same name jwt = refl
  named_same name meta = refl
  named_same name auth = refl
  named_same name timeout = refl
  named_same name rate_limit = refl

  map-named : (name : String) (ks : List Kind) → map (named name name) ks ≡ map (λ k. (k, name)) ks
  map-named name [] = refl
  map-named name (k ∷ ks) = cc (named_same name k, map-named name ks)

  given_name :
      (el : GrpcElement X) → str_eq el.name "" ≡ false → name_or_default X el.name el.port ≡ el.name
  unfolding name_or_default
  given_name el h = rw h refl

  named_kinds :
      (el : GrpcElement X)
      → str_eq el.name "" ≡ false
      → map (named (name_or_default X el.name el.port) el.name) (unary_interceptors el.middleware)
        ≡ map (λ k. (k, el.name)) (enabled_of el.middleware all_kinds)
  named_kinds el h =
      ap (λ n. map (named n el.name) (unary_interceptors el.middleware)) (given_name el h)
      ∙ map-named el.name (unary_interceptors el.middleware)
      ∙ ap (map (λ k. (k, el.name))) (unary_interceptors-enabled el.middleware)

  element_proxy_lem :
      (el : GrpcElement X)
      → element_proxy X T el (logger_of X T el) (events_of X T el)
        ≡ (if el.proxy_enabled then some (proxy_of X T el) else none)
  unfolding element_proxy new_proxy_entry apply_proxy_options or_stdout with_name_proxy
      with_event_entry_proxy with_logger_entry_proxy with_rule_proxy
  element_proxy_lem el = refl

  limited-IsConfigured :
      (el : GrpcElement X)
      → str_eq el.name "" ≡ false
      → (b : Bool) → el.no_recv_msg_size_limit ≡ b
      → IsConfigured X T el
          (add_middleware X T el (lift_size_limit X T b (element_registered X T el)))
  unfolding add_middleware lift_size_limit element_registered register_grpc_entry
      apply_entry_options default_entry with_name with_description with_logger_entry
      with_event_entry with_port with_gw_port with_grpc_dial_options with_sw_entry with_docs_entry
      with_prom_entry with_proxy_entry with_gw_mux_options with_grpc_web_options
      with_common_service_entry with_static_file_handler_entry with_cert_entry with_pprof_entry
      with_enable_reflection is_tls_enabled or_else element_grpc_web_options element_mux_options
  limited-IsConfigured el h true same = rw same (
    given_name el h,
    refl,
    refl,
    refl,
    refl,
    refl,
    refl,
    refl,
    refl,
    refl,
    (refl, refl, refl, refl, refl, refl, element_proxy_lem el),
    (refl, refl, refl, refl, refl, refl, refl),
    named_kinds el h,
    named_kinds el h,
  )
  limited-IsConfigured el h false same = rw same (
    given_name el h,
    refl,
    refl,
    refl,
    refl,
    refl,
    refl,
    refl,
    refl,
    refl,
    (refl, refl, refl, refl, refl, refl, element_proxy_lem el),
    (refl, refl, refl, refl, refl, refl, refl),
    named_kinds el h,
    named_kinds el h,
  )

  element_entry-IsConfigured :
      (el : GrpcElement X) → str_eq el.name "" ≡ false → IsConfigured X T el (element_entry X T el)
  unfolding element_entry
  element_entry-IsConfigured el h = limited-IsConfigured el h el.no_recv_msg_size_limit refl

  pub register_grpc_entry_yaml-configures :
      (name : String) (els : List (GrpcElement X)) (el : GrpcElement X) (s : GlobalState)
      → str_eq name "" ≡ false
      → last_enabled X T name els ≡ some el
      → (e : RegisteredEntry X) × (entry_of name (register_grpc_entry_yaml X T els s).0 ≡ some e)
        × (el.name ≡ name)
        × IsConfigured X T el e
  register_grpc_entry_yaml-configures name els el s h found =
      let same = last_enabled-name name els el found in
      (
        element_entry X T el,
        (register_grpc_entry_yaml-follows els s).0 name ∙ ap (map_some (element_entry X T)) found,
        same,
        element_entry-IsConfigured el (ap (λ n. str_eq n "") same ∙ h),
      )
