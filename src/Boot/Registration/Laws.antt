-- ===== src/Boot/Registration/Laws.antt =====
-- Which entries RegisterGrpcEntryYAML, boot/grpc_entry.go, returns, and what they are given.
use rk_grpc.Prelude.{
  String, ◌≡◌, refl, ◌∙◌, Bool, true, false, Option, none, some, List, [], ◌∷◌, ◌++◌, append-nil,
  append_assoc, map, str_eq, eq_iff, if◌then◌else◌, sym, arith,
}
use rk_grpc.Boot.GrpcWebOptions.{TextLibraries}
use rk_grpc.Boot.Registration.{
  GrpcElement, GlobalState, ErrorBuilder, google, amazon, AppContext, RegisteredEntry,
}
use rk_grpc.Boot.Registration.Options.{
  name_or_default, register_grpc_entry, apply_entry_options, default_entry, with_name,
  with_description, with_logger_entry, with_event_entry, with_port, with_gw_port,
  with_grpc_dial_options, with_sw_entry, with_docs_entry, with_prom_entry, with_proxy_entry,
  with_gw_mux_options, with_grpc_web_options, with_common_service_entry,
  with_static_file_handler_entry, with_cert_entry, with_pprof_entry, with_enable_reflection,
}
use rk_grpc.Boot.Registration.Element.{
  set_error_builder, element_registered, element_entry, element_state, put_entry, register_elements,
}

-- `res[name]`
abbrev pub entry_of : {E : Type 0} → String → List (String × E) → Option E
entry_of name [] = none
entry_of name ((n, e) ∷ res) = if str_eq n name then some e else entry_of name res

abbrev pub or_in : {E : Type 0} → Option E → Option E → Option E
or_in none other = other
or_in (some e) other = some e

abbrev pub map_some : {A B : Type 0} → (A → B) → Option A → Option B
map_some f none = none
map_some f (some a) = some (f a)

module _ (X : AppContext) (T : TextLibraries) where
  -- The last enabled element of a name.
  abbrev pub last_enabled : String → List (GrpcElement X) → Option (GrpcElement X)
  last_enabled name [] = none
  last_enabled name (el ∷ els) =
      or_in (last_enabled name els)
        (if el.enabled then (if str_eq el.name name then some el else none) else none)

  abbrev pub enabled_elements : List (GrpcElement X) → List (GrpcElement X)
  enabled_elements [] = []
  enabled_elements (el ∷ els) =
      let rest = enabled_elements els in if el.enabled then el ∷ rest else rest

  entry_of-put_entry :
      (j k : String) (e : RegisteredEntry X) (res : List (String × RegisteredEntry X))
      → entry_of j (put_entry X T k e res) ≡ (if str_eq k j then some e else entry_of j res)
  unfolding put_entry
  entry_of-put_entry j k e [] = refl
  entry_of-put_entry j k e ((i, w) ∷ res) =
      ground (arith, eq_iff i k, eq_iff i j, eq_iff k j, entry_of-put_entry j k e res)

  or_put :
      (o : Option (GrpcElement X)) (b : Bool) (el : GrpcElement X) (r : Option (RegisteredEntry X))
      → or_in (map_some (element_entry X T) o) (if b then some (element_entry X T el) else r)
        ≡ or_in (map_some (element_entry X T) (or_in o (if b then some el else none))) r
  or_put none true el r = refl
  or_put none false el r = refl
  or_put (some x) b el r = refl

  or_skip : (o : Option (GrpcElement X)) → or_in o none ≡ o
  or_skip none = refl
  or_skip (some x) = refl

  -- The round of an element, enabled or not.
  entry_of-round :
      (enabled : Bool) (name : String) (el : GrpcElement X) (els : List (GrpcElement X))
      (res : List (String × RegisteredEntry X)) (s s' : GlobalState)
      → ((res' : List (String × RegisteredEntry X)) (s' : GlobalState)
          → entry_of name (register_elements X T els res' s').0
            ≡ or_in (map_some (element_entry X T) (last_enabled name els)) (entry_of name res'))
      → entry_of name
          (if enabled
            then register_elements X T els (put_entry X T el.name (element_entry X T el) res) s'
            else register_elements X T els res s).0
        ≡ or_in
            (map_some (element_entry X T) (
              or_in
                (last_enabled name els)
                (if enabled then (if str_eq el.name name then some el else none) else none)))
            (entry_of name res)
  entry_of-round true name el els res s s' others =
      rw
        (
          others (put_entry X T el.name (element_entry X T el) res) s',
          entry_of-put_entry name el.name (element_entry X T el) res,
        )
        (or_put (last_enabled name els) (str_eq el.name name) el (entry_of name res))
  entry_of-round false name el els res s s' others =
      rw (or_skip (last_enabled name els)) (others res s)

  pub entry_of-register_elements :
      (name : String) (els : List (GrpcElement X)) (res : List (String × RegisteredEntry X))
      (s : GlobalState)
      → entry_of name (register_elements X T els res s).0
        ≡ or_in (map_some (element_entry X T) (last_enabled name els)) (entry_of name res)
  unfolding register_elements
  entry_of-register_elements name [] res s = refl
  entry_of-register_elements name (el ∷ els) res s =
      entry_of-round el.enabled name el els res s (element_state X T el s)
        (λ res' s'. entry_of-register_elements name els res' s')

  abbrev pub all_ignored : List (GrpcElement X) → List String
  all_ignored [] = []
  all_ignored (el ∷ els) = el.ignore ++ all_ignored els

  -- What the last error model that is known asks for.
  abbrev pub last_builder : List (GrpcElement X) → Option ErrorBuilder
  last_builder [] = none
  last_builder (el ∷ els) =
      or_in (last_builder els) (set_error_builder (X.to_lower el.error_model) none)

  -- The global context after the rounds of enabled elements.
  abbrev pub state_after : List (GrpcElement X) → GlobalState → GlobalState
  state_after els s = record {
    added = s.added ++ map (λ el. name_or_default X el.name el.port) els;
    ignored = s.ignored ++ all_ignored els;
    error_builder = or_in (last_builder els) s.error_builder;
  }

  set_error_builder-or_in :
      (model : String) (b : Option ErrorBuilder)
      → set_error_builder model b ≡ or_in (set_error_builder model none) b
  unfolding set_error_builder
  set_error_builder-or_in model b =
      by_tests (str_eq model "") (str_eq model "google") (str_eq model "amazon")
    where
      by_tests :
          (x y z : Bool)
          → (if x then some google else if y then some google else if z then some amazon else b)
            ≡ or_in
                (if x
                  then some google
                  else if y
                  then some google
                  else if z
                  then some amazon
                  else none)
                b
      by_tests true y z = refl
      by_tests false true z = refl
      by_tests false false true = refl
      by_tests false false false = refl

  or_in_assoc : (a b c : Option ErrorBuilder) → or_in (or_in a b) c ≡ or_in a (or_in b c)
  or_in_assoc none b c = refl
  or_in_assoc (some x) b c = refl

  pub element_registered-name :
      (el : GrpcElement X)
      → (element_registered X T el).entry_name ≡ name_or_default X el.name el.port
  unfolding element_registered register_grpc_entry apply_entry_options default_entry with_name
      with_description with_logger_entry with_event_entry with_port with_gw_port
      with_grpc_dial_options with_sw_entry with_docs_entry with_prom_entry with_proxy_entry
      with_gw_mux_options with_grpc_web_options with_common_service_entry
      with_static_file_handler_entry with_cert_entry with_pprof_entry with_enable_reflection
  element_registered-name el = refl

  state_after-cons :
      (el : GrpcElement X) (els : List (GrpcElement X)) (s : GlobalState)
      → state_after els (element_state X T el s) ≡ state_after (el ∷ els) s
  unfolding element_state
  state_after-cons el els s =
      let name = name_or_default X el.name el.port in
      rw
        (
          element_registered-name el,
          append_assoc s.added (name ∷ []) (map (λ x. name_or_default X x.name x.port) els),
          append_assoc s.ignored el.ignore (all_ignored els),
          set_error_builder-or_in (X.to_lower el.error_model) s.error_builder,
          or_in_assoc (last_builder els) (set_error_builder (X.to_lower el.error_model) none)
              s.error_builder,
        )
        refl

  state-round :
      (enabled : Bool) (el : GrpcElement X) (els : List (GrpcElement X))
      (res : List (String × RegisteredEntry X)) (s : GlobalState)
      → ((res' : List (String × RegisteredEntry X)) (s' : GlobalState)
          → (register_elements X T els res' s').1 ≡ state_after (enabled_elements els) s')
      → (if enabled
          then register_elements X T els
              (put_entry X T el.name (element_entry X T el) res)
              (element_state X T el s)
          else register_elements X T els res s).1
        ≡ state_after (if enabled then el ∷ enabled_elements els else enabled_elements els) s
  state-round true el els res s others =
      others (put_entry X T el.name (element_entry X T el) res) (element_state X T el s)
      ∙ state_after-cons el (enabled_elements els) s
  state-round false el els res s others = others res s

  pub register_elements-state :
      (els : List (GrpcElement X)) (res : List (String × RegisteredEntry X)) (s : GlobalState)
      → (register_elements X T els res s).1 ≡ state_after (enabled_elements els) s
  unfolding register_elements
  register_elements-state [] res s = sym (rw (append-nil s.added, append-nil s.ignored) refl)
  register_elements-state (el ∷ els) res s =
      state-round el.enabled el els res s (λ res' s'. register_elements-state els res' s')
