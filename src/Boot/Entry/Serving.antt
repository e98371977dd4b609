-- ===== src/Boot/Entry/Serving.antt =====
-- What an entry serves after Bootstrap, boot/grpc_entry.go.
use mathlib.Core.List.{Memᴰ}
use mathlib.Core.List.Memᴰ
use rk_grpc.Prelude.{String, ◌≡◌, refl, ◌≢◌, Option, some, List}
use rk_grpc.Boot.Entry.{
  sw, docs, Handler, gw_mux, config_file, file_handler, prom_handler, ready, gc, info, alive,
  pprof_index, pprof_profile, CommonServiceEntry, GrpcEntry, EntryState, ok, handle, BootStatement,
}
use rk_grpc.Boot.Entry.Statements.{
  if_enabled, profiles, http_statements, sw_statements, docs_statements, static_file_statements,
  prom_statements, common_service_statements, pprof_statements, statements, bootstrap,
}
use rk_grpc.Boot.Entry.Running.{exact_match, run_statements-registers, run_statements-absent}

-- What the parts of an entry are to be served by, read off the entry.
pub data Configured {Error : Type 0} (join : String → String → String) (entry : GrpcEntry Error)
    : String → Handler → Type 0 where
  at_root : Configured join entry "/" gw_mux
  at_sw : (path : String) → entry.sw_entry ≡ some path → Configured join entry path (config_file sw)
  at_docs :
      (path : String) → entry.docs_entry ≡ some path → Configured join entry path (config_file docs)
  at_static :
      (path : String)
      → entry.static_file_entry ≡ some path
      → Configured join entry path file_handler
  at_prom : (path : String) → entry.prom_entry ≡ some path → Configured join entry path prom_handler
  at_ready :
      (service : CommonServiceEntry)
      → entry.common_service_entry ≡ some service
      → Configured join entry service.ready_path ready
  at_gc :
      (service : CommonServiceEntry)
      → entry.common_service_entry ≡ some service
      → Configured join entry service.gc_path gc
  at_info :
      (service : CommonServiceEntry)
      → entry.common_service_entry ≡ some service
      → Configured join entry service.info_path info
  at_alive :
      (service : CommonServiceEntry)
      → entry.common_service_entry ≡ some service
      → Configured join entry service.alive_path alive
  at_pprof :
      (path : String) → entry.pprof_entry ≡ some path → Configured join entry path pprof_index
  at_profile :
      (path name : String)
      → entry.pprof_entry ≡ some path
      → Memᴰ name profiles
      → Configured join entry (join path name) (pprof_profile name)

Memᴰ-if_enabled :
    {A B : Type 0} {o : Option A} (body : A → List B) {a : A} {b : B}
    → o ≡ some a
    → Memᴰ b (body a)
    → Memᴰ b (if_enabled o body)
unfolding if_enabled
Memᴰ-if_enabled body e h = rw e h

module _ {Error : Type 0} (join : String → String → String) (entry : GrpcEntry Error) where
  Memᴰ-sw :
      (path : String)
      → entry.sw_entry ≡ some path
      → Memᴰ (handle path (config_file sw)) (sw_statements join entry)
  unfolding sw_statements
  Memᴰ-sw path e = Memᴰ-if_enabled _ e (Memᴰ.head refl)

  Memᴰ-docs :
      (path : String)
      → entry.docs_entry ≡ some path
      → Memᴰ (handle path (config_file docs)) (docs_statements join entry)
  unfolding docs_statements
  Memᴰ-docs path e = Memᴰ-if_enabled _ e (Memᴰ.head refl)

  Memᴰ-static :
      (path : String)
      → entry.static_file_entry ≡ some path
      → Memᴰ (handle path file_handler) (static_file_statements join entry)
  unfolding static_file_statements
  Memᴰ-static path e = Memᴰ-if_enabled _ e (Memᴰ.head refl)

  Memᴰ-prom :
      (path : String)
      → entry.prom_entry ≡ some path
      → Memᴰ (handle path prom_handler) (prom_statements join entry)
  unfolding prom_statements
  Memᴰ-prom path e = Memᴰ-if_enabled _ e (Memᴰ.head refl)

  Memᴰ-ready :
      (service : CommonServiceEntry)
      → entry.common_service_entry ≡ some service
      → Memᴰ (handle service.ready_path ready) (common_service_statements join entry)
  unfolding common_service_statements
  Memᴰ-ready service e = Memᴰ-if_enabled _ e (Memᴰ.head refl)

  Memᴰ-gc :
      (service : CommonServiceEntry)
      → entry.common_service_entry ≡ some service
      → Memᴰ (handle service.gc_path gc) (common_service_statements join entry)
  unfolding common_service_statements
  Memᴰ-gc service e = Memᴰ-if_enabled _ e (Memᴰ.tail (Memᴰ.head refl))

  Memᴰ-info :
      (service : CommonServiceEntry)
      → entry.common_service_entry ≡ some service
      → Memᴰ (handle service.info_path info) (common_service_statements join entry)
  unfolding common_service_statements
  Memᴰ-info service e = Memᴰ-if_enabled _ e (Memᴰ.tail (Memᴰ.tail (Memᴰ.head refl)))

  Memᴰ-alive :
      (service : CommonServiceEntry)
      → entry.common_service_entry ≡ some service
      → Memᴰ (handle service.alive_path alive) (common_service_statements join entry)
  unfolding common_service_statements
  Memᴰ-alive service e = Memᴰ-if_enabled _ e (Memᴰ.tail (Memᴰ.tail (Memᴰ.tail (Memᴰ.head refl))))

  Memᴰ-pprof :
      (path : String)
      → entry.pprof_entry ≡ some path
      → Memᴰ (handle path pprof_index) (pprof_statements join entry)
  unfolding pprof_statements
  Memᴰ-pprof path e = Memᴰ-if_enabled _ e (Memᴰ.head refl)

  Memᴰ-profile :
      (path name : String)
      → entry.pprof_entry ≡ some path
      → Memᴰ name profiles
      → Memᴰ (handle (join path name) (pprof_profile name)) (pprof_statements join entry)
  unfolding pprof_statements
  Memᴰ-profile path name e m =
      Memᴰ-if_enabled _ e (Memᴰ.tail (Memᴰ.map (λ n. handle (join path n) (pprof_profile n)) m))

  from_sw_statements :
      {st : BootStatement Error}
      → Memᴰ st (sw_statements join entry)
      → Memᴰ st (http_statements join entry)
  unfolding http_statements
  from_sw_statements h = Memᴰ.tail (
      Memᴰ.append_left _ (
        Memᴰ.append_left _
          (Memᴰ.append_left _ (Memᴰ.append_left _ (Memᴰ.append_left _ (Memᴰ.append_left _ h))))))

  from_docs_statements :
      {st : BootStatement Error}
      → Memᴰ st (docs_statements join entry)
      → Memᴰ st (http_statements join entry)
  unfolding http_statements
  from_docs_statements h = Memᴰ.tail (
      Memᴰ.append_left _ (
        Memᴰ.append_left _
          (Memᴰ.append_left _ (Memᴰ.append_left _ (Memᴰ.append_left _ (Memᴰ.append_right _ h))))))

  from_static_file_statements :
      {st : BootStatement Error}
      → Memᴰ st (static_file_statements join entry)
      → Memᴰ st (http_statements join entry)
  unfolding http_statements
  from_static_file_statements h = Memᴰ.tail (
      Memᴰ.append_left _
        (Memᴰ.append_left _ (Memᴰ.append_left _ (Memᴰ.append_left _ (Memᴰ.append_right _ h)))))

  from_prom_statements :
      {st : BootStatement Error}
      → Memᴰ st (prom_statements join entry)
      → Memᴰ st (http_statements join entry)
  unfolding http_statements
  from_prom_statements h =
      Memᴰ.tail
        (Memᴰ.append_left _ (Memᴰ.append_left _ (Memᴰ.append_left _ (Memᴰ.append_right _ h))))

  from_common_service_statements :
      {st : BootStatement Error}
      → Memᴰ st (common_service_statements join entry)
      → Memᴰ st (http_statements join entry)
  unfolding http_statements
  from_common_service_statements h =
      Memᴰ.tail (Memᴰ.append_left _ (Memᴰ.append_left _ (Memᴰ.append_right _ h)))

  from_pprof_statements :
      {st : BootStatement Error}
      → Memᴰ st (pprof_statements join entry)
      → Memᴰ st (http_statements join entry)
  unfolding http_statements
  from_pprof_statements h = Memᴰ.tail (Memᴰ.append_left _ (Memᴰ.append_right _ h))

  -- Each registration is among the statements of Bootstrap.
  Memᴰ-http_statements :
      (p : String) (h : Handler)
      → Configured join entry p h
      → Memᴰ (handle p h) (http_statements join entry)
  unfolding http_statements
  Memᴰ-http_statements p h at_root = Memᴰ.head refl
  Memᴰ-http_statements p h (at_sw path e) = from_sw_statements (Memᴰ-sw path e)
  Memᴰ-http_statements p h (at_docs path e) = from_docs_statements (Memᴰ-docs path e)
  Memᴰ-http_statements p h (at_static path e) = from_static_file_statements (Memᴰ-static path e)
  Memᴰ-http_statements p h (at_prom path e) = from_prom_statements (Memᴰ-prom path e)
  Memᴰ-http_statements p h (at_ready service e) =
      from_common_service_statements (Memᴰ-ready service e)
  Memᴰ-http_statements p h (at_gc service e) = from_common_service_statements (Memᴰ-gc service e)
  Memᴰ-http_statements p h (at_info service e) =
      from_common_service_statements (Memᴰ-info service e)
  Memᴰ-http_statements p h (at_alive service e) =
      from_common_service_statements (Memᴰ-alive service e)
  Memᴰ-http_statements p h (at_pprof path e) = from_pprof_statements (Memᴰ-pprof path e)
  Memᴰ-http_statements p h (at_profile path name e m) =
      from_pprof_statements (Memᴰ-profile path name e m)

  Memᴰ-statements :
      (p : String) (h : Handler)
      → Configured join entry p h
      → Memᴰ (handle p h) (statements join entry)
  unfolding statements
  Memᴰ-statements p h c = Memᴰ.tail (Memᴰ.append_right _ (Memᴰ-http_statements p h c))

  -- Where Bootstrap comes to its end, the pattern that is configured for a part of the entry leads to
  -- the handler of that part, and to no other: parts that are configured for one pattern have one
  -- handler. A second Bootstrap of the entry does not come to its end.
  pub bootstrap-serves :
      (s s' : EntryState) (p : String) (h : Handler)
      → bootstrap join entry s ≡ ok s'
      → Configured join entry p h
      → (exact_match p s'.http_mux ≡ some h)
        × ((k : Handler) → Configured join entry p k → k ≡ h)
        × ((s'' : EntryState) → bootstrap join entry s' ≢ ok s'')
  unfolding bootstrap
  bootstrap-serves s s' p h e c =
      let sts = statements join entry in
      let served : (k : Handler) → Configured join entry p k → exact_match p s'.http_mux ≡ some k =
        λ k d. run_statements-registers sts s s' p k e (Memᴰ-statements p k d) in
      (
        served h c,
        λ k d. cc (served h c, served k d),
        λ s''. run_statements-absent sts s' s'' p h h (served h c) (Memᴰ-statements p h c),
      )
