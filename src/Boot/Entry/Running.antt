-- ===== src/Boot/Entry/Running.antt =====
-- What a run of statements of Boot/Entry keeps and adds.
use mathlib.Core.List.{Memᴰ}
use mathlib.Core.List.Memᴰ.{head, tail}
use rk_grpc.Prelude.{
  String, ◌≡◌, refl, ◌≢◌, true, false, Option, none, some, List, [], ◌∷◌, ◌++◌, append-nil,
  append_assoc, str_eq, if◌then◌else◌, arith, eq_iff, eq_refl,
}
use rk_grpc.Boot.Entry.{
  Handler, EntryState, EntryCall, bootstrapped, BootResult, ok, panics, shuts_down, ◌>>=◌,
  BootStatement, bootstrap_entry, new_server, register_gw, handle, new_http_server, add_server_opts,
  set_layers, default_gw_port, has_pattern, mux_handle, execute, run_statements,
}

-- The handler of exactly this pattern.
unfoldable pub exact_match : String → List (String × Handler) → Option Handler
exact_match pattern [] = none
exact_match pattern ((p, h) ∷ mux) = if str_eq p pattern then some h else exact_match pattern mux

-- The entries that statements bootstrap.
unfoldable pub bootstraps : {Error : Type 0} → List (BootStatement Error) → List EntryCall
bootstraps [] = []
bootstraps (bootstrap_entry c ∷ sts) = bootstrapped c ∷ bootstraps sts
bootstraps (new_server ∷ sts) = bootstraps sts
bootstraps (register_gw r ∷ sts) = bootstraps sts
bootstraps (handle p h ∷ sts) = bootstraps sts
bootstraps (new_http_server ∷ sts) = bootstraps sts
bootstraps (add_server_opts opts ∷ sts) = bootstraps sts
bootstraps (set_layers layers ∷ sts) = bootstraps sts
bootstraps (default_gw_port port ∷ sts) = bootstraps sts

pub bootstraps-append :
    {Error : Type 0} (sts others : List (BootStatement Error))
    → bootstraps (sts ++ others) ≡ bootstraps sts ++ bootstraps others
unfolding bootstraps
bootstraps-append [] others = refl
bootstraps-append (bootstrap_entry c ∷ sts) others = cc (bootstraps-append sts others)
bootstraps-append (new_server ∷ sts) others = bootstraps-append sts others
bootstraps-append (register_gw r ∷ sts) others = bootstraps-append sts others
bootstraps-append (handle p h ∷ sts) others = bootstraps-append sts others
bootstraps-append (new_http_server ∷ sts) others = bootstraps-append sts others
bootstraps-append (add_server_opts opts ∷ sts) others = bootstraps-append sts others
bootstraps-append (set_layers layers ∷ sts) others = bootstraps-append sts others
bootstraps-append (default_gw_port port ∷ sts) others = bootstraps-append sts others

pub has_pattern-exact_match :
    (pattern : String) (h : Handler) (mux : List (String × Handler))
    → exact_match pattern mux ≡ some h
    → has_pattern pattern mux ≡ true
unfolding exact_match has_pattern
has_pattern-exact_match pattern h [] e = absurd (cc e)
has_pattern-exact_match pattern h ((p, k) ∷ mux) e =
    ground (arith, has_pattern-exact_match pattern h mux)

-- A registration that succeeds stands in front of those that were there.
pub execute-handle :
    {Error : Type 0} (pattern : String) (h : Handler) (s s' : EntryState)
    → execute {Error = Error} (handle pattern h) s ≡ ok s'
    → (has_pattern pattern s.http_mux ≡ false)
      × (s' ≡ record s { http_mux = (pattern, h) ∷ s.http_mux })
unfolding execute mux_handle
execute-handle pattern h s s' e = ground arith

exact_match-added :
    (pattern p : String) (h k : Handler) (mux : List (String × Handler))
    → has_pattern pattern mux ≡ false
    → exact_match p mux ≡ some k
    → exact_match p ((pattern, h) ∷ mux) ≡ some k
unfolding exact_match
exact_match-added pattern p h k mux absent e =
    ground (arith, eq_iff pattern p, has_pattern-exact_match p k mux)

-- A statement keeps the handlers of the patterns.
execute-keeps :
    {Error : Type 0} (st : BootStatement Error) (s s' : EntryState) (p : String) (k : Handler)
    → execute st s ≡ ok s'
    → exact_match p s.http_mux ≡ some k
    → exact_match p s'.http_mux ≡ some k
unfolding execute
execute-keeps (bootstrap_entry c) s s' p k e h = cc
execute-keeps new_server s s' p k e h = cc
execute-keeps (register_gw none) s s' p k e h = cc
execute-keeps (register_gw (some err)) s s' p k e h = absurd (cc e)
execute-keeps (handle pattern handler) s s' p k e h =
    let (absent, grown) = execute-handle pattern handler s s' e in
    cc (grown, exact_match-added pattern p handler k s.http_mux absent h)
execute-keeps new_http_server s s' p k e h = cc
execute-keeps (add_server_opts opts) s s' p k e h = cc
execute-keeps (set_layers layers) s s' p k e h = cc
execute-keeps (default_gw_port port) s s' p k e h = cc

then_ok :
    {Error A B : Type 0} (x : BootResult Error A) (f : A → BootResult Error B) (b : B)
    → x >>= f ≡ ok b
    → (a : A) × (x ≡ ok a) × (f a ≡ ok b)
then_ok (ok a) f b e = (a, refl, e)
then_ok (panics message) f b e = absurd (cc e)
then_ok (shuts_down err) f b e = absurd (cc e)

-- The first statement of a run that comes to its end, and the run of the others.
pub run_statements-cons :
    {Error : Type 0} (st : BootStatement Error) (sts : List (BootStatement Error))
    (s s' : EntryState)
    → run_statements (st ∷ sts) s ≡ ok s'
    → (t : EntryState) × (execute st s ≡ ok t) × (run_statements sts t ≡ ok s')
unfolding run_statements
run_statements-cons st sts s s' e = then_ok (execute st s) (run_statements sts) s' e

run_statements-keeps :
    {Error : Type 0} (sts : List (BootStatement Error)) (s s' : EntryState) (p : String)
    (k : Handler)
    → run_statements sts s ≡ ok s'
    → exact_match p s.http_mux ≡ some k
    → exact_match p s'.http_mux ≡ some k
unfolding run_statements
run_statements-keeps [] s s' p k e h = cc
run_statements-keeps (st ∷ sts) s s' p k e h =
    let (t, first, others) = run_statements-cons st sts s s' e in
    run_statements-keeps sts t s' p k others (execute-keeps st s t p k first h)

exact_match-first :
    (p : String) (k : Handler) (mux : List (String × Handler))
    → exact_match p ((p, k) ∷ mux) ≡ some k
unfolding exact_match
exact_match-first p k mux = rw (eq_refl p)

execute-registers :
    {Error : Type 0} (st : BootStatement Error) (s s' : EntryState) (p : String) (k : Handler)
    → handle p k ≡ st
    → execute st s ≡ ok s'
    → exact_match p s'.http_mux ≡ some k
execute-registers {Error = Error} st s s' p k this e =
    let (absent, grown) = execute-handle {Error = Error} p k s s' (cc (this, e)) in
    cc (grown, exact_match-first p k s.http_mux)

-- Every registration among the statements of a run that comes to its end is found afterwards.
pub run_statements-registers :
    {Error : Type 0} (sts : List (BootStatement Error)) (s s' : EntryState) (p : String)
    (k : Handler)
    → run_statements sts s ≡ ok s'
    → Memᴰ (handle p k) sts
    → exact_match p s'.http_mux ≡ some k
run_statements-registers [] s s' p k e h = elim h [ ]
run_statements-registers (st ∷ sts) s s' p k e (head this) =
    let (t, first, others) = run_statements-cons st sts s s' e in
    run_statements-keeps sts t s' p k others (execute-registers st s t p k this first)
run_statements-registers (st ∷ sts) s s' p k e (tail later) =
    let (t, first, others) = run_statements-cons st sts s s' e in
    run_statements-registers sts t s' p k others later

execute-calls :
    {Error : Type 0} (st : BootStatement Error) (s s' : EntryState)
    → execute st s ≡ ok s'
    → s'.calls ≡ s.calls ++ bootstraps (st ∷ [])
unfolding execute bootstraps
execute-calls (bootstrap_entry c) s s' e = cc
execute-calls new_server s s' e = cc (append-nil s.calls)
execute-calls (register_gw none) s s' e = cc (append-nil s.calls)
execute-calls (register_gw (some err)) s s' e = absurd (cc e)
execute-calls (handle p h) s s' e = cc (append-nil s.calls, (execute-handle p h s s' e).1)
execute-calls new_http_server s s' e = cc (append-nil s.calls)
execute-calls (add_server_opts opts) s s' e = cc (append-nil s.calls)
execute-calls (set_layers layers) s s' e = cc (append-nil s.calls)
execute-calls (default_gw_port port) s s' e = cc (append-nil s.calls)

-- The calls of a run that comes to its end.
pub run_statements-calls :
    {Error : Type 0} (sts : List (BootStatement Error)) (s s' : EntryState)
    → run_statements sts s ≡ ok s'
    → s'.calls ≡ s.calls ++ bootstraps sts
unfolding run_statements bootstraps
run_statements-calls [] s s' e = cc (append-nil s.calls)
run_statements-calls (st ∷ sts) s s' e =
    let (t, first, others) = run_statements-cons st sts s s' e in
    cc (
      execute-calls st s t first,
      run_statements-calls sts t s' others,
      bootstraps-append (st ∷ []) sts,
      append_assoc s.calls (bootstraps (st ∷ [])) (bootstraps sts),
    )

-- A run with a registration for a pattern that is there does not come to its end.
pub run_statements-absent :
    {Error : Type 0} (sts : List (BootStatement Error)) (s s' : EntryState) (p : String)
    (j k : Handler)
    → exact_match p s.http_mux ≡ some j
    → Memᴰ (handle p k) sts
    → run_statements sts s ≢ ok s'
run_statements-absent [] s s' p j k there h e = elim h [ ]
run_statements-absent {Error = Error} (st ∷ sts) s s' p j k there (head this) e =
    let (t, first, others) = run_statements-cons st sts s s' e in
    let (absent, _) = execute-handle {Error = Error} p k s t (cc (this, first)) in
    absurd (cc (absent, has_pattern-exact_match p j s.http_mux there))
run_statements-absent (st ∷ sts) s s' p j k there (tail h) e =
    let (t, first, others) = run_statements-cons st sts s s' e in
    run_statements-absent sts t s' p j k (execute-keeps st s t p j first there) h others
