-- ===== src/Web/Plain.antt =====
-- Concrete libraries for the browser side, which show that the laws taken of google-protobuf and of
-- grpc-web can hold: buffers that are lists of fields, and calls that answer at once.
use rk_grpc.Prelude.{
  ℕ, ◌≤◌, ◌<◌, String, ◌≡◌, refl, Bool, true, false, Option, none, some, List, [], ◌∷◌, ◌++◌, ◌==◌,
  if◌then◌else◌, str_eq, eq_iff, arith, length, ap,
}
use rk_grpc.Web.Jspb.{
  Jspb, Run, returned, thrown, out_of_fuel, WireField, text, number, ends_group, AccessorLaws,
  WireLaws, ProgressLaws,
}
use rk_grpc.Web.GrpcWeb.{
  GrpcWeb, CallLaws, Reply, failed, replied, Settled, rejected, resolved, MethodDescriptor,
}

-- The field that the reader has stopped at, and the fields ahead of it.
abbrev pub Reader : Type 0
Reader = Option WireField × List WireField

abbrev pub next_field : Reader → Option (Bool × Reader)
next_field (c, []) = some (false, (none, []))
next_field (c, f ∷ fs) = some (true, (some f, fs))

abbrev pub is_end_group : Reader → Bool
is_end_group (none, fs) = false
is_end_group (some f, fs) = ends_group f

abbrev pub get_field_number : Reader → ℕ
get_field_number (none, fs) = 0
get_field_number (some f, fs) = number f

abbrev pub read_string : Reader → Option (String × Reader)
read_string (some (text n s), fs) = some (s, (none, fs))
read_string (_, fs) = none

abbrev pub skip_field : Reader → Option Reader
skip_field (none, fs) = none
skip_field (some f, fs) = if ends_group f then none else some (none, fs)

abbrev pub current : Reader → Option (WireField × List WireField)
current (none, fs) = none
current (some f, fs) = some (f, fs)

abbrev pub jspb : Jspb
jspb = record {
  Bytes = List WireField;
  Init = Unit {0};
  Message = ℕ → String;
  Reader = Reader;
  Writer = List WireField;
  initialize = λ init n. "";
  get_field_with_default = λ m n d. if str_eq (m n) "" then d else m n;
  set_proto3_string_field = λ m n s k. if k == n then s else m k;
  new_reader = λ bytes. (none, bytes);
  next_field = next_field;
  is_end_group = is_end_group;
  get_field_number = get_field_number;
  read_string = read_string;
  skip_field = skip_field;
  new_writer = [];
  write_string = λ w n s. w ++ text n s ∷ [];
  get_result_buffer = λ w. w;
}

get_set :
    (m : ℕ → String) (n : ℕ) (s : String)
    → jspb.get_field_with_default (jspb.set_proto3_string_field m n s) n "" ≡ s
get_set m n s = ground (arith, eq_iff s "")

pub accessors : AccessorLaws jspb
accessors = record { get_set = get_set; get_initialize = λ n s. refl }

pub next_at_field :
    (r : Reader) (f : WireField) (fs : List WireField)
    → r.1 ≡ f ∷ fs
    → (r' : Reader) × (next_field r ≡ some (true, r')) × (current r' ≡ some (f, fs))
next_at_field (c, []) f fs h = cc
next_at_field (c, g ∷ gs) f fs h = ((some g, gs), refl, cc)

pub next_at_end : (r : Reader) → r.1 ≡ [] → (r' : Reader) × (next_field r ≡ some (false, r'))
next_at_end (c, []) h = ((none, []), refl)
next_at_end (c, g ∷ gs) h = cc

pub is_end_group_lem :
    (r : Reader) (f : WireField) (fs : List WireField)
    → current r ≡ some (f, fs)
    → is_end_group r ≡ ends_group f
is_end_group_lem (none, gs) f fs h = cc
is_end_group_lem (some g, gs) f fs h = ap ends_group {x = g} {y = f} (ground arith)

pub get_field_number_lem :
    (r : Reader) (f : WireField) (fs : List WireField)
    → current r ≡ some (f, fs)
    → get_field_number r ≡ number f
get_field_number_lem (none, gs) f fs h = cc
get_field_number_lem (some g, gs) f fs h = ap number {x = g} {y = f} (ground arith)

pub read_string_lem :
    (r : Reader) (n : ℕ) (s : String) (fs : List WireField)
    → current r ≡ some (text n s, fs)
    → (r' : Reader) × (read_string r ≡ some (s, r')) × (r'.1 ≡ fs)
read_string_lem (some (text n' s'), gs) n s fs h = ((none, gs), ground arith, ground arith)
read_string_lem (_, gs) n s fs h = cc

pub skip_field_lem :
    (r : Reader) (f : WireField) (fs : List WireField)
    → current r ≡ some (f, fs)
    → ends_group f ≡ false
    → (r' : Reader) × (skip_field r ≡ some r') × (r'.1 ≡ fs)
skip_field_lem (none, gs) f fs h e = cc
skip_field_lem (some g, gs) f fs h e =
    let same : g ≡ f = ground arith in ((none, gs), rw (same, e), ground arith)

unfoldable pub wire : WireLaws jspb
wire = record {
  unread = λ r. r.1;
  current = current;
  written = λ w. w;
  next_at_end = next_at_end;
  next_at_field = next_at_field;
  is_end_group_lem = is_end_group_lem;
  get_field_number_lem = get_field_number_lem;
  read_string_lem = read_string_lem;
  skip_field_lem = skip_field_lem;
  written_new = refl;
  written_string = λ w n s. refl;
  unread_result = λ w. refl;
}

pub next_consumes : (r r' : Reader) → next_field r ≡ some (true, r') → length r'.1 < length r.1
next_consumes (c, []) r' h = cc
next_consumes (c, f ∷ fs) (c', gs) h = let same : fs ≡ gs = ground arith in rw same (omega arith)

pub read_keeps :
    (r r' : Reader) (s : String) → read_string r ≡ some (s, r') → length r'.1 ≤ length r.1
read_keeps (some (text n t), fs) (c, gs) s h =
    let same : fs ≡ gs = ground arith in rw same (omega arith)
read_keeps (_, fs) r' s h = cc

pub skip_keeps : (r r' : Reader) → skip_field r ≡ some r' → length r'.1 ≤ length r.1
skip_keeps (none, fs) r' h = cc
skip_keeps (some f, fs) (c, gs) h = let same : fs ≡ gs = ground arith in rw same (omega arith)

unfoldable pub progress : ProgressLaws jspb
progress = record {
  left = λ r. length r.1;
  next_consumes = next_consumes;
  read_keeps = read_keeps;
  skip_keeps = skip_keeps;
}

-- What a caller is handed once the server has replied with a buffer.
abbrev pub settle : Run (ℕ → String) → Settled jspb String
settle (returned m) = resolved m
settle thrown = rejected "malformed"
settle out_of_fuel = rejected "malformed"

abbrev pub settle_reply : MethodDescriptor jspb → Reply jspb String → Settled jspb String
settle_reply d (failed e) = rejected e
settle_reply d (replied bytes) = settle (d.deserialize bytes)

abbrev pub arguments : Settled jspb String → Option String × Option (ℕ → String)
arguments (rejected e) = (some e, none)
arguments (resolved m) = (none, some m)

abbrev pub grpc_web : GrpcWeb jspb
grpc_web = record {
  Base = List (String × String);
  Error = String;
  new_base = λ options. options;
  rpc_call = λ b url req md d server. arguments (settle_reply d (server url md (d.serialize req)));
  unary_call = λ b url req md d server. settle_reply d (server url md (d.serialize req));
}

pub calls : CallLaws jspb grpc_web
calls = record {
  rpc_failed = λ b url req md d server e h. rw h;
  rpc_replied = λ b url req md d server bytes m h k. rw (h, k);
  unary_failed = λ b url req md d server e h. rw h;
  unary_replied = λ b url req md d server bytes m h k. rw (h, k);
}
