-- ===== src/Web/Bundle/Shared.antt =====
-- Of example/boot/grpc-web/bundle.js: what the modules of the bundle see of each other.
use rk_grpc.Prelude.{
  true, false, ℕ, suc, String, ◌≡◌, refl, ap, ◌∙◌, Option, some, none, List, [], ◌∷◌,
}
use rk_grpc.Web.Bundle.Program.{bundle, stub_module, messages_module, page_module}
use rk_grpc.Web.Bundle.{
  Ended, thrown, out_of_fuel, ◌>>=◌, State, ended, load, empty_state, lookup_id, run_factory,
  has_member, add_members, with_members, any_eq, members, instantiate, set_exports, exports_of,
}

-- The members of the exports of a module.
abbrev pub exported : ℕ → State → Option (List String)
exported i st = elim (lookup_id i st.instances) [ none ↦ none | some a ↦ some (members a st.store) ]

abbrev pub shared_names : List String
shared_names = "GreeterRequest" ∷ "GreeterResponse" ∷ "GreeterClient" ∷ "GreeterPromiseClient" ∷ []

-- What the modules of the program use of the two libraries while they are loaded is there.
abbrev pub HasUsed : List String → List String → Type 0
HasUsed protobuf grpc_web =
    (any_eq "exportSymbol" protobuf ≡ true)
    × (any_eq "inherits" protobuf ≡ true)
    × (any_eq "Message" protobuf ≡ true)
    × (any_eq "object.extend" protobuf ≡ true)
    × (any_eq "DEBUG" protobuf ≡ false)
    × (any_eq "MethodDescriptor" grpc_web ≡ true)
    × (any_eq "MethodType" grpc_web ≡ true)

-- The members of a message's constructor and of its prototype.
abbrev class_names : List String
class_names =
    "toObject" ∷ "deserializeBinary" ∷ "deserializeBinaryFromReader" ∷ "serializeBinaryToWriter"
    ∷ []

abbrev prototype_names : List String
prototype_names = "constructor" ∷ "toObject" ∷ "serializeBinary" ∷ "getMessage" ∷ "setMessage" ∷ []

abbrev message_names : List String
message_names = "GreeterRequest" ∷ "GreeterResponse" ∷ []

-- The state after the load of the messages by the page.
abbrev after_messages : List String → State
after_messages protobuf = record {
  store =
      [] ∷ message_names ∷ [] ∷ protobuf ∷ message_names ∷ class_names ∷ prototype_names
      ∷ class_names ∷ prototype_names ∷ [];
  instances = (4, 3) ∷ (4, 2) ∷ (2, 1) ∷ (3, 0) ∷ [];
  evaluated = 4 ∷ 2 ∷ 3 ∷ [];
}

load_messages :
    (protobuf grpc_web : List String) (fuel : ℕ)
    → HasUsed protobuf grpc_web
    → load (bundle protobuf grpc_web) (suc (suc fuel)) 2 (instantiate 3 empty_state)
      ≡ ended 1 (after_messages protobuf)
unfolding load bundle messages_module run_factory has_member add_members with_members any_eq members
    instantiate set_exports exports_of
load_messages protobuf grpc_web fuel (symbol, inherits, message, extend, debug, md, mt) =
    rw (symbol, inherits, message, debug) (rw (inherits, message, debug, extend) refl)

load_stubs :
    (protobuf grpc_web : List String) (fuel : ℕ)
    → HasUsed protobuf grpc_web
    → (st : State) × (load (bundle protobuf grpc_web) (suc (suc fuel)) 1 (after_messages protobuf)
        ≡ ended 1 st)
      × (st.evaluated ≡ 5 ∷ 1 ∷ 4 ∷ 2 ∷ 3 ∷ [])
      × (lookup_id 1 st.instances ≡ lookup_id 2 st.instances)
      × (exported 1 st ≡ some shared_names)
      × (exported 4 st ≡ some protobuf)
      × (exported 5 st ≡ some grpc_web)
      × (lookup_id 3 st.instances ≡ some 0)
unfolding load bundle stub_module run_factory has_member add_members with_members any_eq members
    instantiate set_exports exports_of
load_stubs protobuf grpc_web fuel (symbol, inherits, message, extend, debug, md, mt) =
    rw md (rw mt (_, refl, refl, refl, refl, refl, refl, refl))

assoc_one :
    (e : Ended ℕ) (j : State → Ended ℕ)
    → (e >>= (λ b st'. ended (tt {0}) st') >>= (λ u st'. j st')) ≡ (e >>= (λ b st'. j st'))
assoc_one (ended a st) j = refl
assoc_one (thrown st) j = refl
assoc_one out_of_fuel j = refl

assoc :
    (e : Ended ℕ) (k : ℕ → State → Ended ℕ) (j : State → Ended ℕ)
    → (e >>= (λ a st. k a st >>= (λ b st'. ended (tt {0}) st')) >>= (λ u st'. j st'))
      ≡ (e >>= (λ a st. k a st >>= (λ b st'. j st')))
assoc (ended a st) k j = assoc_one (k a st) j
assoc (thrown st) k j = refl
assoc out_of_fuel k j = refl

-- The page's two requires, and what the loader returns of it.
page_steps :
    (protobuf grpc_web : List String) (fuel : ℕ)
    → load (bundle protobuf grpc_web) (suc fuel) 3 empty_state ≡ (
        load (bundle protobuf grpc_web) fuel 2 (instantiate 3 empty_state)
        >>= (λ a st. load (bundle protobuf grpc_web) fuel 1 st >>= (λ b st'. exports_of 3 st')))
unfolding load page_module run_factory bundle
page_steps protobuf grpc_web fuel =
    let T = bundle protobuf grpc_web in
    assoc (load T fuel 2 (instantiate 3 empty_state)) (λ a st. load T fuel 1 st) (exports_of 3)

exports_of_made :
    (i a : ℕ) (st : State) → lookup_id i st.instances ≡ some a → exports_of i st ≡ ended a st
unfolding exports_of
exports_of_made i a st made = rw (made, exports_of) refl

load_page :
    (protobuf grpc_web : List String) (fuel : ℕ) (st : State)
    → load (bundle protobuf grpc_web) (suc (suc fuel)) 2 (instantiate 3 empty_state)
      ≡ ended 1 (after_messages protobuf)
    → load (bundle protobuf grpc_web) (suc (suc fuel)) 1 (after_messages protobuf) ≡ ended 1 st
    → lookup_id 3 st.instances ≡ some 0
    → load (bundle protobuf grpc_web) (suc (suc (suc fuel))) 3 empty_state ≡ ended 0 st
load_page protobuf grpc_web fuel st messages stubs made =
    let T = bundle protobuf grpc_web in
    page_steps protobuf grpc_web (suc (suc fuel))
    ∙ ap (λ e. e >>= (λ a st'. load T (suc (suc fuel)) 1 st' >>= (λ b st''. exports_of 3 st'')))
        messages
    ∙ ap (λ e. e >>= (λ b st''. exports_of 3 st'')) stubs
    ∙ exports_of_made 3 0 st made

-- Where google-protobuf exports exportSymbol, inherits, Message and object.extend, and no DEBUG, and
-- grpc-web MethodDescriptor and MethodType, and whatever else they export, the load of the page
-- script, with the fuel of a chain of three loads or more, returns. It runs the factories of the
-- page, the messages, google-protobuf, the stubs and grpc-web in this order, each once; the stubs
-- and the messages then export one object, with the two messages and the two clients; each library
-- exports what it has.
pub bundle-shares_exports :
    (protobuf grpc_web : List String) (fuel : ℕ)
    → HasUsed protobuf grpc_web
    → (page : ℕ) × (st : State) × (load
          (bundle protobuf grpc_web)
          (suc (suc (suc fuel)))
          3
          empty_state
        ≡ ended page st)
      × (st.evaluated ≡ 5 ∷ 1 ∷ 4 ∷ 2 ∷ 3 ∷ [])
      × (lookup_id 1 st.instances ≡ lookup_id 2 st.instances)
      × (exported 1 st ≡ some shared_names)
      × (exported 4 st ≡ some protobuf)
      × (exported 5 st ≡ some grpc_web)
bundle-shares_exports protobuf grpc_web fuel used =
    let (st, stubs, evaluated, one, shared, jspb, web, made) =
      load_stubs protobuf grpc_web fuel used in
    let loads =
      load_page protobuf grpc_web fuel st (load_messages protobuf grpc_web fuel used) stubs made in
    (0, st, loads, evaluated, one, shared, jspb, web)
