-- ===== src/Web/Bundle.antt =====
-- The bundle of the gRPC-Web example, example/boot/grpc-web/bundle.js: its module loader (line 1)
-- and the top-level code of the three modules of the program in it. Modules 4 and 5 are the
-- libraries google-protobuf and grpc-web, whose members are parameters.
-- An object is the list of the names of its members, at an address of the store.
pub mod Once
pub mod Ends
pub mod Shared
pub mod Program
use rk_grpc.Prelude.{
  ℕ, zero, suc, String, Bool, true, false, Option, none, some, List, [], ◌∷◌, ◌++◌, ◌==◌, ◌||◌,
  str_eq, if◌then◌else◌, length,
}

-- A statement of a module's top-level code, as far as it touches modules and their exports.
pub data Statement : Type 0 where
  -- `const x = require('name')`
  require : String → String → Statement
  -- a new object, `const x = {}`, or a function, or the prototype of one
  create : String → Statement
  -- `x.member = …`
  define : String → String → Statement
  -- `goog.object.extend(exports, x)`
  extend_exports : String → Statement
  -- `module.exports = x`
  export_object : String → Statement
  -- a use of `x.member` that throws where the member is undefined: a call, `new`, or a member of it
  use_member : String → String → Statement
  -- `if (x.DEBUG && !COMPILED) { … }`, where no `COMPILED` is bound
  debug_only : String → Statement
  -- what a library does: it exports an object with the members
  export_members : List String → Statement

-- An entry of the table: the factory, and the ids that its `require` resolves names to.
pub record Module : Type 0 where
  pub body : List Statement
  pub deps : List (String × ℕ)

abbrev pub Table : Type 0
Table = List (ℕ × Module)

-- `instances` is the `n` of the loader: the exports of each module that it has made, at present.
-- `evaluated` lists the modules whose factories have been called, the latest first.
pub record State : Type 0 where
  pub store : List (List String)
  pub instances : List (ℕ × ℕ)
  pub evaluated : List ℕ

-- How a call of the loader or of a factory ends. After an error the state stays as it is: the
-- loader keeps a module whose factory threw. Only fuel that runs out gives `out_of_fuel`.
pub data Ended {ℓ} (A : Type ℓ) : Type ℓ where
  ended : A → State → Ended A
  thrown : State → Ended A
  out_of_fuel : Ended A

infixl 5 ◌>>=◌
abbrev pub ◌>>=◌ {ℓ κ} : {A : Type ℓ} {B : Type κ} → Ended A → (A → State → Ended B) → Ended B
ended a st >>= k = k a st
thrown st >>= k = thrown st
out_of_fuel >>= k = out_of_fuel

abbrev pub lookup_id {ℓ} : {A : Type ℓ} → ℕ → List (ℕ × A) → Option A
lookup_id i [] = none
lookup_id i ((j, a) ∷ m) = if j == i then some a else lookup_id i m

abbrev pub lookup_name {ℓ} : {A : Type ℓ} → String → List (String × A) → Option A
lookup_name k [] = none
lookup_name k ((j, a) ∷ m) = if str_eq j k then some a else lookup_name k m

unfoldable pub any_eq : String → List String → Bool
any_eq k [] = false
any_eq k (j ∷ js) = str_eq j k || any_eq k js

-- Members that the object has already are assigned again.
unfoldable pub with_members : List String → List String → List String
unfolding any_eq
with_members object [] = object
with_members object (k ∷ ks) =
    if any_eq k object then with_members object ks else with_members (object ++ k ∷ []) ks

-- Members are added to the object at an address.
unfoldable pub add_members : List String → ℕ → List (List String) → List (List String)
unfolding with_members
add_members names a [] = []
add_members names zero (o ∷ os) = with_members o names ∷ os
add_members names (suc a) (o ∷ os) = o ∷ add_members names a os

-- The members of the object at an address.
unfoldable pub members : ℕ → List (List String) → List String
members a [] = []
members zero (o ∷ os) = o
members (suc a) (o ∷ os) = members a os

-- `var p = n[i] = {exports:{}}`, and the call of the factory that follows it.
unfoldable pub instantiate : ℕ → State → State
instantiate i st = record {
  store = st.store ++ [] ∷ [];
  instances = (i, length st.store) ∷ st.instances;
  evaluated = i ∷ st.evaluated;
}

-- `module.exports = …`
unfoldable pub set_exports : ℕ → ℕ → State → State
set_exports i a st = record st { instances = (i, a) ∷ st.instances }

-- Whether an object that a local is bound to has a member; that of a member has a dot in its name.
unfoldable pub has_member : String → String → List (String × ℕ) → State → Option Bool
unfolding any_eq members
has_member x member locals st = elim (lookup_name x locals) [
  | none ↦ none
  | some a ↦ some (any_eq member (members a st.store))
]

-- The statements of the factory of module `i`, with its local objects. A name that is not bound
-- is a ReferenceError, and so is a `require` of a name that the table does not resolve.
unfoldable pub run_factory :
    (ℕ → State → Ended ℕ)
    → ℕ
    → List (String × ℕ)
    → List Statement
    → List (String × ℕ)
    → State
    → Ended (Unit {0})
unfolding has_member
run_factory load i deps [] locals st = ended tt st
run_factory load i deps (require x name ∷ ss) locals st = elim (lookup_name name deps) [
  | none ↦ thrown st
  | some j ↦ load j st >>= (λ a st'. run_factory load i deps ss ((x, a) ∷ locals) st')
]
run_factory load i deps (create x ∷ ss) locals st =
    run_factory load i deps ss ((x, length st.store) ∷ locals)
      (record st { store = st.store ++ [] ∷ [] })
run_factory load i deps (define x member ∷ ss) locals st = elim (lookup_name x locals) [
  | none ↦ thrown st
  | some a ↦
      run_factory load i deps ss locals (record st { store = add_members (member ∷ []) a st.store })
]
run_factory load i deps (use_member x member ∷ ss) locals st =
    elim (has_member x member locals st) [
      | none ↦ thrown st
      | some there ↦ elim there [ true ↦ run_factory load i deps ss locals st | false ↦ thrown st ]
    ]
run_factory load i deps (debug_only x ∷ ss) locals st = elim (has_member x "DEBUG" locals st) [
  | none ↦ thrown st
  | some debug ↦ elim debug [ true ↦ thrown st | false ↦ run_factory load i deps ss locals st ]
]
run_factory load i deps (extend_exports x ∷ ss) locals st = elim (lookup_name x locals) [
  | none ↦ thrown st
  | some c ↦ elim (lookup_id i st.instances) [
    | none ↦ thrown st
    | some a ↦
        run_factory load i deps ss locals
          (record st { store = add_members (members c st.store) a st.store })
  ]
]
run_factory load i deps (export_members names ∷ ss) locals st =
    run_factory load i deps ss locals
      (set_exports i (length st.store) (record st { store = st.store ++ names ∷ [] }))
run_factory load i deps (export_object x ∷ ss) locals st = elim (lookup_name x locals) [
  | none ↦ thrown st
  | some a ↦ run_factory load i deps ss locals (set_exports i a st)
]

-- `return n[i].exports`
unfoldable pub exports_of : ℕ → State → Ended ℕ
exports_of i st = elim (lookup_id i st.instances) [ none ↦ thrown st | some a ↦ ended a st ]

-- The loader, `o(i)`: a module that has been made is not made again, and a module that is not in
-- the table is an error, there being no `require` outside the bundle.
unfoldable pub load : Table → ℕ → ℕ → State → Ended ℕ
unfolding instantiate exports_of
load table zero i st = out_of_fuel
load table (suc fuel) i st = elim (lookup_id i st.instances) [
  | some a ↦ ended a st
  | none ↦ elim (lookup_id i table) [
    | none ↦ thrown st
    | some m ↦
        run_factory (load table fuel) i m.deps m.body [] (instantiate i st)
        >>= (λ u st'. exports_of i st')
  ]
]

abbrev pub empty_state : State
empty_state = record { store = []; instances = []; evaluated = [] }
