-- ===== src/Web/Bundle/Once.antt =====
-- Of the loader of example/boot/grpc-web/bundle.js: what every load keeps, and that no module is
-- evaluated twice.
use rk_grpc.Prelude.{
  ℕ, Option, some, Bool, true, false, zero, suc, String, ◌≡◌, ◌≢◌, none, List, [], ◌∷◌, arith,
  Option-cases, inl, inr, length,
}
use rk_grpc.Web.Bundle.{
  use_member, debug_only, has_member, Statement, require, create, export_members, define,
  extend_exports, export_object, Table, State, Ended, ended, thrown, out_of_fuel, lookup_id,
  lookup_name, instantiate, set_exports, run_factory, exports_of, load, empty_state, ◌>>=◌,
}

-- What a property of states must survive: a write to the store, the making of a module that has
-- not been made, and a change of the exports of one that has.
pub record IsKept (P : State → Type 0) : Type 0 where
  pub at_store : (st : State) (s : List (List String)) → P st → P (record st { store = s })
  pub at_instantiate :
      (i : ℕ) (st : State) → lookup_id i st.instances ≡ none → P st → P (instantiate i st)
  pub at_exports : (i a : ℕ) (st : State) → P st → P (set_exports i a st)

-- The property holds of the state in which a call has ended, with an error or without.
abbrev pub Holds {ℓ} : {A : Type ℓ} → (State → Type 0) → Ended A → Type 0
Holds P (ended a st) = P st
Holds P (thrown st) = P st
Holds P out_of_fuel = Unit

pub >>=-Holds :
    (P : State → Type 0) {A B : Type 0} (e : Ended A) (k : A → State → Ended B)
    → Holds P e
    → ((a : A) (st : State) → P st → Holds P (k a st))
    → Holds P (e >>= k)
>>=-Holds P (ended a st) k h f = f a st h
>>=-Holds P (thrown st) k h f = h
>>=-Holds P out_of_fuel k h f = tt

either_way-Holds :
    (P : State → Type 0) {A : Type 0} (found : Option Bool) (st : State) (taken passed : Ended A)
    → Holds P taken
    → Holds P passed
    → P st
    → Holds P (elim found [ none ↦ thrown st | some b ↦ elim b [ true ↦ taken | false ↦ passed ] ])
either_way-Holds P none st taken passed t e p = p
either_way-Holds P (some true) st taken passed t e p = t
either_way-Holds P (some false) st taken passed t e p = e

module _ (P : State → Type 0) (K : IsKept P) where
  pub run_factory-Holds :
      (load_module : ℕ → State → Ended ℕ)
      → ((j : ℕ) (st : State) → P st → Holds P (load_module j st))
      → (i : ℕ) (deps : List (String × ℕ)) (ss : List Statement) (locals : List (String × ℕ))
        (st : State)
      → P st
      → Holds P (run_factory load_module i deps ss locals st)
  unfolding run_factory
  run_factory-Holds ld h i deps [] locals st p = p
  run_factory-Holds ld h i deps (require x name ∷ ss) locals st p =
      elim (Option-cases (lookup_name name deps)) [
        | inl gone ↦ rw (gone, run_factory) p
        | inr (j, there) ↦
            rw (there, run_factory)
              (>>=-Holds P (ld j st) _ (h j st p)
                (λ a st' q. run_factory-Holds ld h i deps ss ((x, a) ∷ locals) st' q))
      ]
  run_factory-Holds ld h i deps (create x ∷ ss) locals st p =
      run_factory-Holds ld h i deps ss ((x, length st.store) ∷ locals) _ (K.at_store st _ p)
  run_factory-Holds ld h i deps (define x member ∷ ss) locals st p =
      elim (Option-cases (lookup_name x locals)) [
        | inl gone ↦ rw (gone, run_factory) p
        | inr (a, there) ↦
            rw (there, run_factory) (run_factory-Holds ld h i deps ss locals _ (K.at_store st _ p))
      ]
  run_factory-Holds ld h i deps (use_member x member ∷ ss) locals st p =
      either_way-Holds P (has_member x member locals st) st _ _
        (run_factory-Holds ld h i deps ss locals st p) p p
  run_factory-Holds ld h i deps (debug_only x ∷ ss) locals st p =
      either_way-Holds P (has_member x "DEBUG" locals st) st _ _ p
        (run_factory-Holds ld h i deps ss locals st p) p
  run_factory-Holds ld h i deps (extend_exports x ∷ ss) locals st p =
      elim (Option-cases (lookup_name x locals)) [
        | inl gone ↦ rw (gone, run_factory) p
        | inr (c, bound) ↦ elim (Option-cases (lookup_id i st.instances)) [
          | inl gone ↦ rw (bound, run_factory, gone) p
          | inr (a, there) ↦
              rw (bound, run_factory, there)
                (run_factory-Holds ld h i deps ss locals _ (K.at_store st _ p))
        ]
      ]
  run_factory-Holds ld h i deps (export_members names ∷ ss) locals st p =
      run_factory-Holds ld h i deps ss locals _ (K.at_exports i _ _ (K.at_store st _ p))
  run_factory-Holds ld h i deps (export_object x ∷ ss) locals st p =
      elim (Option-cases (lookup_name x locals)) [
        | inl gone ↦ rw (gone, run_factory) p
        | inr (a, there) ↦
            rw (there, run_factory)
              (run_factory-Holds ld h i deps ss locals _ (K.at_exports i a st p))
      ]

  exports_of-Holds : (i : ℕ) (st : State) → P st → Holds P (exports_of i st)
  unfolding exports_of
  exports_of-Holds i st p = elim (Option-cases (lookup_id i st.instances)) [
    | inl gone ↦ rw (gone, exports_of) p
    | inr (a, there) ↦ rw (there, exports_of) p
  ]

  -- A property that survives the three changes of the state survives a load.
  pub load-Holds : (table : Table) (fuel i : ℕ) (st : State) → P st → Holds P (load table fuel i st)
  unfolding load
  load-Holds table zero i st p = tt
  load-Holds table (suc fuel) i st p = elim (Option-cases (lookup_id i st.instances)) [
    | inr (a, made) ↦ rw (made, load) p
    | inl new ↦ elim (Option-cases (lookup_id i table)) [
      | inl gone ↦ rw (new, load, gone) p
      | inr (m, there) ↦
          rw (new, load, there)
            (>>=-Holds P (run_factory (load table fuel) i m.deps m.body [] (instantiate i st)) _
              (run_factory-Holds (load table fuel) (load-Holds table fuel) i m.deps m.body [] _
                (K.at_instantiate i st new p))
              (λ u st' q. exports_of-Holds i st' q))
    ]
  ]

abbrev pub NotIn : ℕ → List ℕ → Type 0
NotIn i [] = Unit
NotIn i (j ∷ js) = (i ≢ j) × NotIn i js

-- The modules of a list are different, and each has been made.
abbrev pub EachOnce : List ℕ → List (ℕ × ℕ) → Type 0
EachOnce [] made = Unit
EachOnce (i ∷ is) made = NotIn i is × (lookup_id i made ≢ none) × EachOnce is made

EachOnce-add :
    (i a : ℕ) (is : List ℕ) (made : List (ℕ × ℕ)) → EachOnce is made → EachOnce is ((i, a) ∷ made)
EachOnce-add i a [] made h = tt
EachOnce-add i a (j ∷ js) made (new, there, rest) =
    (new, ground arith, EachOnce-add i a js made rest)

NotIn-of_unmade :
    (i : ℕ) (is : List ℕ) (made : List (ℕ × ℕ))
    → EachOnce is made
    → lookup_id i made ≡ none
    → NotIn i is
NotIn-of_unmade i [] made h e = tt
NotIn-of_unmade i (j ∷ js) made (new, there, rest) e =
    ((λ same. there (rw same at e)), NotIn-of_unmade i js made rest e)

lookup_id-first : (i a : ℕ) (made : List (ℕ × ℕ)) → lookup_id i ((i, a) ∷ made) ≢ none
lookup_id-first i a made = ground arith

EachOnce-IsKept : IsKept (λ st. EachOnce st.evaluated st.instances)
unfolding instantiate set_exports
EachOnce-IsKept = record {
  at_store = λ st s h. h;
  at_instantiate = λ i st new h. (
    NotIn-of_unmade i st.evaluated st.instances h new,
    lookup_id-first i (length st.store) st.instances,
    EachOnce-add i (length st.store) st.evaluated st.instances h,
  );
  at_exports = λ i a st h. EachOnce-add i a st.evaluated st.instances h;
}

-- Whatever the table, cyclic ones included, a load from the empty state has called the factory of
-- no module twice when it returns or throws, and it has an exports object for each factory called.
pub load-EachOnce :
    (table : Table) (fuel i : ℕ)
    → Holds (λ st. EachOnce st.evaluated st.instances) (load table fuel i empty_state)
load-EachOnce table fuel i = load-Holds _ EachOnce-IsKept table fuel i empty_state tt
