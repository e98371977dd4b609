-- ===== src/Web/Bundle/Ends.antt =====
-- Of the loader of example/boot/grpc-web/bundle.js: every load comes to an end.
use rk_grpc.Prelude.{
  Option, some, Bool, true, false, ℕ, zero, suc, String, ◌≡◌, ◌≢◌, subst, none, some, List, [], ◌∷◌,
  ◌≤◌, ◌<◌, arith, Option-cases, inl, inr, length,
}
use rk_grpc.Web.Bundle.Once.{IsKept, Holds, run_factory-Holds, load-Holds}
use rk_grpc.Web.Bundle.{
  use_member, debug_only, has_member, Statement, require, create, export_members, define,
  extend_exports, export_object, Module, Table, State, Ended, ended, thrown, out_of_fuel, lookup_id,
  lookup_name, instantiate, set_exports, run_factory, exports_of, load, empty_state, ◌>>=◌,
}

-- How many modules of the table have not been made.
abbrev unmade : Table → List (ℕ × ℕ) → ℕ
unmade [] made = 0
unmade ((i, m) ∷ table) made =
    let rest = unmade table made in elim (lookup_id i made) [ none ↦ suc rest | some a ↦ rest ]

unmade-le_length : (table : Table) → unmade table [] ≤ length table
unmade-le_length [] = ground arith
unmade-le_length ((i, m) ∷ table) = let ih = unmade-le_length table in ground arith

unmade_mono :
    (table : Table) (i a : ℕ) (made : List (ℕ × ℕ))
    → unmade table ((i, a) ∷ made) ≤ unmade table made
unmade_mono [] i a made = ground arith
unmade_mono ((j, m) ∷ table) i a made = let ih = unmade_mono table i a made in ground arith

-- A module of the table that is made leaves fewer.
unmade_drop :
    (table : Table) (i a : ℕ) (m : Module) (made : List (ℕ × ℕ))
    → lookup_id i table ≡ some m
    → lookup_id i made ≡ none
    → unmade table ((i, a) ∷ made) < unmade table made
unmade_drop [] i a m made there new = ground arith
unmade_drop ((j, m') ∷ table) i a m made there new =
    let le = unmade_mono table i a made in
    let lt : lookup_id i table ≡ some m → unmade table ((i, a) ∷ made) < unmade table made =
      (λ found. unmade_drop table i a m made found new) in
    ground arith

unmade-IsKept : (table : Table) (k : ℕ) → IsKept (λ st. unmade table st.instances < k)
unfolding instantiate set_exports
unmade-IsKept table k = record {
  at_store = λ st s h. h;
  at_instantiate =
      λ i st new h. let le = unmade_mono table i (length st.store) st.instances in omega arith;
  at_exports = λ i a st h. let le = unmade_mono table i a st.instances in omega arith;
}

abbrev Ends {ℓ} : {A : Type ℓ} → Ended A → Type 0
Ends (ended a st) = Unit
Ends (thrown st) = Unit
Ends out_of_fuel = ⊥

>>=-Ends :
    (P : State → Type 0) {A B : Type 0} (e : Ended A) (k : A → State → Ended B)
    → Ends e
    → Holds P e
    → ((a : A) (st : State) → P st → Ends (k a st))
    → Ends (e >>= k)
>>=-Ends P (ended a st) k t h f = f a st h
>>=-Ends P (thrown st) k t h f = tt
>>=-Ends P out_of_fuel k t h f = elim t [ ]

exports_of-Ends : (i : ℕ) (st : State) → Ends (exports_of i st)
unfolding exports_of
exports_of-Ends i st = elim (Option-cases (lookup_id i st.instances)) [
  | inl gone ↦ rw (gone, exports_of) tt
  | inr (a, there) ↦ rw (there, exports_of) tt
]

either_way-Ends :
    {A : Type 0} (found : Option Bool) (st : State) (taken passed : Ended A)
    → Ends taken
    → Ends passed
    → Ends (elim found [ none ↦ thrown st | some b ↦ elim b [ true ↦ taken | false ↦ passed ] ])
either_way-Ends none st taken passed t e = tt
either_way-Ends (some true) st taken passed t e = t
either_way-Ends (some false) st taken passed t e = e

module _ (P : State → Type 0) (K : IsKept P) (load_module : ℕ → State → Ended ℕ)
    (holds : (j : ℕ) (st : State) → P st → Holds P (load_module j st))
    (ends : (j : ℕ) (st : State) → P st → Ends (load_module j st)) where
  run_factory-Ends :
      (i : ℕ) (deps : List (String × ℕ)) (ss : List Statement) (locals : List (String × ℕ))
      (st : State)
      → P st
      → Ends (run_factory load_module i deps ss locals st)
  unfolding run_factory
  run_factory-Ends i deps [] locals st p = tt
  run_factory-Ends i deps (require x name ∷ ss) locals st p =
      elim (Option-cases (lookup_name name deps)) [
        | inl gone ↦ rw (gone, run_factory) tt
        | inr (j, there) ↦
            rw (there, run_factory)
              (>>=-Ends P (load_module j st) _ (ends j st p) (holds j st p)
                (λ a st' q. run_factory-Ends i deps ss ((x, a) ∷ locals) st' q))
      ]
  run_factory-Ends i deps (create x ∷ ss) locals st p =
      run_factory-Ends i deps ss ((x, length st.store) ∷ locals) _ (K.at_store st _ p)
  run_factory-Ends i deps (define x member ∷ ss) locals st p =
      elim (Option-cases (lookup_name x locals)) [
        | inl gone ↦ rw (gone, run_factory) tt
        | inr (a, there) ↦
            rw (there, run_factory) (run_factory-Ends i deps ss locals _ (K.at_store st _ p))
      ]
  run_factory-Ends i deps (use_member x member ∷ ss) locals st p =
      either_way-Ends (has_member x member locals st) st _ _
        (run_factory-Ends i deps ss locals st p) tt
  run_factory-Ends i deps (debug_only x ∷ ss) locals st p =
      either_way-Ends (has_member x "DEBUG" locals st) st _ _ tt
        (run_factory-Ends i deps ss locals st p)
  run_factory-Ends i deps (extend_exports x ∷ ss) locals st p =
      elim (Option-cases (lookup_name x locals)) [
        | inl gone ↦ rw (gone, run_factory) tt
        | inr (c, bound) ↦ elim (Option-cases (lookup_id i st.instances)) [
          | inl gone ↦ rw (bound, run_factory, gone) tt
          | inr (a, there) ↦
              rw (bound, run_factory, there)
                (run_factory-Ends i deps ss locals _ (K.at_store st _ p))
        ]
      ]
  run_factory-Ends i deps (export_members names ∷ ss) locals st p =
      run_factory-Ends i deps ss locals _ (K.at_exports i _ _ (K.at_store st _ p))
  run_factory-Ends i deps (export_object x ∷ ss) locals st p =
      elim (Option-cases (lookup_name x locals)) [
        | inl gone ↦ rw (gone, run_factory) tt
        | inr (a, there) ↦
            rw (there, run_factory) (run_factory-Ends i deps ss locals _ (K.at_exports i a st p))
      ]

load-Ends :
    (table : Table) (fuel i : ℕ) (st : State)
    → unmade table st.instances < fuel
    → Ends (load table fuel i st)
unfolding load instantiate
load-Ends table zero i st few = elim few [ ]
load-Ends table (suc fuel) i st few = elim (Option-cases (lookup_id i st.instances)) [
  | inr (a, made) ↦ rw (made, load) tt
  | inl new ↦ elim (Option-cases (lookup_id i table)) [
    | inl gone ↦ rw (new, load, gone) tt
    | inr (m, there) ↦
        let P : State → Type 0 = (λ st'. unmade table st'.instances < fuel) in
        let K : IsKept P = unmade-IsKept table fuel in
        let h : (j : ℕ) (st' : State) → P st' → Holds P (load table fuel j st') =
          (λ j st' p. load-Holds P K table fuel j st' p) in
        let drop = unmade_drop table i (length st.store) m st.instances there new in
        let few' : unmade table (instantiate i st).instances < fuel = omega arith in
        rw (new, load, there)
          (>>=-Ends P (run_factory (load table fuel) i m.deps m.body [] (instantiate i st)) _
            (run_factory-Ends P K (load table fuel) h (load-Ends table fuel) i m.deps m.body [] _
              few')
            (run_factory-Holds P K (load table fuel) h i m.deps m.body [] _ few')
            (λ u st' q. exports_of-Ends i st'))
  ]
]

-- With more fuel than the table has modules, a load from the empty state comes to an end whatever
-- the table, cyclic ones included: it returns or throws.
pub load-ne-out_of_fuel :
    (table : Table) (fuel i : ℕ) → length table < fuel → load table fuel i empty_state ≢ out_of_fuel
load-ne-out_of_fuel table fuel i enough same =
    let few = unmade-le_length table in
    subst Ends same (load-Ends table fuel i empty_state (omega arith))
