-- ===== src/Env/Fuel.antt =====
-- The recursion of resolve in internal/controlplane/envvars.go ends: a key that is being resolved is
-- not entered again, so the calls are no deeper than there are variables.
use fascinate.Base.{
  ℕ, zero, suc, ◌≤◌, ◌<◌, ◌+◌, ◌≡◌, ◌≢◌, false, some, List, [], ◌∷◌, length, if◌then◌else◌, arith,
  Bool-cases, Option-cases, inl, inr,
}
use fascinate.Base.Text.{Text, text_eq_iff, trim_space}
use fascinate.Result.{err, Result-cases, env_out_of_fuel}
use fascinate.Env.Text.{references, replace_all, reference_to}
use fascinate.Env.Render.{
  Map, Resolved, get, contains, substitute, resolve, resolve_keys, sorted_env_keys,
  render_effective_env,
}

-- The variables that are not being resolved.
open_count : Map → List Text → ℕ
open_count [] resolving = 0
open_count ((k, v) ∷ m) resolving = (if contains k resolving then 0 else 1) + open_count m resolving

open_count-cons-le :
    (m : Map) (k : Text) (resolving : List Text)
    → open_count m (k ∷ resolving) ≤ open_count m resolving
unfolding open_count contains
open_count-cons-le [] k resolving = omega arith
open_count-cons-le ((j, v) ∷ m) k resolving = ground (arith, open_count-cons-le m k resolving)

open_count-cons-lt :
    (m : Map) (k v : Text) (resolving : List Text)
    → get k m ≡ some v
    → contains k resolving ≡ false
    → open_count m (k ∷ resolving) < open_count m resolving
unfolding open_count contains get
open_count-cons-lt [] k v resolving h n = cc
open_count-cons-lt ((j, w) ∷ m) k v resolving h n = ground (
  arith,
  text_eq_iff j k,
  text_eq_iff k j,
  open_count-cons-le m k resolving,
  open_count-cons-lt m k v resolving,
)

open_count-le-length : (m : Map) (resolving : List Text) → open_count m resolving ≤ length m
unfolding open_count
open_count-le-length [] resolving = omega arith
open_count-le-length ((k, v) ∷ m) resolving = ground (arith, open_count-le-length m resolving)

substitute_fueled :
    (raw : Map) (f : Map → Text → Resolved) (key : Text)
    → ((values : Map) (n : Text) → f values n ≢ err env_out_of_fuel)
    → (ns : List Text) (values : Map) (rendered : Text)
    → substitute raw f key ns values rendered ≢ err env_out_of_fuel
unfolding substitute
substitute_fueled raw f key h [] values rendered = ground arith
substitute_fueled raw f key h (n ∷ ns) values rendered =
    elim (Option-cases (get (trim_space n) values)) [
      | inr (v, e) ↦
          rw (e, substitute)
            (substitute_fueled raw f key h ns values (replace_all rendered (reference_to n) v))
      | inl e ↦ elim (Option-cases (get (trim_space n) raw)) [
        | inl e' ↦ ground arith
        | inr (_, e') ↦ elim (Result-cases (f values (trim_space n))) [
          | inr (x, e'') ↦ ground (arith, h values (trim_space n))
          | inl ((values', v), e'') ↦ ground (
            arith,
            substitute_fueled raw f key h ns values' (replace_all rendered (reference_to n) v),
          )
        ]
      ]
    ]

resolve_fueled :
    (fuel : ℕ) (raw : Map) (resolving : List Text) (values : Map) (key : Text)
    → open_count raw resolving < fuel
    → resolve fuel raw resolving values key ≢ err env_out_of_fuel
unfolding resolve
resolve_fueled zero raw resolving values key h = elim h [ ]
resolve_fueled (suc fuel) raw resolving values key h = elim (Option-cases (get key raw)) [
  | inl e ↦ ground arith
  | inr (v, e) ↦ elim (Bool-cases (contains key resolving)) [
    | inl seen ↦ ground arith
    | inr fresh ↦ ground (
      arith,
      substitute_fueled raw (resolve fuel raw (key ∷ resolving)) key
          (λ values' n.
            resolve_fueled fuel raw (key ∷ resolving) values' n
              (omega (arith, open_count-cons-lt raw key v resolving e fresh)))
          (references v) values v,
    )
  ]
]

resolve_keys_fueled :
    (raw : Map) (ks : List Text) (values : Map) → resolve_keys raw ks values ≢ err env_out_of_fuel
unfolding resolve_keys
resolve_keys_fueled raw [] values = ground arith
resolve_keys_fueled raw (k ∷ ks) values =
    elim (Result-cases (resolve (suc (length raw)) raw [] values k)) [
      | inl ((values', _), e) ↦ ground (arith, resolve_keys_fueled raw ks values')
      | inr (x, e) ↦ ground (
        arith,
        resolve_fueled (suc (length raw)) raw [] values k
            (omega (arith, open_count-le-length raw [])),
      )
    ]

-- Rendering never runs out of the fuel that the model gives to the depth of resolve, the number of the
-- user's variables and one: it ends, with a value or an error of the code, for all variables.
pub render_effective_env_ends :
    (builtins raw : Map) → render_effective_env builtins raw ≢ err env_out_of_fuel
unfolding render_effective_env
render_effective_env_ends builtins raw =
    ground (arith, resolve_keys_fueled raw (sorted_env_keys raw) builtins)
