-- ===== src/Env/Render.antt =====
-- renderEffectiveEnv of internal/controlplane/envvars.go. A map is a list of its entries. The map
-- `resolved` of the source is left out: it holds only what `values` holds too, and is asked later.
use fascinate.Base.{
  ℕ, zero, suc, Bool, true, false, ◌||◌, Option, none, some, List, [], ◌∷◌, length, if◌then◌else◌,
}
use fascinate.Base.Text.{Text, codes, text_eq, text_lt, trim_space, has_prefix}
use fascinate.Result.{Result, ok, err, env_undefined, env_cycle, env_out_of_fuel}
use fascinate.Env.Text.{references, reference_to, replace_all}

abbrev pub Map : Type 0
Map = List (Text × Text)

-- m[k]
unfoldable pub get : Text → Map → Option Text
get k [] = none
get k ((j, v) ∷ m) = if text_eq j k then some v else get k m

unfoldable pub contains : Text → List Text → Bool
contains k [] = false
contains k (j ∷ js) = text_eq j k || contains k js

-- m[k] = v
unfoldable pub set : Text → Text → Map → Map
set k v [] = (k, v) ∷ []
set k v ((j, w) ∷ m) = let rest = set k v m in if text_eq j k then (j, v) ∷ m else (j, w) ∷ rest

insert_key : Text → List Text → List Text
insert_key k [] = k ∷ []
insert_key k (j ∷ js) = let rest = insert_key k js in if text_lt k j then k ∷ j ∷ js else j ∷ rest

-- sortedEnvKeys
unfoldable pub sorted_env_keys : Map → List Text
unfolding insert_key
sorted_env_keys [] = []
sorted_env_keys ((k, v) ∷ m) = insert_key k (sorted_env_keys m)

-- What resolve leaves behind: the values so far and the text of the key.
abbrev pub Resolved : Type 0
Resolved = Result (Map × Text)

-- The loop over the matches of a raw value, with the call of resolve for a reference.
unfoldable pub substitute : Map → (Map → Text → Resolved) → Text → List Text → Map → Text → Resolved
substitute raw resolve key [] values rendered = ok (values, rendered)
substitute raw resolve key (n ∷ ns) values rendered =
    let reference = trim_space n in
    elim (get reference values) [
      | some v ↦ substitute raw resolve key ns values (replace_all rendered (reference_to n) v)
      | none ↦ elim (get reference raw) [
        | none ↦ err (env_undefined reference)
        | some _ ↦ elim (resolve values reference) [
          | err e ↦ err e
          | ok (values', v) ↦
              substitute raw resolve key ns values' (replace_all rendered (reference_to n) v)
        ]
      ]
    ]

-- resolve, with the keys that are being resolved, and fuel for the depth of its calls.
unfoldable pub resolve : ℕ → Map → List Text → Map → Text → Resolved
resolve zero raw resolving values key = err env_out_of_fuel
resolve (suc fuel) raw resolving values key = elim (get key values) [
  | some v ↦ ok (values, v)
  | none ↦ elim (get key raw) [
    | none ↦ err (env_undefined key)
    | some raw_value ↦ elim (contains key resolving) [
      | true ↦ err (env_cycle key)
      | false ↦
          elim (substitute raw (resolve fuel raw (key ∷ resolving)) key (references raw_value)
            values raw_value) [
              | err e ↦ err e
              | ok (values', rendered) ↦ ok (set key rendered values', rendered)
            ]
    ]
  ]
]

unfoldable pub resolve_keys : Map → List Text → Map → Result Map
resolve_keys raw [] values = ok values
resolve_keys raw (k ∷ ks) values = elim (resolve (suc (length raw)) raw [] values k) [
  | err e ↦ err e
  | ok (values', _) ↦ resolve_keys raw ks values'
]

unfoldable pub drop_internal : Map → Map
drop_internal [] = []
drop_internal ((k, v) ∷ m) =
    let rest = drop_internal m in if has_prefix k (codes "_FASCINATE_") then rest else (k, v) ∷ rest

-- renderEffectiveEnv
unfoldable pub render_effective_env : Map → Map → Result Map
unfolding drop_internal
render_effective_env builtins raw = elim (resolve_keys raw (sorted_env_keys raw) builtins) [
  | err e ↦ err e
  | ok values ↦ ok (drop_internal values)
]
