-- ===== src/Env/Builtins.antt =====
-- What renderEffectiveEnv (internal/controlplane/envvars.go) keeps of the built-in variables.
use fascinate.Base.{
  ℕ, zero, suc, ◌≡◌, refl, false, none, some, List, [], ◌∷◌, arith, inl, inr, Bool-cases,
  Option-cases, length,
}
use fascinate.Base.Text.{Text, codes, text_eq, text_eq_iff, trim_space, has_prefix}
use fascinate.Result.{Result-cases, ok}
use fascinate.Env.Text.{references, reference_to, replace_all}
use fascinate.Env.Render.{
  Map, Resolved, get, set, substitute, resolve, resolve_keys, sorted_env_keys, drop_internal,
  render_effective_env,
}

get-set : (j k v : Text) (m : Map) → text_eq j k ≡ false → get k (set j v m) ≡ get k m
unfolding get set
get-set j k v [] h = rw h refl
get-set j k v ((i, w) ∷ m) h = elim (Bool-cases (text_eq i j)) [
  | inl e ↦ ground (arith, text_eq_iff i j)
  | inr e ↦ ground (arith, get-set j k v m h)
]

-- A key that is undefined is another key than one that is defined.
differs : (j k v : Text) (m : Map) → get j m ≡ none → get k m ≡ some v → text_eq j k ≡ false
differs j k v m h e = elim (Bool-cases (text_eq j k)) [
  | inl same ↦ absurd (ground (arith, text_eq_iff j k))
  | inr other ↦ other
]

-- An entry, once there, stays.
module _ (k v : Text) (raw : Map) where
  abbrev Keeps : (Map → Text → Resolved) → Type 0
  Keeps f =
      (values values' : Map) (n t : Text)
      → f values n ≡ ok (values', t)
      → get k values ≡ some v
      → get k values' ≡ some v

  substitute-Keeps :
      (f : Map → Text → Resolved) (key : Text)
      → Keeps f
      → (ns : List Text) (values values' : Map) (rendered t : Text)
      → substitute raw f key ns values rendered ≡ ok (values', t)
      → get k values ≡ some v
      → get k values' ≡ some v
  unfolding substitute
  substitute-Keeps f key h [] values values' rendered t e known = ground arith
  substitute-Keeps f key h (n ∷ ns) values values' rendered t e known =
      elim (Option-cases (get (trim_space n) values)) [
        | inr (w, found) ↦ ground (
          arith,
          substitute-Keeps f key h ns values values' (replace_all rendered (reference_to n) w) t,
        )
        | inl missing ↦ elim (Option-cases (get (trim_space n) raw)) [
          | inl undefined ↦ absurd (ground arith)
          | inr (w, defined) ↦ elim (Result-cases (f values (trim_space n))) [
            | inl ((mid, u), resolved) ↦ ground (
              arith,
              h values mid (trim_space n) u resolved known,
              substitute-Keeps f key h ns mid values' (replace_all rendered (reference_to n) u) t,
            )
            | inr (x, failed) ↦ absurd (ground arith)
          ]
        ]
      ]

  resolve-Keeps : (fuel : ℕ) (resolving : List Text) → Keeps (resolve fuel raw resolving)
  unfolding resolve
  resolve-Keeps zero resolving values values' key t e known = absurd (ground arith)
  resolve-Keeps (suc fuel) resolving values values' key t e known =
      elim (Option-cases (get key values)) [
        | inr (w, found) ↦ ground arith
        | inl missing ↦ elim (Option-cases (get key raw)) [
          | inl undefined ↦ absurd (ground arith)
          | inr (w, defined) ↦
              elim (Result-cases
                (substitute raw (resolve fuel raw (key ∷ resolving)) key (references w) values w)) [
                  | inl ((mid, u), done) ↦ ground (
                    arith,
                    substitute-Keeps (resolve fuel raw (key ∷ resolving)) key
                        (resolve-Keeps fuel (key ∷ resolving)) (references w) values mid w u done
                        known,
                    get-set key k u mid (differs key k v values missing known),
                  )
                  | inr (x, failed) ↦ absurd (ground arith)
                ]
        ]
      ]

  resolve_keys_keeps :
      (ks : List Text) (values values' : Map)
      → resolve_keys raw ks values ≡ ok values'
      → get k values ≡ some v
      → get k values' ≡ some v
  unfolding resolve_keys
  resolve_keys_keeps [] values values' e known = ground arith
  resolve_keys_keeps (key ∷ ks) values values' e known =
      elim (Result-cases (resolve (suc (length raw)) raw [] values key)) [
        | inl ((mid, u), done) ↦ ground (
          arith,
          resolve-Keeps (suc (length raw)) [] values mid key u done known,
          resolve_keys_keeps ks mid values',
        )
        | inr (x, failed) ↦ absurd (ground arith)
      ]

get-drop_internal :
    (k : Text) (m : Map)
    → has_prefix k (codes "_FASCINATE_") ≡ false
    → get k (drop_internal m) ≡ get k m
unfolding get drop_internal
get-drop_internal k [] h = refl
get-drop_internal k ((j, w) ∷ m) h = elim (Bool-cases (text_eq j k)) [
  | inl e ↦ ground (arith, text_eq_iff j k, get-drop_internal k m h)
  | inr e ↦ ground (arith, get-drop_internal k m h)
]

-- If rendering the environment of a machine succeeds, a built-in variable that is not internal has its
-- built-in value in the result, whatever variables the user has set.
pub render_effective_env_builtin :
    (builtins raw m : Map) (k v : Text)
    → render_effective_env builtins raw ≡ ok m
    → get k builtins ≡ some v
    → has_prefix k (codes "_FASCINATE_") ≡ false
    → get k m ≡ some v
unfolding render_effective_env
render_effective_env_builtin builtins raw m k v e known visible =
    elim (Result-cases (resolve_keys raw (sorted_env_keys raw) builtins)) [
      | inl (values, done) ↦ ground (
        arith,
        resolve_keys_keeps k v raw (sorted_env_keys raw) builtins values done known,
        get-drop_internal k values visible,
      )
      | inr (x, failed) ↦ absurd (ground arith)
    ]
