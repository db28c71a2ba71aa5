-- ===== src/Config/Providers.antt =====
-- Which provider a model has.
use nadir.Prelude.{
  ◌≡◌, refl, ap, ◌∙◌, arith, ◌&&◌, not, Option, none, some, List, [], ◌∷◌, if◌then◌else◌,
  Option-cases, inl, inr,
}
use nadir.Prelude.Dict
use nadir.Prelude.Dict.{Dict, get-put}
use nadir.Prelude.Text.{Text, text_eq, text_eq_iff, text_mem, is_empty, trim_space}
use nadir.Config.{
  cut, provider_for, infer_models, add_entry, add_entries, infer_provider_map, split_comma,
}

-- The value of an entry for the model.
unfoldable pub value_of : Text → Text → Option Text
value_of entry m = elim (cut entry) [
  | none ↦ none
  | some (k, v) ↦ if text_eq (trim_space k) m then some (trim_space v) else none
]

-- The value of the last entry for the model.
unfoldable pub last_value : List Text → Text → Option Text
unfolding value_of
last_value [] m = none
last_value (entry ∷ entries) m = elim (last_value entries m) [
  | some p ↦ some p
  | none ↦ value_of entry m
]

unfoldable pub or_else : Option Text → Option Text → Option Text
or_else (some a) b = some a
or_else none b = b

add_entry-get :
    (out : Dict Text) (entry m : Text)
    → Dict.get (add_entry out entry) m ≡ or_else (value_of entry m) (Dict.get out m)
unfolding add_entry value_of or_else
add_entry-get out entry m = elim (Option-cases (cut entry)) [
  | inl q ↦ rw (q, add_entry, value_of) refl
  | inr ((k, v), q) ↦
      rw (q, add_entry, value_of) (ground (arith, get-put out (trim_space k) m (trim_space v)))
]

add_entries-get :
    (entries : List Text) (out : Dict Text) (m : Text)
    → Dict.get (add_entries entries out) m ≡ or_else (last_value entries m) (Dict.get out m)
unfolding add_entries last_value or_else
add_entries-get [] out m = refl
add_entries-get (entry ∷ entries) out m =
    ground (arith, add_entries-get entries (add_entry out entry) m, add_entry-get out entry m)

infer_models-get :
    (models : List Text) (out : Dict Text) (m : Text)
    → Dict.get (infer_models models out) m
      ≡ (if text_mem m models && not (is_empty m) then some (provider_for m) else Dict.get out m)
unfolding infer_models text_mem
infer_models-get [] out m = refl
infer_models-get (n ∷ models) out m = ground (
  arith,
  infer_models-get models out m,
  infer_models-get models (Dict.put out n (provider_for n)) m,
  get-put out n m (provider_for n),
  text_eq_iff n m,
)

-- The provider of a model is the value of its last entry in the explicit map; without an entry it is what the
-- name of a configured model says, and any other model has none.
pub infer_provider_map-get :
    (consider : List Text) (overrides m : Text)
    → Dict.get (infer_provider_map consider overrides) m
      ≡ or_else
          (last_value (split_comma overrides) m)
          (if text_mem m consider && not (is_empty m) then some (provider_for m) else none)
unfolding infer_provider_map Dict.get
infer_provider_map-get consider overrides m =
    add_entries-get (split_comma overrides) (infer_models consider Dict.empty) m
    ∙ ap (or_else (last_value (split_comma overrides) m)) (infer_models-get consider Dict.empty m)
