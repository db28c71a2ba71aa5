-- ===== src/Router/Alias.antt =====
-- router/router.go: the aliases of model names.
use nadir.Prelude.{◌≡◌, refl, ap, none, some, [], ◌∷◌, arith, All, Option-cases, inl, inr}
use nadir.Prelude.Dict
use nadir.Prelude.Dict.{Dict}
use nadir.Prelude.Text.{Text, codes, text_eq, to_lower, trim_space}

abbrev pub model_aliases : Dict Text
model_aliases =
    (codes "sonnet", codes "claude-sonnet-4-5-20250929")
    ∷ (codes "opus", codes "claude-opus-4-6-20250918")
    ∷ (codes "haiku", codes "claude-haiku-4-5-20251001")
    ∷ (codes "claude", codes "claude-sonnet-4-5-20250929")
    ∷ (codes "gpt4", codes "gpt-4.1")
    ∷ (codes "gpt4o", codes "gpt-4o")
    ∷ (codes "gpt4-mini", codes "gpt-4.1-mini")
    ∷ (codes "gpt5", codes "gpt-5.2")
    ∷ (codes "gpt5-mini", codes "gpt-5-mini")
    ∷ (codes "o3", codes "o3")
    ∷ (codes "o3-mini", codes "o3-mini")
    ∷ (codes "o4-mini", codes "o4-mini")
    ∷ (codes "flash", codes "gemini-2.5-flash")
    ∷ (codes "gemini-flash", codes "gemini-2.5-flash")
    ∷ (codes "gemini-pro", codes "gemini-2.5-pro")
    ∷ (codes "deepseek", codes "deepseek/deepseek-chat")
    ∷ (codes "deepseek-v4", codes "deepseek/deepseek-v4-flash")
    ∷ (codes "deepseek-v4-flash", codes "deepseek/deepseek-v4-flash")
    ∷ (codes "deepseek-v4-pro", codes "deepseek/deepseek-v4-pro")
    ∷ (codes "deepseek-r1", codes "deepseek/deepseek-reasoner")
    ∷ (codes "llama", codes "ollama/llama3.1:8b")
    ∷ []

-- resolveAlias over a table of aliases
unfoldable pub resolve_in : Dict Text → Text → Text
resolve_in table model = elim (Dict.get table (to_lower (trim_space model))) [
  | none ↦ model
  | some resolved ↦ resolved
]

unfoldable pub resolve_alias : Text → Text
unfolding resolve_in
resolve_alias model = resolve_in model_aliases model

-- The values of the table's entries are fixed by the resolution.
abbrev IsClosed : Dict Text → Dict Text → Type 0
IsClosed table entries = All (λ e. resolve_in table e.1 ≡ e.1) entries

value-IsClosed :
    (table entries : Dict Text) (k v : Text)
    → IsClosed table entries
    → Dict.get entries k ≡ some v
    → resolve_in table v ≡ v
unfolding Dict.get
value-IsClosed table [] k v c h = ground arith
value-IsClosed table ((j, w) ∷ entries) k v c h =
    ground (arith, c.0, value-IsClosed table entries k v c.1)

aliases-IsClosed : IsClosed model_aliases model_aliases
unfolding resolve_in Dict.get to_lower trim_space text_eq
aliases-IsClosed = (
  refl,
  (
    refl,
    (
      refl,
      (
        refl,
        (
          refl,
          (
            refl,
            (
              refl,
              (
                refl,
                (
                  refl,
                  (
                    refl,
                    (
                      refl,
                      (
                        refl,
                        (refl, (refl, (refl, (refl, (refl, (refl, (refl, (refl, (refl, tt))))))))),
                      ),
                    ),
                  ),
                ),
              ),
            ),
          ),
        ),
      ),
    ),
  ),
)

resolve_in-IsClosed :
    (table : Dict Text) (model : Text)
    → IsClosed table table
    → resolve_in table (resolve_in table model) ≡ resolve_in table model
resolve_in-IsClosed table model c =
    elim (Option-cases (Dict.get table (to_lower (trim_space model)))) [
      | inl unknown ↦
          let same : resolve_in table model ≡ model = unfold resolve_in in ground arith in
          ap (resolve_in table) same
      | inr (v, found) ↦
          let value : resolve_in table model ≡ v = unfold resolve_in in ground arith in
          rw value (value-IsClosed table table _ v c found)
    ]

-- Resolving twice is resolving once: no alias stands for another alias.
pub resolve_alias_idem : (model : Text) → resolve_alias (resolve_alias model) ≡ resolve_alias model
unfolding resolve_alias
resolve_alias_idem model = resolve_in-IsClosed model_aliases model aliases-IsClosed
