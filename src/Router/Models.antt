-- ===== src/Router/Models.antt =====
-- router/config.go, and the parts of Router that look models up in the configuration.
use nadir.Prelude.{Bool, not, ◌||◌, none, some, List, [], leb, if◌then◌else◌}
use nadir.Prelude.Dict
use nadir.Prelude.Dict.{Dict}
use nadir.Prelude.Text.{Text, codes, text_eq, is_empty, to_lower, contains}
use nadir.Types.{Tier, tier_rank}

pub record Config (F : Type 0) : Type 0 where
  pub simple_model : Text
  pub mid_model : Text
  pub complex_model : Text
  pub reasoning_model : Text
  pub fallback_chain : List Text
  pub tier_thresholds : F × F
  pub provider_for_model : Dict Text

module _ {F : Type 0} (cfg : Config F) where
  unfoldable pub model_for_tier : Tier → Text
  model_for_tier Tier.simple = cfg.simple_model
  model_for_tier Tier.mid = if not (is_empty cfg.mid_model) then cfg.mid_model else cfg.simple_model
  model_for_tier Tier.complex = cfg.complex_model
  model_for_tier Tier.reasoning =
      if not (is_empty cfg.reasoning_model) then cfg.reasoning_model else cfg.complex_model
  model_for_tier Tier.free = cfg.simple_model
  model_for_tier (Tier.other _) = cfg.simple_model

  unfoldable pub tier_for_model : Text → Tier
  tier_for_model model =
      if text_eq model cfg.simple_model
      then Tier.simple
      else if text_eq model cfg.mid_model
      then Tier.mid
      else if text_eq model cfg.complex_model
      then Tier.complex
      else if text_eq model cfg.reasoning_model
      then Tier.reasoning
      else Tier.mid

  unfoldable pub upgrade_tier : Text → Tier → Tier → Text
  unfolding model_for_tier tier_rank
  upgrade_tier current current_tier want =
      if leb (tier_rank want) (tier_rank current_tier) then current else model_for_tier want

unfoldable pub model_has_vision : Text → Bool
unfolding contains to_lower
model_has_vision model =
    let m = to_lower model in
    contains m (codes "4o")
    || contains m (codes "claude")
    || contains m (codes "gemini")
    || contains m (codes "vision")

-- The empty string is no model.
unfoldable pub pick_vision_model : {F : Type 0} → Config F → Text
pick_vision_model cfg = if model_has_vision cfg.complex_model then cfg.complex_model else []

-- r.cfg.ProviderForModel[primary], with the default
unfoldable pub provider_of : {F : Type 0} → Config F → Text → Text
provider_of cfg primary = elim (Dict.get cfg.provider_for_model primary) [
  | none ↦ codes "openai"
  | some p ↦ if is_empty p then codes "openai" else p
]
