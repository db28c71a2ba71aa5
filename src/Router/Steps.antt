-- ===== src/Router/Steps.antt =====
-- The steps of Route, each by itself.
use nadir.Prelude.{ℕ, ◌≤◌, ◌≡◌, ◌⊎◌, refl, true, false, ◌||◌, some, List, [], ◌∷◌, arith}
use nadir.Prelude.Dict
use nadir.Prelude.Dict.{get-put_self}
use nadir.Prelude.Text.{Text, is_empty, text_eq_iff, text_eq_self}
use nadir.Types.{Tier, Message, tier_rank}
use nadir.Cache.Session.{Session, SessionEntry, session_key, upgrade_if_higher}
use nadir.Cache.Session.Pins.{pinned_rank}
use nadir.Router.Models.{Config, model_for_tier, upgrade_tier, model_has_vision, pick_vision_model}
use nadir.Router.Request.{Meta}
use nadir.Router.{Pick, agentic_step, reasoning_step, vision_step, session_step}

pub is_empty-model_has_vision : (m : Text) → model_has_vision m ≡ true → is_empty m ≡ false
unfolding model_has_vision is_empty
is_empty-model_has_vision [] h = cc
is_empty-model_has_vision (c ∷ m) h = refl

module _ {F : Type 0} (cfg : Config F) (meta : Meta) where
  -- A pick whose model is the one configured for its tier.
  abbrev pub IsCoherent : Pick → Type 0
  IsCoherent p = p.primary ≡ model_for_tier cfg p.tier

  pub agentic-IsCoherent : (p : Pick) → IsCoherent p → IsCoherent (agentic_step cfg meta p)
  unfolding agentic_step upgrade_tier
  agentic-IsCoherent p h = ground (arith, text_eq_self p.primary)

  pub reasoning-IsCoherent : (p : Pick) → IsCoherent p → IsCoherent (reasoning_step cfg meta p)
  unfolding reasoning_step model_for_tier
  reasoning-IsCoherent p h = ground arith

  pub vision_step_none : (p : Pick) → meta.has_images ≡ false → vision_step cfg meta p ≡ p
  unfolding vision_step
  vision_step_none p h = ground arith

  -- Strong enough for tools: the tier or the model is that of complex requests.
  abbrev pub IsStrong : Pick → Type 0
  IsStrong p = (3 ≤ tier_rank p.tier) ⊎ (p.primary ≡ cfg.complex_model)

  pub agentic-IsStrong :
      (p : Pick)
      → (meta.has_tools || meta.has_agent_role) ≡ true
      → IsStrong (agentic_step cfg meta p)
  unfolding agentic_step upgrade_tier
  agentic-IsStrong p h = ground (arith, text_eq_iff cfg.complex_model p.primary)

  pub reasoning-IsStrong : (p : Pick) → IsStrong p → IsStrong (reasoning_step cfg meta p)
  unfolding reasoning_step tier_rank
  reasoning-IsStrong p h = ground arith

  pub vision-IsStrong : (p : Pick) → IsStrong p → IsStrong (vision_step cfg meta p)
  unfolding vision_step pick_vision_model is_empty
  vision-IsStrong p h = ground arith

  -- With images, the model sees them unless no model is known that does.
  pub vision_step_lem :
      (p : Pick)
      → meta.has_images ≡ true
      → (model_has_vision (vision_step cfg meta p).primary ≡ true)
        ⊎ (model_has_vision cfg.complex_model ≡ false)
  unfolding vision_step pick_vision_model
  vision_step_lem p h = ground (arith, is_empty-model_has_vision cfg.complex_model)

module _ (sha256 : Text → Text) (msgs : List Message) (now : ℕ) where
  -- The session step never lowers the tier, and pins the tier that it answers with.
  pub session_step_rank :
      (s : Session) (p : Pick)
      → let r = session_step sha256 (some s) msgs now p in
        (tier_rank p.tier ≤ tier_rank r.1.tier)
        × ((s' : Session) × (r.0 ≡ some s')
            × (pinned_rank s' (session_key sha256 msgs) ≡ some (tier_rank r.1.tier)))
  unfolding session_step upgrade_if_higher pinned_rank
  session_step_rank s p =
      let key = session_key sha256 msgs in
      let entry : SessionEntry = record { model = p.primary; tier = p.tier; updated = now } in
      (
        ground arith,
        (
          (upgrade_if_higher sha256 s msgs p.primary p.tier now).0,
          refl,
          ground (arith, get-put_self s.entries key entry),
        ),
      )

  -- It never answers with a tier below the one that is pinned.
  pub session_step_pinned :
      (s : Session) (p : Pick) (n : ℕ)
      → pinned_rank s (session_key sha256 msgs) ≡ some n
      → n ≤ tier_rank (session_step sha256 (some s) msgs now p).1.tier
  unfolding session_step upgrade_if_higher pinned_rank
  session_step_pinned s p n h = ground arith

  -- A pin at the reasoning tier always wins.
  pub session_step_reasoning :
      (s : Session) (p : Pick) (e : SessionEntry)
      → Dict.get s.entries (session_key sha256 msgs) ≡ some e
      → e.tier ≡ Tier.reasoning
      → (session_step sha256 (some s) msgs now p).1.primary ≡ e.model
  unfolding session_step upgrade_if_higher tier_rank
  session_step_reasoning s p e h top = ground arith
