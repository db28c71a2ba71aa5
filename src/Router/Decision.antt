-- ===== src/Router/Decision.antt =====
-- What Route promises of its decisions.
use nadir.Prelude.{ℕ, ◌≡◌, ◌↔◌, refl, true, false, none, List, arith}
use nadir.Prelude.Float.{Float}
use nadir.Prelude.Text.{Text}
use nadir.Types.{ChatRequest, RouteDecision}
use nadir.Types.Errors.{GoError, Result, ok, err}
use nadir.Types.Json.{Json}
use nadir.Router.Models.{model_for_tier}
use nadir.Router.Request.{Meta, extract_meta}
use nadir.Router.Fallback.{build_chain}
use nadir.Router.Steps.{IsCoherent, agentic-IsCoherent, reasoning-IsCoherent, vision_step_none}
use nadir.Router.{
  Router, Pick, is_auto, agentic_step, reasoning_step, vision_step, first_pick, refine, route,
}

module _ {F : Type 0} ⦃f : Float F⦄ (json : Json) (markers : Text → List Text)
    (sha256 : Text → Text) where
  -- The steps between a request and its decision.
  pub record Routed (r : Router F) (req : ChatRequest) (now : ℕ) (r' : Router F)
      (d : RouteDecision F) : Type 0 where
    pub pick : Pick
    pub score : F
    pub confidence : F
    pub picked : first_pick r req (extract_meta json markers req) ≡ ok (pick, score, confidence)
    pub router :
        r' ≡ record r { session = (refine sha256 r req (extract_meta json markers req) now pick).0 }
    pub model : d.model ≡ (refine sha256 r req (extract_meta json markers req) now pick).1.primary
    pub tier : d.tier ≡ (refine sha256 r req (extract_meta json markers req) now pick).1.tier
    pub chain : d.fallback_chain ≡ build_chain r.cfg r.health d.model d.tier now

  pub route-Routed :
      (r : Router F) (req : ChatRequest) (now : ℕ) (r' : Router F) (d : RouteDecision F)
      → route json markers sha256 r req now ≡ ok (r', d)
      → Routed r req now r' d
  unfolding route
  route-Routed r req now r' d h = go (first_pick r req (extract_meta json markers req)) refl
    where
      go :
          (o : Result (Pick × F × F))
          → first_pick r req (extract_meta json markers req) ≡ o
          → Routed r req now r' d
      go (err e) q = absurd (ground arith)
      go (ok (p, s, c)) q = record {
        pick = p;
        score = s;
        confidence = c;
        picked = q;
        router = ground arith;
        model = ground arith;
        tier = ground arith;
        chain = ground arith;
      }

  first_pick-IsCoherent :
      (r : Router F) (req : ChatRequest) (meta : Meta) (p : Pick) {score confidence : F}
      → is_auto req.model ≡ true
      → first_pick r req meta ≡ ok (p, score, confidence)
      → IsCoherent r.cfg meta p
  unfolding first_pick
  first_pick-IsCoherent r req meta p auto h = ground arith

  pub refine-none :
      (r : Router F) (req : ChatRequest) (meta : Meta) (now : ℕ) (p : Pick)
      → r.session ≡ none
      → (refine sha256 r req meta now p).1
        ≡ vision_step r.cfg meta (reasoning_step r.cfg meta (agentic_step r.cfg meta p))
  unfolding refine
  refine-none r req meta now p h = rw h

  -- Route fails exactly when the model is left to the classifier and the classifier fails, and with
  -- its error.
  pub route-err_iff :
      (r : Router F) (req : ChatRequest) (now : ℕ) (e : GoError)
      → (route json markers sha256 r req now ≡ err e) ↔ (
          (is_auto req.model ≡ true)
          × (r.classifier (extract_meta json markers req).user_text ≡ err e))
  unfolding route first_pick
  route-err_iff r req now e = (λ h. (ground arith, ground arith), λ h. ground arith)

  -- Without a session cache and without images, a decision left to the classifier names the model
  -- that the configuration has for its tier.
  pub route_coherent :
      (r : Router F) (req : ChatRequest) (now : ℕ) (r' : Router F) (d : RouteDecision F)
      → r.session ≡ none
      → is_auto req.model ≡ true
      → (extract_meta json markers req).has_images ≡ false
      → route json markers sha256 r req now ≡ ok (r', d)
      → d.model ≡ model_for_tier r.cfg d.tier
  route_coherent r req now r' d no_session auto no_images h =
      let routed = route-Routed r req now r' d h in
      let meta = extract_meta json markers req in
      let p = routed.pick in
      let first : IsCoherent r.cfg meta p = first_pick-IsCoherent r req meta p auto routed.picked in
      let after =
        reasoning-IsCoherent r.cfg meta (agentic_step r.cfg meta p)
          (agentic-IsCoherent r.cfg meta p first) in
      let last = reasoning_step r.cfg meta (agentic_step r.cfg meta p) in
      cc (
        routed.model,
        routed.tier,
        refine-none r req meta now p no_session,
        vision_step_none r.cfg meta last no_images,
        after,
      )
