-- ===== src/Router/Upgrades.antt =====
-- How tools, images and earlier turns of a conversation raise what Route decides.
use nadir.Prelude.{
  ℕ, ◌≤◌, ◌≡◌, ◌⊎◌, ap, ◌∙◌, ◌++◌, true, false, ◌||◌, Option, none, some, List, arith,
}
use nadir.Prelude.Dict
use nadir.Prelude.Float.{Float}
use nadir.Prelude.Text.{Text}
use nadir.Types.{Tier, Message, ChatRequest, RouteDecision, tier_rank}
use nadir.Types.Errors.{ok}
use nadir.Types.Json.{Json}
use nadir.Cache.Session.{Session, SessionEntry, session_key}
use nadir.Cache.Session.Keys.{has_user, session_key-append}
use nadir.Cache.Session.Pins.{pinned_rank}
use nadir.Router.Models.{model_has_vision}
use nadir.Router.Request.{extract_meta}
use nadir.Router.Steps.{
  agentic-IsStrong, reasoning-IsStrong, vision-IsStrong, vision_step_lem, session_step_rank,
  session_step_pinned, session_step_reasoning,
}
use nadir.Router.Decision.{route-Routed, refine-none}
use nadir.Router.{
  Router, Pick, agentic_step, reasoning_step, vision_step, session_step, refine, route,
}

module _ {F : Type 0} ⦃f : Float F⦄ (json : Json) (markers : Text → List Text)
    (sha256 : Text → Text) where
  -- Without a session cache, a request with tools or with an agent's system message is answered at
  -- the complex tier or above, or by the model of complex requests.
  pub route_agentic :
      (r : Router F) (req : ChatRequest) (now : ℕ) (r' : Router F) (d : RouteDecision F)
      → r.session ≡ none
      → ((extract_meta json markers req).has_tools
          || (extract_meta json markers req).has_agent_role)
        ≡ true
      → route json markers sha256 r req now ≡ ok (r', d)
      → (3 ≤ tier_rank d.tier) ⊎ (d.model ≡ r.cfg.complex_model)
  route_agentic r req now r' d no_session agentic h =
      let routed = route-Routed json markers sha256 r req now r' d h in
      let meta = extract_meta json markers req in
      let p = routed.pick in
      let a = agentic_step r.cfg meta p in
      let b = reasoning_step r.cfg meta a in
      let strong =
        vision-IsStrong r.cfg meta b
          (reasoning-IsStrong r.cfg meta a (agentic-IsStrong r.cfg meta p agentic)) in
      ground (
        arith,
        routed.model,
        routed.tier,
        refine-none json markers sha256 r req meta now p no_session,
        strong,
      )

  -- Without a session cache, a request with images is answered by a model that sees them, unless
  -- the model of complex requests does not.
  pub route_vision :
      (r : Router F) (req : ChatRequest) (now : ℕ) (r' : Router F) (d : RouteDecision F)
      → r.session ≡ none
      → (extract_meta json markers req).has_images ≡ true
      → route json markers sha256 r req now ≡ ok (r', d)
      → (model_has_vision d.model ≡ true) ⊎ (model_has_vision r.cfg.complex_model ≡ false)
  route_vision r req now r' d no_session images h =
      let routed = route-Routed json markers sha256 r req now r' d h in
      let meta = extract_meta json markers req in
      let p = routed.pick in
      let b = reasoning_step r.cfg meta (agentic_step r.cfg meta p) in
      ground (
        arith,
        routed.model,
        refine-none json markers sha256 r req meta now p no_session,
        vision_step_lem r.cfg meta b images,
      )

  route_session :
      (r : Router F) (req : ChatRequest) (now : ℕ) (s : Session) (r' : Router F)
      (d : RouteDecision F)
      → r.session ≡ some s
      → route json markers sha256 r req now ≡ ok (r', d)
      → (p : Pick) × (r'.session ≡ (session_step sha256 (some s) req.messages now p).0)
        × (d.model ≡ (session_step sha256 (some s) req.messages now p).1.primary)
        × (d.tier ≡ (session_step sha256 (some s) req.messages now p).1.tier)
  unfolding refine
  route_session r req now s r' d has h =
      let routed = route-Routed json markers sha256 r req now r' d h in
      let meta = extract_meta json markers req in
      let p =
        vision_step r.cfg meta (reasoning_step r.cfg meta (agentic_step r.cfg meta routed.pick)) in
      let same : session_step sha256 r.session req.messages now p
          ≡ session_step sha256 (some s) req.messages now p =
        ap (λ (o : Option Session). session_step sha256 o req.messages now p) has in
      (
        p,
        ap (λ (x : Router F). x.session) routed.router
            ∙ ap (λ (x : Option Session × Pick). x.0) same,
        routed.model ∙ ap (λ (x : Option Session × Pick). x.1.primary) same,
        routed.tier ∙ ap (λ (x : Option Session × Pick). x.1.tier) same,
      )

  -- With a session cache, a turn that continues a conversation which has a user message is
  -- never decided at a lower tier than the turn just before it, whatever is added.
  pub route_never_lowers :
      (r : Router F) (s : Session) (req next : ChatRequest) (more : List Message) (now later : ℕ)
      (r1 r2 : Router F) (d1 d2 : RouteDecision F)
      → r.session ≡ some s
      → has_user req.messages ≡ true
      → next.messages ≡ req.messages ++ more
      → route json markers sha256 r req now ≡ ok (r1, d1)
      → route json markers sha256 r1 next later ≡ ok (r2, d2)
      → tier_rank d1.tier ≤ tier_rank d2.tier
  route_never_lowers r s req next more now later r1 r2 d1 d2 has user grown h1 h2 =
      let (p1, kept1, _, tier1) = route_session r req now s r1 d1 has h1 in
      let (_, (s', stored, pin)) = session_step_rank sha256 req.messages now s p1 in
      let (p2, _, _, tier2) = route_session r1 next later s' r2 d2 (kept1 ∙ stored) h2 in
      let key : session_key sha256 next.messages ≡ session_key sha256 req.messages =
        ap (session_key sha256) grown ∙ session_key-append sha256 req.messages more user in
      let le =
        session_step_pinned sha256 next.messages later s' p2
          (tier_rank (session_step sha256 (some s) req.messages now p1).1.tier)
          (ap (pinned_rank s') key ∙ pin) in
      rw (tier1, tier2) le

  -- A conversation pinned at the reasoning tier to a model that does not see images is
  -- answered by that model, whatever the request holds.
  pub route_pinned_blind :
      (r : Router F) (s : Session) (e : SessionEntry) (req : ChatRequest) (now : ℕ) (r' : Router F)
      (d : RouteDecision F)
      → r.session ≡ some s
      → Dict.get s.entries (session_key sha256 req.messages) ≡ some e
      → e.tier ≡ Tier.reasoning
      → model_has_vision e.model ≡ false
      → route json markers sha256 r req now ≡ ok (r', d)
      → (d.model ≡ e.model) × (model_has_vision d.model ≡ false)
  route_pinned_blind r s e req now r' d has found top blind h =
      let (p, _, model, _) = route_session r req now s r' d has h in
      let same = session_step_reasoning sha256 req.messages now s p e found top in
      (model ∙ same, ap model_has_vision (model ∙ same) ∙ blind)
