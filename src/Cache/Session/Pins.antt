-- ===== src/Cache/Session/Pins.antt =====
-- The pins after a history of calls. A history lists the calls of UpgradeIfHigher with the newest first.
use nadir.Prelude.{
  ℕ, ◌+◌, ◌≤◌, ◌≡◌, ◌≢◌, refl, sym, ap, ◌∙◌, Option, none, some, List, [], ◌∷◌, arith, leb,
  if◌then◌else◌, ◌⊎◌,
}
use nadir.Prelude.Dict
use nadir.Prelude.Dict.{get-put}
use nadir.Prelude.Text.{Text, text_eq, text_eq_iff, text_eq_self}
use nadir.Types.{Tier, Message, tier_rank}
use nadir.Cache.Session.{Session, Status, session_key, get, upgrade_if_higher, new_session}

pub record Call : Type 0 where
  pub msgs : List Message
  pub model : Text
  pub tier : Tier
  pub now : ℕ

-- The tier that the session has pinned, if any.
unfoldable pub pinned_rank : Session → Text → Option ℕ
pinned_rank s key = elim (Dict.get s.entries key) [ none ↦ none | some e ↦ some (tier_rank e.tier) ]

-- The same calls at other instants.
unfoldable pub retimed : (ℕ → ℕ) → List Call → List Call
retimed clock [] = []
retimed clock (c ∷ calls) = record c { now = clock c.now } ∷ retimed clock calls

module _ (sha256 : Text → Text) where
  unfoldable pub run : Session → List Call → Session
  run s [] = s
  run s (c ∷ calls) = (upgrade_if_higher sha256 (run s calls) c.msgs c.model c.tier c.now).0

  -- The highest rank among the calls with the key.
  unfoldable pub highest : Text → List Call → Option ℕ
  highest key [] = none
  highest key (c ∷ calls) =
      let rest = highest key calls in
      if text_eq (session_key sha256 c.msgs) key
      then (elim rest [
        | none ↦ some (tier_rank c.tier)
        | some r ↦ if leb (tier_rank c.tier) r then some r else some (tier_rank c.tier)
      ])
      else rest

  -- After any calls of UpgradeIfHigher on an empty cache, each key is pinned at the highest
  -- tier that was asked for.
  pub pinned_rank-run :
      (ttl : ℕ) (calls : List Call) (key : Text)
      → pinned_rank (run (new_session ttl) calls) key ≡ highest key calls
  unfolding run pinned_rank highest Dict.get upgrade_if_higher
  pinned_rank-run ttl [] key = refl
  pinned_rank-run ttl (c ∷ calls) key = ground (
    arith,
    pinned_rank-run ttl calls key,
    text_eq_iff (session_key sha256 c.msgs) key,
    get-put (run (new_session ttl) calls).entries (session_key sha256 c.msgs) key
        (record { model = c.model; tier = c.tier; updated = c.now }),
  )

  -- UpgradeIfHigher answers with a tier at least as high as the caller's. Either the status
  -- is pinned and the cache stays as it is, or the answer is the caller's own model and tier.
  pub upgrade_if_higher_lem :
      (s : Session) (msgs : List Message) (model : Text) (tier : Tier) (now : ℕ)
      → let r = upgrade_if_higher sha256 s msgs model tier now in
        (tier_rank tier ≤ tier_rank r.1.1)
        × ((r.1.2 ≡ Status.pinned) × (r.0 ≡ s) ⊎ (r.1.0 ≡ model) × (r.1.1 ≡ tier))
  unfolding upgrade_if_higher
  upgrade_if_higher_lem s msgs model tier now = (ground arith, ground arith)

  -- Unless the status is pinned, a Get up to a lifetime later returns the model and the tier
  -- that the caller gave to UpgradeIfHigher.
  pub get-upgrade_if_higher :
      (s : Session) (msgs : List Message) (model : Text) (tier : Tier) (now later : ℕ)
      → (upgrade_if_higher sha256 s msgs model tier now).1.2 ≢ Status.pinned
      → later ≤ now + s.ttl
      → (get sha256 (upgrade_if_higher sha256 s msgs model tier now).0 msgs later).1
        ≡ some (model, tier)
  unfolding upgrade_if_higher get
  get-upgrade_if_higher s msgs model tier now later h k = ground (
    arith,
    get-put s.entries (session_key sha256 msgs) (session_key sha256 msgs)
        (record { model = model; tier = tier; updated = now }),
    text_eq_self (session_key sha256 msgs),
  )

  -- The model and the tier that a session has pinned, if any.
  unfoldable pinned : Session → Text → Option (Text × Tier)
  pinned s key = elim (Dict.get s.entries key) [ none ↦ none | some e ↦ some (e.model, e.tier) ]

  unfoldable decide : Option (Text × Tier) → Text → Tier → Text × Tier × Status
  decide none model tier = (model, tier, Status.new)
  decide (some (m, r)) model tier =
      if leb (tier_rank tier) (tier_rank r)
      then (m, r, Status.pinned)
      else (model, tier, Status.upgraded)

  upgrade_if_higher-decide :
      (s : Session) (c : Call)
      → (upgrade_if_higher sha256 s c.msgs c.model c.tier c.now).1
        ≡ decide (pinned s (session_key sha256 c.msgs)) c.model c.tier
  unfolding upgrade_if_higher pinned decide
  upgrade_if_higher-decide s c = ground arith

  pinned-upgrade_if_higher :
      (s : Session) (c : Call) (key : Text)
      → pinned (upgrade_if_higher sha256 s c.msgs c.model c.tier c.now).0 key ≡ (
          if text_eq (session_key sha256 c.msgs) key
          then (let d = decide (pinned s (session_key sha256 c.msgs)) c.model c.tier in
              some (d.0, d.1))
          else pinned s key)
  unfolding upgrade_if_higher pinned decide
  pinned-upgrade_if_higher s c key = ground (
    arith,
    text_eq_iff (session_key sha256 c.msgs) key,
    get-put s.entries (session_key sha256 c.msgs) key
        (record { model = c.model; tier = c.tier; updated = c.now }),
  )

  -- What each call of a history answers.
  unfoldable pub answers : Session → List Call → List (Text × Tier × Status)
  answers s [] = []
  answers s (c ∷ calls) =
      (upgrade_if_higher sha256 (run s calls) c.msgs c.model c.tier c.now).1 ∷ answers s calls

  pinned-retimed :
      (ttl ttl' : ℕ) (clock : ℕ → ℕ) (calls : List Call) (key : Text)
      → pinned (run (new_session ttl') (retimed clock calls)) key
        ≡ pinned (run (new_session ttl) calls) key
  unfolding run retimed
  pinned-retimed ttl ttl' clock [] key = unfold pinned in refl
  pinned-retimed ttl ttl' clock (c ∷ calls) key =
      let s = run (new_session ttl) calls in
      let s' = run (new_session ttl') (retimed clock calls) in
      let own = session_key sha256 c.msgs in
      pinned-upgrade_if_higher s' (record c { now = clock c.now }) key
      ∙ rw (pinned-retimed ttl ttl' clock calls key, pinned-retimed ttl ttl' clock calls own)
          (sym (pinned-upgrade_if_higher s c key))

  -- Neither the lifetime of a session cache nor the time between the calls changes an answer of
  -- UpgradeIfHigher: an empty cache with any other lifetime answers any history of calls, made at any
  -- other instants, in the same way. A pin never expires there.
  pub answers-retimed :
      (ttl ttl' : ℕ) (clock : ℕ → ℕ) (calls : List Call)
      → answers (new_session ttl') (retimed clock calls) ≡ answers (new_session ttl) calls
  unfolding answers retimed
  answers-retimed ttl ttl' clock [] = refl
  answers-retimed ttl ttl' clock (c ∷ calls) =
      let own = session_key sha256 c.msgs in
      let same =
        upgrade_if_higher-decide (run (new_session ttl') (retimed clock calls))
          (record c { now = clock c.now })
        ∙ ap (λ (p : Option (Text × Tier)). decide p c.model c.tier)
            (pinned-retimed ttl ttl' clock calls own)
        ∙ sym (upgrade_if_higher-decide (run (new_session ttl) calls) c) in
      rw (same, answers-retimed ttl ttl' clock calls) refl
