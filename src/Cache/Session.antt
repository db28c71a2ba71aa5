-- ===== src/Cache/Session.antt =====
-- cache/session.go: the model and the tier pinned to a conversation. Instants and durations are
-- numbers of nanoseconds, and a lifetime that is not positive is 0. The hexadecimal SHA-256 digest
-- is a parameter.
pub mod Pins
pub mod Keys
use nadir.Prelude.{
  ℕ, zero, ◌+◌, ◌-◌, Bool, true, false, ◌&&◌, ◌||◌, Option, none, some, List, [], ◌∷◌, ◌++◌, ltb,
  leb, if◌then◌else◌,
}
use nadir.Prelude.Dict
use nadir.Prelude.Dict.{Dict}
use nadir.Prelude.Text.{Text, codes, text_eq}
use nadir.Types.{Tier, Message, tier_rank}

pub record SessionEntry : Type 0 where
  pub model : Text
  pub tier : Tier
  pub updated : ℕ

pub record Session : Type 0 where
  pub ttl : ℕ
  pub entries : Dict SessionEntry

pub data Status : Type 0 where
  new pinned upgraded : Status

-- NewSession
abbrev pub new_session : ℕ → Session
new_session ttl = record { ttl = ttl; entries = Dict.empty }

-- What sessionKey writes to the hash: the system messages up to the first user message, and that.
unfoldable pub session_text : List Message → Text
session_text [] = []
session_text (m ∷ msgs) =
    let rest = session_text msgs in
    if text_eq m.role (codes "system") || text_eq m.role (codes "user")
    then m.role ++ (0 ∷ m.content ++ (0 ∷ (if text_eq m.role (codes "user") then [] else rest)))
    else rest

module _ (sha256 : Text → Text) where
  unfoldable pub session_key : List Message → Text
  session_key msgs = sha256 (session_text msgs)

  unfoldable pub get : Session → List Message → ℕ → Session × Option (Text × Tier)
  get s msgs now = elim (Dict.get s.entries (session_key msgs)) [
    | none ↦ (s, none)
    | some e ↦
        if ltb 0 s.ttl && ltb s.ttl (now - e.updated)
        then (record s { entries = Dict.delete s.entries (session_key msgs) }, none)
        else (s, some (e.model, e.tier))
  ]

  -- Records the model and the tier, and returns the final ones with the status.
  unfoldable pub upgrade_if_higher :
      Session → List Message → Text → Tier → ℕ → Session × (Text × Tier × Status)
  upgrade_if_higher s msgs model tier now =
      let e' : SessionEntry = record { model = model; tier = tier; updated = now } in
      let stored = record s { entries = Dict.put s.entries (session_key msgs) e' } in
      elim (Dict.get s.entries (session_key msgs)) [
        | none ↦ (stored, (model, tier, Status.new))
        | some e ↦
            if leb (tier_rank tier) (tier_rank e.tier)
            then (s, (e.model, e.tier, Status.pinned))
            else (stored, (model, tier, Status.upgraded))
      ]
