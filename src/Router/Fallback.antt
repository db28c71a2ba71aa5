-- ===== src/Router/Fallback.antt =====
-- router/router.go: the fallback chain of a decision.
use nadir.Prelude.{
  ℕ, ◌≡◌, refl, ap, Bool, true, false, not, ◌&&◌, ◌||◌, Option, none, some, List, [], ◌∷◌, ◌++◌,
  arith, if◌then◌else◌, Bool-cases, inl, inr,
}
use nadir.Prelude.Dict
use nadir.Prelude.Dict.{Dict, get-put}
use nadir.Prelude.Text.{
  Text, text_eq, text_eq_iff, text_mem, text_mem-append, is_empty, IsNodup, append-IsNodup,
}
use nadir.Types.{Tier}
use nadir.Router.Models.{Config}
use nadir.Health.{Tracker, order}
use nadir.Health.Ordering.{text_mem-order, order-IsNodup}

-- The two variables that the closure add writes.
pub record Chain : Type 0 where
  pub seen : Dict Bool
  pub out : List Text

-- seen[m]
unfoldable pub is_seen : Chain → Text → Bool
is_seen c m = elim (Dict.get c.seen m) [ none ↦ false | some b ↦ b ]

unfoldable pub add : Chain → Text → Chain
unfolding is_seen
add c m =
    if is_empty m || is_seen c m
    then c
    else record { seen = Dict.put c.seen m true; out = c.out ++ m ∷ [] }

unfoldable pub add_all : Chain → List Text → Chain
unfolding add
add_all c [] = c
add_all c (m ∷ ms) = add_all (add c m) ms

-- The tier ladder, as the models that the switch adds in turn.
unfoldable pub ladder : {F : Type 0} → Config F → Tier → List Text
ladder cfg Tier.reasoning = cfg.mid_model ∷ cfg.simple_model ∷ []
ladder cfg Tier.complex = cfg.mid_model ∷ cfg.simple_model ∷ []
ladder cfg Tier.mid = cfg.simple_model ∷ []
ladder cfg Tier.simple = []
ladder cfg Tier.free = []
ladder cfg (Tier.other _) = []

unfoldable pub reorder : Option Tracker → List Text → ℕ → List Text
reorder none out now = out
reorder (some t) out now = order t out now

unfoldable pub build_chain : {F : Type 0} → Config F → Option Tracker → Text → Tier → ℕ → List Text
unfolding add_all ladder reorder
build_chain cfg health primary tier now =
    let start : Chain = record { seen = Dict.put Dict.empty primary true; out = [] } in
    reorder health (add_all (add_all start cfg.fallback_chain) (ladder cfg tier)).out now

-- What has been seen is the primary model and what is in the chain.
record IsChain (primary : Text) (c : Chain) : Type 0 where
  seen_iff : (m : Text) → is_seen c m ≡ text_eq primary m || text_mem m c.out
  nodup : IsNodup c.out

add-IsChain :
    (primary : Text) (c : Chain) (m : Text) → IsChain primary c → IsChain primary (add c m)
unfolding add
add-IsChain primary c m v = elim (Bool-cases (is_empty m || is_seen c m)) [
  | inl skip ↦ rw skip v
  | inr new ↦ rw new (record {
    seen_iff = λ j.
        ground
          (arith, v.seen_iff j, seen_put c.seen m j, text_mem-append j c.out (m ∷ []), mem_one j m);
    nodup = append-IsNodup c.out m v.nodup (ground (arith, v.seen_iff m));
  })
]
  where
    mem_one : (j m : Text) → text_mem j (m ∷ []) ≡ text_eq m j
    mem_one j m = unfold text_mem in ground arith

    seen_put :
        (d : Dict Bool) (m j : Text)
        → is_seen (record { seen = Dict.put d m true; out = c.out ++ m ∷ [] }) j
          ≡ (if text_eq m j then true else is_seen (record { seen = d; out = c.out }) j)
    seen_put d m j = unfold is_seen in ground (arith, get-put d m j true)

-- One add appends the model exactly when it is neither empty, nor the primary, nor there already.
mem-add :
    (primary : Text) (c : Chain) (m j : Text)
    → IsChain primary c
    → text_mem j (add c m).out
      ≡ text_mem j c.out || (text_eq m j && not (is_empty j) && not (text_eq primary j))
unfolding add text_mem
mem-add primary c m j v = ground (
  arith,
  v.seen_iff m,
  text_mem-append j c.out (m ∷ []),
  text_eq_iff m j,
  ap is_empty,
  ap (text_eq primary),
)

add_all-IsChain :
    (primary : Text) (c : Chain) (ms : List Text)
    → IsChain primary c
    → IsChain primary (add_all c ms)
unfolding add_all
add_all-IsChain primary c [] v = v
add_all-IsChain primary c (m ∷ ms) v =
    add_all-IsChain primary (add c m) ms (add-IsChain primary c m v)

mem-add_all :
    (primary : Text) (c : Chain) (ms : List Text) (j : Text)
    → IsChain primary c
    → text_mem j (add_all c ms).out
      ≡ text_mem j c.out || (text_mem j ms && not (is_empty j) && not (text_eq primary j))
unfolding add_all text_mem
mem-add_all primary c [] j v = ground arith
mem-add_all primary c (m ∷ ms) j v =
    ground (
      arith,
      mem-add_all primary (add c m) ms j (add-IsChain primary c m v),
      mem-add primary c m j v,
    )

start-IsChain :
    (primary : Text)
    → IsChain primary (record { seen = Dict.put Dict.empty primary true; out = [] })
unfolding is_seen text_mem
start-IsChain primary = record {
  seen_iff = λ m. ground (arith, get-put {V = Bool} Dict.empty primary m true, get_empty m);
  nodup = tt;
}
  where
    get_empty : (m : Text) → Dict.get {V = Bool} Dict.empty m ≡ none
    get_empty m = unfold Dict.get in refl

text_mem-reorder :
    (health : Option Tracker) (out : List Text) (now : ℕ) (j : Text)
    → text_mem j (reorder health out now) ≡ text_mem j out
unfolding reorder
text_mem-reorder none out now j = refl
text_mem-reorder (some t) out now j = text_mem-order t out now j

reorder-IsNodup :
    (health : Option Tracker) (out : List Text) (now : ℕ)
    → IsNodup out
    → IsNodup (reorder health out now)
unfolding reorder
reorder-IsNodup none out now d = d
reorder-IsNodup (some t) out now d = order-IsNodup t out now d

-- The chain holds no model twice, and holds exactly the configured fallbacks and the cheaper tiers
-- that are neither empty nor the primary model, whatever the health of the models.
pub build_chain_lem :
    {F : Type 0} (cfg : Config F) (health : Option Tracker) (primary : Text) (tier : Tier) (now : ℕ)
    → IsNodup (build_chain cfg health primary tier now)
      × ((j : Text)
          → text_mem j (build_chain cfg health primary tier now) ≡ (
              (text_mem j cfg.fallback_chain || text_mem j (ladder cfg tier))
              && not (is_empty j)
              && not (text_eq primary j)))
unfolding build_chain
build_chain_lem cfg health primary tier now =
    let start : Chain = record { seen = Dict.put Dict.empty primary true; out = [] } in
    let v = start-IsChain primary in
    let first = add_all start cfg.fallback_chain in
    let w = add_all-IsChain primary start cfg.fallback_chain v in
    let final = add_all-IsChain primary first (ladder cfg tier) w in
    (
      reorder-IsNodup health _ now final.nodup,
      λ j. ground (
        arith,
        text_mem-reorder health (add_all first (ladder cfg tier)).out now j,
        mem-add_all primary first (ladder cfg tier) j w,
        mem-add_all primary start cfg.fallback_chain j v,
        none_yet j,
      ),
    )
  where
    none_yet : (j : Text) → text_mem j [] ≡ false
    none_yet j = unfold text_mem in refl
