-- ===== src/Cache/Prompt.antt =====
-- cache/prompt.go: the cache of responses, bounded in size and in time. An element of the linked
-- list order has an identity, which entries maps a key to; the list is given from front to back.
-- Instants and durations are numbers of nanoseconds, and a lifetime that is not positive is 0. The
-- digest of the model and the messages (hashKey) is the key. An operation reads the clock once.
pub mod Elements
pub mod Valid
pub mod Lru
pub mod Eviction
pub mod Recency
use nadir.Prelude.{
  ℕ, zero, suc, ◌+◌, Bool, true, false, ◌&&◌, Option, none, some, List, [], ◌∷◌, ◌++◌, ltb, leb,
  ◌==◌, if◌then◌else◌, length,
}
use nadir.Prelude.Dict
use nadir.Prelude.Dict.{Dict}
use nadir.Prelude.Text.{Text, text_eq}
use nadir.Types.{ChatResponse}

-- A list.Element with its promptEntry.
pub record Element : Type 0 where
  pub id : ℕ
  pub key : Text
  pub resp : ChatResponse
  pub expires : ℕ

pub record Prompt : Type 0 where
  pub max_size : ℕ
  pub ttl : ℕ
  pub entries : Dict ℕ
  pub order : List Element
  pub next_id : ℕ
  pub hits : ℕ
  pub misses : ℕ
  pub evictions : ℕ

-- NewPrompt
unfoldable pub new_prompt : ℕ → ℕ → Prompt
new_prompt max_size ttl = record {
  max_size = if max_size == 0 then 256 else max_size;
  ttl = ttl;
  entries = Dict.empty;
  order = [];
  next_id = 0;
  hits = 0;
  misses = 0;
  evictions = 0;
}

-- The element that a pointer refers to.
unfoldable pub element : ℕ → List Element → Option Element
element id [] = none
element id (e ∷ es) = if e.id == id then some e else element id es

-- c.order.Remove(el)
unfoldable pub remove : ℕ → List Element → List Element
remove id [] = []
remove id (e ∷ es) = let rest = remove id es in if e.id == id then es else e ∷ rest

-- c.order.Back()
unfoldable pub back : List Element → Option Element
back [] = none
back (e ∷ es) = elim (back es) [ none ↦ some e | some b ↦ some b ]

unfoldable pub expiry : Prompt → ℕ → ℕ
expiry c now = if ltb 0 c.ttl then now + c.ttl else 0

unfoldable pub remove_locked : Prompt → Element → Prompt
remove_locked c e = record c { entries = Dict.delete c.entries e.key; order = remove e.id c.order }

unfoldable pub get : Prompt → Text → ℕ → Prompt × Option ChatResponse
get c key now = elim (Dict.get c.entries key) [
  | none ↦ (record c { misses = c.misses + 1 }, none)
  | some id ↦ elim (element id c.order) [
    | none ↦ (record c { misses = c.misses + 1 }, none)
    | some e ↦
        if ltb 0 c.ttl && ltb e.expires now
        then (record (remove_locked c e) { misses = c.misses + 1 }, none)
        else (record c { order = e ∷ remove id c.order; hits = c.hits + 1 }, some e.resp)
  ]
]

-- The loop of Put that evicts from the back, with the length of the list for its fuel.
unfoldable pub evict : ℕ → Prompt → Prompt
unfolding back remove_locked
evict zero c = c
evict (suc fuel) c = if leb (length c.order) c.max_size then c else elim (back c.order) [
  | none ↦ c
  | some e ↦ evict fuel (record (remove_locked c e) { evictions = c.evictions + 1 })
]

-- The branch of Put for a new key, before the eviction.
unfoldable pub push : Prompt → Text → ChatResponse → ℕ → Prompt
unfolding expiry
push c key resp now = record c {
  entries = Dict.put c.entries key c.next_id;
  order = (record { id = c.next_id; key = key; resp = resp; expires = expiry c now }) ∷ c.order;
  next_id = c.next_id + 1;
}

unfoldable pub put : Prompt → Text → Option ChatResponse → ℕ → Prompt
unfolding push expiry
put c key none now = c
put c key (some resp) now = elim (Dict.get c.entries key) [
  | none ↦ let c' = push c key resp now in evict (length c'.order) c'
  | some id ↦ elim (element id c.order) [
    | none ↦ c
    | some e ↦ record c {
      order = (record e { resp = resp; expires = expiry c now }) ∷ remove id c.order;
    }
  ]
]
