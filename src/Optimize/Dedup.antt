-- ===== src/Optimize/Dedup.antt =====
-- What removing repeated tool outputs keeps.
use nadir.Prelude.{none, some, List, [], ◌∷◌}
use nadir.Prelude.Text.{Text}
use nadir.Types.{Message}
use nadir.Types.Json.{Json}
use nadir.Optimize.{head_of}

module _ (json : Json) where
  -- The heads of the tool outputs, and the other messages.
  unfoldable pub heads : List Message → List Text
  heads [] = []
  heads (m ∷ ms) = elim (head_of json m) [ none ↦ heads ms | some head ↦ head ∷ heads ms ]

  unfoldable pub others : List Message → List Message
  others [] = []
  others (m ∷ ms) = elim (head_of json m) [ none ↦ m ∷ others ms | some head ↦ others ms ]
