-- ===== src/Skillrouter.antt =====
-- skillrouter/skillrouter.go: the skills and the decisions.
-- The children are the matcher of the same file (Router), prompt.go (Prompt), semantic.go (Semantic),
-- cascade.go (Cascade) and fused.go (Fused).
pub mod Prompt
pub mod Router
pub mod Semantic
pub mod Cascade
pub mod Fused
pub mod Embedders
pub mod Factory
use nadir.Prelude.{ℕ, Bool, List}
use nadir.Prelude.Text.{Text}

pub record Skill : Type 0 where
  pub name : Text
  pub description : Text
  pub examples : List Text

pub record Decision (F : Type 0) : Type 0 where
  pub skill : Text
  pub confidence : F
  pub margin : F
  pub raw_response : Text
  pub fell_through : Bool
