-- ===== src/Skillrouter/Cascade/Shortlist.antt =====
-- The shortlist has skills of the catalog alone.
use nadir.Prelude.{
  ◌≡◌, refl, sym, subst, ◌∙◌, arith, true, some, List, [], ◌∷◌, All, All-map, Bool-cases,
  Option-cases, inl, inr,
}
use mathlib.Core.Option.{some_inj}
use nadir.Prelude.Dict
use nadir.Prelude.Dict.{Dict, get-put}
use nadir.Prelude.Text.{Text, text_eq, text_eq_iff, text_eq_self, text_mem}
use nadir.Skillrouter.{Skill}
use nadir.Skillrouter.Prompt.Replies.{names}
use nadir.Skillrouter.Semantic.{Semantic, Ranked}
use nadir.Skillrouter.Cascade.{by_name, pick_skills, make_shortlist}

-- Every name of the list is a name of the catalog.
abbrev pub IsWithin : List Skill → List Skill → Type 0
IsWithin catalog = All (λ (s : Skill). text_mem s.name (names catalog) ≡ true)

pub within-names :
    (catalog skills : List Skill) (name : Text)
    → IsWithin catalog skills
    → text_mem name (names skills) ≡ true
    → text_mem name (names catalog) ≡ true
unfolding names text_mem
within-names catalog [] name w h = ground arith
within-names catalog (s ∷ skills) name w h =
    ground (arith, within-names catalog skills name w.1, text_eq_iff s.name name)

-- Every skill that a map holds is in the catalog.
abbrev IsFilled : List Skill → Dict Skill → Type 0
IsFilled catalog m =
    (k : Text) (s : Skill) → Dict.get m k ≡ some s → text_mem s.name (names catalog) ≡ true

put-IsFilled :
    (catalog : List Skill) (m : Dict Skill) (s : Skill)
    → IsFilled catalog m
    → text_mem s.name (names catalog) ≡ true
    → IsFilled catalog (Dict.put m s.name s)
put-IsFilled catalog m s h e k t q = elim (Bool-cases (text_eq s.name k)) [
  | inl same ↦
      let stored : some s ≡ some t = sym (get-put m s.name k s ∙ rw same refl) ∙ q in
      subst (λ (x : Skill). text_mem x.name (names catalog) ≡ true) (some_inj.0 stored) e
  | inr other ↦ h k t (sym (get-put m s.name k s ∙ rw other refl) ∙ q)
]

by_name-IsFilled :
    (catalog skills : List Skill) (m : Dict Skill)
    → IsWithin catalog skills
    → IsFilled catalog m
    → IsFilled catalog (by_name skills m)
unfolding by_name
by_name-IsFilled catalog [] m w h = h
by_name-IsFilled catalog (s ∷ skills) m w h =
    by_name-IsFilled catalog skills (Dict.put m s.name s) w.1 (put-IsFilled catalog m s h w.0)

IsWithin-cons :
    (s : Skill) (catalog skills : List Skill)
    → IsWithin catalog skills
    → IsWithin (s ∷ catalog) skills
unfolding names text_mem
IsWithin-cons s catalog skills =
    All-map _ (λ (t : Skill). text_mem t.name (names (s ∷ catalog)) ≡ true) skills
      (λ t h. ground arith)

IsWithin-self : (skills : List Skill) → IsWithin skills skills
unfolding names text_mem
IsWithin-self [] = tt
IsWithin-self (s ∷ skills) =
    (ground (arith, text_eq_self s.name), IsWithin-cons s skills skills (IsWithin-self skills))

module _ {F : Type 0} where
  pick_skills-IsWithin :
      (catalog : List Skill) (m : Dict Skill) (ranked : List (Ranked F))
      → IsFilled catalog m
      → IsWithin catalog (pick_skills m ranked)
  unfolding pick_skills
  pick_skills-IsWithin catalog m [] h = tt
  pick_skills-IsWithin catalog m (r ∷ ranked) h = elim (Option-cases (Dict.get m r.skill)) [
    | inl q ↦ rw (q, pick_skills) (pick_skills-IsWithin catalog m ranked h)
    | inr (s, q) ↦ rw (q, pick_skills) (h r.skill s q, pick_skills-IsWithin catalog m ranked h)
  ]

  pub make_shortlist-IsWithin :
      (primary : Semantic F) (ranked : List (Ranked F))
      → IsWithin primary.skills (make_shortlist primary ranked)
  unfolding make_shortlist Dict.get
  make_shortlist-IsWithin primary ranked =
      pick_skills-IsWithin primary.skills (by_name primary.skills Dict.empty) ranked (
        by_name-IsFilled primary.skills primary.skills Dict.empty (IsWithin-self primary.skills)
          (λ k s q. ground arith))
