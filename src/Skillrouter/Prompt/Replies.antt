-- ===== src/Skillrouter/Prompt/Replies.antt =====
-- Which skill a reply names.
use nadir.Prelude.{
  ℕ, suc, ◌≤◌, ◌≡◌, refl, ap, subst, ◌⊎◌, inl, inr, arith, Bool, true, false, not, ◌&&◌, ◌||◌, some,
  List, [], ◌∷◌, ltb, if◌then◌else◌, length, All, All-map, Bool-cases, Option-cases,
}
use nadir.Prelude.Float.{Float}
use nadir.Prelude.Text.{
  Text, codes, text_eq, text_eq_iff, text_eq_self, is_empty, is_empty_iff, to_lower, has_prefix,
  contains, text_mem,
}
use nadir.Skillrouter.{Skill, Decision}
use nadir.Skillrouter.Prompt.{
  clean_reply, equal_fold, find_name, longest_name, fallthrough, picked, parse_skill,
}

unfoldable pub names : List Skill → List Text
names [] = []
names (s ∷ skills) = s.name ∷ names skills

-- The name is not empty and, in small letters, is a part of the reply in small letters.
unfoldable pub occurs : Text → Text → Bool
occurs reply name = not (is_empty name) && contains (to_lower reply) (to_lower name)

has_prefix-length : (s p : Text) → has_prefix s p ≡ true → length p ≤ length s
unfolding has_prefix
has_prefix-length s [] h = omega arith
has_prefix-length [] (a ∷ p) h = ground arith
has_prefix-length (b ∷ s) (a ∷ p) h = ground (arith, has_prefix-length s p)

contains-length : (s p : Text) → contains s p ≡ true → length p ≤ length s
unfolding contains
contains-length [] p h = has_prefix-length [] p h
contains-length (a ∷ s) p h = ground (arith, contains-length s p, has_prefix-length (a ∷ s) p)

has_prefix_self : (s : Text) → has_prefix s s ≡ true
unfolding has_prefix
has_prefix_self [] = refl
has_prefix_self (a ∷ s) = ground (arith, has_prefix_self s)

contains_self : (s : Text) → contains s s ≡ true
unfolding contains
contains_self [] = has_prefix_self []
contains_self (a ∷ s) = ground (arith, has_prefix_self (a ∷ s))

to_lower-length : (s : Text) → length (to_lower s) ≡ length s
unfolding to_lower
to_lower-length [] = refl
to_lower-length (a ∷ s) = ap suc (to_lower-length s)

-- A name that occurs in a reply is no longer than the reply.
occurs-length : (reply name : Text) → occurs reply name ≡ true → length name ≤ length reply
unfolding occurs
occurs-length reply name h = ground (
  arith,
  contains-length (to_lower reply) (to_lower name),
  to_lower-length reply,
  to_lower-length name,
)

is_empty-length : (s t : Text) → is_empty s ≡ false → length t ≡ length s → is_empty t ≡ false
unfolding is_empty
is_empty-length [] t h e = ground arith
is_empty-length (a ∷ s) [] h e = absurd (omega arith)
is_empty-length (a ∷ s) (b ∷ t) h e = refl

-- A name that is the reply up to letter case occurs in it and is as long.
equal_fold-occurs :
    (reply name : Text)
    → is_empty reply ≡ false
    → equal_fold reply name ≡ true
    → (occurs reply name ≡ true) × (length name ≡ length reply)
unfolding occurs equal_fold
equal_fold-occurs reply name h e =
    let same : to_lower reply ≡ to_lower name =
      (text_eq_iff (to_lower reply) (to_lower name)).0 e in
    let size : length name ≡ length reply =
      omega (arith, to_lower-length reply, to_lower-length name, ap length same) in
    let within : contains (to_lower reply) (to_lower name) ≡ true =
      rw same (contains_self (to_lower name)) in
    let named : is_empty name ≡ false = is_empty-length reply name h size in
    (rw (within, named) refl, size)

find_name-some :
    (p : Text → Bool) (skills : List Skill) (name : Text)
    → find_name p skills ≡ some name
    → (text_mem name (names skills) ≡ true) × (p name ≡ true)
unfolding find_name names text_mem
find_name-some p [] name h = ground arith
find_name-some p (s ∷ skills) name h =
    ground (arith, find_name-some p skills name, text_eq_self s.name)

-- Every name of the list that occurs in the reply has at most n bytes.
abbrev pub IsBoundedBy : Text → ℕ → List Skill → Type 0
IsBoundedBy reply n = All (λ (s : Skill). (occurs reply s.name ≡ false) ⊎ (length s.name ≤ n))

all_occur_within : (reply : Text) (skills : List Skill) → IsBoundedBy reply (length reply) skills
all_occur_within reply [] = tt
all_occur_within reply (s ∷ skills) = (
  elim (Bool-cases (occurs reply s.name)) [
    | inl e ↦ inr (occurs-length reply s.name e)
    | inr e ↦ inl e
  ],
  all_occur_within reply skills,
)

longest_name-start :
    (lower : Text) (skills : List Skill) (best : Text)
    → length best ≤ length (longest_name lower skills best)
unfolding longest_name
longest_name-start lower [] best = omega arith
longest_name-start lower (s ∷ skills) best =
    ground (arith, longest_name-start lower skills best, longest_name-start lower skills s.name)

longest_name-IsBoundedBy :
    (reply : Text) (skills : List Skill) (best : Text)
    → IsBoundedBy reply (length (longest_name (to_lower reply) skills best)) skills
unfolding longest_name occurs
longest_name-IsBoundedBy reply [] best = tt
longest_name-IsBoundedBy reply (s ∷ skills) best =
    let next : Text =
      if occurs reply s.name && ltb (length best) (length s.name) then s.name else best in
    (
      elim (Bool-cases (occurs reply s.name)) [
        | inl e ↦ inr (
            ground (
              arith,
              longest_name-start (to_lower reply) skills best,
              longest_name-start (to_lower reply) skills s.name,
            ))
        | inr e ↦ inl e
      ],
      longest_name-IsBoundedBy reply skills next,
    )

longest_name-found :
    (reply : Text) (skills : List Skill) (best : Text)
    → (longest_name (to_lower reply) skills best ≡ best)
      ⊎ ((text_mem (longest_name (to_lower reply) skills best) (names skills) ≡ true)
          × (occurs reply (longest_name (to_lower reply) skills best) ≡ true))
unfolding longest_name occurs text_mem names
longest_name-found reply [] best = inl refl
longest_name-found reply (s ∷ skills) best = ground (
  arith,
  longest_name-found reply skills best,
  longest_name-found reply skills s.name,
  text_eq_self s.name,
)

empty-occurs : (reply name : Text) → length name ≤ 0 → occurs reply name ≡ false
unfolding occurs is_empty
empty-occurs reply [] h = refl
empty-occurs reply (a ∷ name) h = absurd (omega arith)

-- No name of the list occurs in the reply.
abbrev pub IsUnnamed : Text → List Skill → Type 0
IsUnnamed reply = All (λ (s : Skill). occurs reply s.name ≡ false)

unnamed : (reply : Text) (skills : List Skill) → IsBoundedBy reply 0 skills → IsUnnamed reply skills
unnamed reply skills =
    All-map _ (λ (s : Skill). occurs reply s.name ≡ false) skills
      (λ s h. elim h [ inl e ↦ e | inr le ↦ empty-occurs reply s.name le ])

-- The name stands in the list and occurs in the reply, and no longer name does.
abbrev pub IsPick : Text → List Skill → Text → Type 0
IsPick reply skills name =
    (text_mem name (names skills) ≡ true)
    × (occurs reply name ≡ true)
    × IsBoundedBy reply (length name) skills

text_eq-equal_fold : (reply name : Text) → text_eq reply name ≡ true → equal_fold reply name ≡ true
unfolding equal_fold
text_eq-equal_fold reply name e = rw ((text_eq_iff reply name).0 e) (text_eq_self (to_lower name))

fold-IsPick :
    (reply : Text) (skills : List Skill) (name : Text)
    → is_empty reply ≡ false
    → text_mem name (names skills) ≡ true
    → equal_fold reply name ≡ true
    → IsPick reply skills name
fold-IsPick reply skills name full member e =
    let (inside, size) = equal_fold-occurs reply name full e in
    (member, inside, rw size (all_occur_within reply skills))

module _ {F : Type 0} ⦃f : Float F⦄ where
  -- Either nothing was asked for or named, or the decision is the longest name that occurs.
  abbrev pub IsReading : Text → List Skill → Decision F → Type 0
  IsReading reply skills d =
      ((d ≡ fallthrough)
        × (((is_empty reply || equal_fold reply (codes "none")) ≡ true) ⊎ IsUnnamed reply skills))
      ⊎ ((d.fell_through ≡ false) × IsPick reply skills d.skill)

  picked-IsReading :
      (reply : Text) (skills : List Skill) (d : Decision F) (name : Text) (confidence : F)
      → d ≡ picked name confidence (f.decimal 0 0)
      → IsPick reply skills name
      → IsReading reply skills d
  unfolding picked
  picked-IsReading reply skills d name confidence e pick = inr (rw e (refl, pick))

  -- A reply that is empty or says none falls through, and so does one in which no name of the catalog occurs.
  -- From any other reply the decision is a name of the catalog that occurs in it, and no name of the catalog
  -- that occurs in it is longer. Occurring does not depend on letter case.
  pub parse_skill_lem :
      (raw : Text) (skills : List Skill)
      → IsReading (clean_reply raw) skills (parse_skill {F = F} raw skills)
  unfolding parse_skill
  parse_skill_lem raw skills =
      let reply = clean_reply raw in
      let found = λ (name : Text) (confidence : F).
        picked-IsReading reply skills (parse_skill raw skills) name confidence in
      elim (Bool-cases (is_empty reply || equal_fold reply (codes "none"))) [
        | inl declined ↦ inl (rw (declined, parse_skill) refl, inl declined)
        | inr asks ↦
            let full : is_empty reply ≡ false = ground arith in
            elim (Option-cases (find_name (text_eq reply) skills)) [
              | inr (name, q) ↦
                  let (member, e) = find_name-some (text_eq reply) skills name q in
                  found name (f.decimal 1 0) (rw (asks, q, parse_skill) refl)
                    (fold-IsPick reply skills name full member (text_eq-equal_fold reply name e))
              | inl q ↦ elim (Option-cases (find_name (equal_fold reply) skills)) [
                | inr (name, r) ↦
                    let (member, e) = find_name-some (equal_fold reply) skills name r in
                    found name (f.decimal 9 1) (rw (asks, q, r, parse_skill) refl)
                      (fold-IsPick reply skills name full member e)
                | inl r ↦
                    let best = longest_name (to_lower reply) skills [] in
                    let bounded = longest_name-IsBoundedBy reply skills [] in
                    elim (Bool-cases (is_empty best)) [
                      | inl missing ↦ inl (
                        rw (asks, q, r, missing, parse_skill) refl,
                        inr (
                            unnamed reply skills (
                              subst (λ (t : Text). IsBoundedBy reply (length t) skills)
                                ((is_empty_iff best).0 missing) bounded)),
                      )
                      | inr full_name ↦ elim (longest_name-found reply skills []) [
                        | inl empty ↦ absurd (ground (arith, (is_empty_iff best).1 empty))
                        | inr (member, inside) ↦
                            found best (f.decimal 7 1)
                              (rw (asks, q, r, full_name, parse_skill) refl)
                              (member, inside, bounded)
                      ]
                    ]
              ]
            ]
      ]
