-- ===== src/Skillrouter/Prompt.antt =====
-- skillrouter/prompt.go: the prompt that lists the skills, and how a reply names one. Texts are bytes.
pub mod Replies
use nadir.Prelude.{
  ℕ, zero, ◌+◌, ◌-◌, Bool, true, false, ◌&&◌, ◌||◌, not, Option, none, some, List, [], ◌∷◌, ◌++◌,
  ltb, leb, ◌==◌, if◌then◌else◌, length, take, drop,
}
use nadir.Prelude.Float.{Float}
use nadir.Prelude.Text.{
  Text, codes, text_eq, is_empty, to_lower, contains, trim_left, trim_right, trim_space,
}
use nadir.Types.Json.{Json}
use nadir.Skillrouter.{Skill, Decision}

-- s[:max] + "…", the ellipsis in its three bytes
unfoldable pub truncate_prompt : Text → ℕ → Text
truncate_prompt s max = if leb (length s) max then s else take max s ++ 226 ∷ 128 ∷ 166 ∷ []

-- One line of the list; "—" is three bytes.
unfoldable pub skill_line : Skill → Text
skill_line s =
    if is_empty s.description
    then codes "- " ++ (s.name ++ codes "\n")
    else codes "- " ++ (s.name ++ (32 ∷ 226 ∷ 128 ∷ 148 ∷ 32 ∷ s.description ++ codes "\n"))

unfoldable pub skill_lines : List Skill → Text
unfolding skill_line
skill_lines [] = []
skill_lines (s ∷ skills) = skill_line s ++ skill_lines skills

unfoldable pub example_name : List Skill → Text
example_name [] = []
example_name (s ∷ _) = s.name

unfoldable pub render_prompt : List Skill → Text → Text
unfolding skill_lines example_name truncate_prompt
render_prompt skills prompt =
    codes
      "You are a skill router. Pick the skill that best handles the user's request from the list below.\n\nReply with EXACTLY the skill name (e.g., "
    ++ (example_name skills
        ++ (codes
              ") and nothing else. If no skill applies, reply with the single word: none.\n\nSkills:\n"
            ++ (skill_lines skills
                ++ (codes "\nRequest:\n" ++ (truncate_prompt prompt 4000 ++ codes "\n\nSkill:")))))

-- The bytes of "`*\"' " and of ".,;:!?"
unfoldable pub is_wrapping : ℕ → Bool
is_wrapping c = (c == b'`') || (c == b'*') || (c == 34) || (c == 39) || (c == 32)

unfoldable pub is_stop : ℕ → Bool
is_stop c = (c == b'.') || (c == b',') || (c == b';') || (c == b':') || (c == b'!') || (c == b'?')

-- strings.Trim(s, "`*\"' "), then strings.TrimRight(s, ".,;:!?")
unfoldable pub unwrap : Text → Text
unfolding is_wrapping is_stop
unwrap s = trim_right is_stop (trim_right is_wrapping (trim_left is_wrapping s))

-- strings.IndexFunc, as the part before the byte and the part from it on
unfoldable pub split_at : (ℕ → Bool) → Text → Option (Text × Text)
split_at p [] = none
split_at p (c ∷ s) =
    let rest = split_at p s in
    if p c then some ([], c ∷ s) else (elim rest [ none ↦ none | some (a, b) ↦ some (c ∷ a, b) ])

unfoldable pub is_colon : ℕ → Bool
is_colon c = c == b':'

unfoldable pub is_line_break : ℕ → Bool
is_line_break c = (c == 10) || (c == 13)

unfoldable pub drop_label : Text → Text
unfolding is_colon split_at
drop_label s = elim (split_at is_colon s) [
  | none ↦ s
  | some (label, rest) ↦
      if ltb (length label) 16
        && (text_eq (to_lower label) (codes "skill") || text_eq (to_lower label) (codes "answer"))
      then trim_space (drop 1 rest)
      else s
]

unfoldable pub first_line : Text → Text
unfolding is_line_break split_at unwrap
first_line s = elim (split_at is_line_break s) [
  | none ↦ s
  | some (line, _) ↦ unwrap (trim_space line)
]

unfoldable pub clean_reply : Text → Text
unfolding drop_label first_line unwrap
clean_reply s =
    let t = trim_space s in
    if is_empty t then t else first_line (trim_space (unwrap (drop_label t)))

-- strings.EqualFold
unfoldable pub equal_fold : Text → Text → Bool
equal_fold s t = text_eq (to_lower s) (to_lower t)

unfoldable pub find_name : (Text → Bool) → List Skill → Option Text
find_name p [] = none
find_name p (s ∷ skills) = if p s.name then some s.name else find_name p skills

-- The loop over the catalog that keeps the longest name in the reply.
unfoldable pub longest_name : Text → List Skill → Text → Text
longest_name lower [] best = best
longest_name lower (s ∷ skills) best = longest_name lower skills (
    if not (is_empty s.name)
      && contains lower (to_lower s.name)
      && ltb (length best) (length s.name)
    then s.name
    else best)

-- json.Unmarshal into a string, or the bytes
unfoldable pub extract_text : Json → Text → Text
extract_text j [] = []
extract_text j (c ∷ raw) = elim (j.decode_string (c ∷ raw)) [ some s ↦ s | none ↦ c ∷ raw ]

module _ {F : Type 0} ⦃f : Float F⦄ where
  unfoldable pub fallthrough : Decision F
  fallthrough = record {
    skill = [];
    confidence = f.decimal 0 0;
    margin = f.decimal 0 0;
    raw_response = [];
    fell_through = true;
  }

  unfoldable pub picked : Text → F → F → Decision F
  picked name confidence margin = record {
    skill = name;
    confidence = confidence;
    margin = margin;
    raw_response = [];
    fell_through = false;
  }

  unfoldable pub parse_skill : Text → List Skill → Decision F
  unfolding clean_reply equal_fold find_name longest_name fallthrough picked
  parse_skill raw skills =
      let cleaned = clean_reply raw in
      if is_empty cleaned || equal_fold cleaned (codes "none")
      then fallthrough
      else (elim (find_name (text_eq cleaned) skills) [
        | some name ↦ picked name (f.decimal 1 0) (f.decimal 0 0)
        | none ↦ elim (find_name (equal_fold cleaned) skills) [
          | some name ↦ picked name (f.decimal 9 1) (f.decimal 0 0)
          | none ↦
              let best = longest_name (to_lower cleaned) skills [] in
              if is_empty best then fallthrough else picked best (f.decimal 7 1) (f.decimal 0 0)
        ]
      ])
