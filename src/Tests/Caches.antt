-- ===== src/Tests/Caches.antt =====
-- The caches at concrete inputs.
use nadir.Prelude.{
  ◌*◌, ◌≡◌, ◌≢◌, ◌≤◌, ◌<◌, ◌+◌, refl, arith, true, none, some, List, [], ◌∷◌, length, take,
}
use nadir.Prelude.Dict
use nadir.Prelude.Text.{codes, text_eq}
use nadir.Types.{Tier, tier_rank}
use nadir.Cache.Session.{Session, Status, new_session, session_key, upgrade_if_higher}
use nadir.Cache.Session
use nadir.Cache.Session.Keys.{has_user}
use nadir.Cache.Session.Pins.{
  Call, run, highest, pinned_rank, pinned_rank-run, answers, retimed, answers-retimed,
}
use nadir.Cache.Prompt.{Prompt, new_prompt, put, evict, expiry}
use nadir.Cache.Prompt
use nadir.Cache.Prompt.Elements.{without}
use nadir.Cache.Prompt.Valid.{IsValid, new_prompt-IsValid}
use nadir.Cache.Prompt.Lru.{stored, after_get, get_lem}
use nadir.Cache.Prompt.Recency.{put_element, put_lem, get-put}
use nadir.Tests.Fixtures.{digest, hello, response}

abbrev two : Prompt
two = new_prompt 2 50

abbrev one_entry : Prompt
one_entry = put two (codes "a") (some (response (codes "m"))) 3

two_fits : length two.order ≤ two.max_size
unfolding new_prompt
two_fits = omega arith

one_entry-IsValid : IsValid one_entry
one_entry-IsValid =
    (put_lem two (new_prompt-IsValid 2 50) two_fits (codes "a") (response (codes "m")) 3).0

put_lem_example :
    let c' = put two (codes "a") (some (response (codes "m"))) 3 in
    let e = put_element two (codes "a") (response (codes "m")) 3 in
    IsValid c'
    × (c'.order ≡ take two.max_size (e ∷ without (codes "a") two.order))
    × (text_eq e.key (codes "a") ≡ true)
    × (e.resp ≡ response (codes "m"))
    × (e.expires ≡ expiry two 3)
put_lem_example =
    put_lem two (new_prompt-IsValid 2 50) two_fits (codes "a") (response (codes "m")) 3

get_lem_example :
    IsValid (Prompt.get one_entry (codes "a") 5).0
    × ((Prompt.get one_entry (codes "a") 5).1 ≡ stored one_entry (codes "a") 5)
    × ((Prompt.get one_entry (codes "a") 5).0.order ≡ after_get one_entry (codes "a") 5)
get_lem_example = get_lem one_entry one_entry-IsValid (codes "a") 5

two_room : 0 < two.max_size
unfolding new_prompt
two_room = omega arith

two_fresh : 0 < two.ttl → 53 ≤ 3 + two.ttl
unfolding new_prompt
two_fresh h = omega arith

get-put_example :
    (Prompt.get (put two (codes "a") (some (response (codes "m"))) 3) (codes "a") 53).1
    ≡ some (response (codes "m"))
get-put_example =
    get-put two (codes "a") (response (codes "m")) 3 53 (new_prompt-IsValid 2 50) two_fits two_room
      two_fresh

-- Past its lifetime an entry is gone.
expired : (Prompt.get (put two (codes "a") (some (response (codes "m"))) 3) (codes "a") 54).1 ≡ none
unfolding put evict new_prompt Prompt.get Dict.get Dict.put text_eq Prompt.element
expired = refl

one_entry_within : length one_entry.order ≤ 1 + one_entry.max_size
unfolding put evict new_prompt Dict.get Dict.put text_eq
one_entry_within = omega arith

abbrev asked : List Call
asked =
    record { msgs = hello; model = codes "large"; tier = Tier.complex; now = 2 }
    ∷ record { msgs = hello; model = codes "small"; tier = Tier.simple; now = 1 }
    ∷ []

pinned_rank-run_example :
    pinned_rank (run digest (new_session 10) asked) (session_key digest hello)
    ≡ highest digest (session_key digest hello) asked
pinned_rank-run_example = pinned_rank-run digest 10 asked (session_key digest hello)

answers-retimed_example :
    answers digest (new_session 5) (retimed (λ t. t * 100) asked)
    ≡ answers digest (new_session 10) asked
answers-retimed_example = answers-retimed digest 10 5 (λ t. t * 100) asked

pinned_at_complex :
    pinned_rank (run digest (new_session 10) asked) (session_key digest hello) ≡ some 3
unfolding run pinned_rank upgrade_if_higher session_key Dict.get Dict.put text_eq tier_rank
    Session.session_text
pinned_at_complex = refl

hello_user : has_user hello ≡ true
unfolding has_user text_eq
hello_user = refl

mid_is_new :
    (upgrade_if_higher digest (new_session 10) hello (codes "m") Tier.mid 4).1.2 ≢ Status.pinned
unfolding upgrade_if_higher Dict.get
mid_is_new h = ground arith

abbrev old : Session
old = record {
  ttl = 10;
  entries =
      Dict.put Dict.empty (session_key digest hello)
        (record { model = codes "large"; tier = Tier.complex; updated = 1 });
}

old_found :
    Dict.get old.entries (session_key digest hello)
    ≡ some (record { model = codes "large"; tier = Tier.complex; updated = 1 })
unfolding session_key Dict.get Dict.put text_eq Session.session_text
old_found = refl

lower_tier : tier_rank Tier.simple ≤ tier_rank Tier.complex
unfolding tier_rank
lower_tier = omega arith
