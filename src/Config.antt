-- ===== src/Config.antt =====
-- internal/config/config.go: the configuration that the environment gives. os.Getenv, the parsers of
-- integers, floats and durations, and their types are parameters; a complaint to stderr has no effect.
pub mod Providers
use nadir.Prelude.{
  ℕ, Bool, true, false, not, Option, none, some, List, [], ◌∷◌, ◌++◌, map, ◌==◌, if◌then◌else◌,
}
use nadir.Prelude.Dict
use nadir.Prelude.Dict.{Dict}
use nadir.Prelude.Float.{Float}
use nadir.Prelude.Text.{Text, codes, is_empty, to_lower, has_prefix, contains, trim_space}
use nadir.Router.Models

-- strings.Split by one byte
unfoldable pub put_first : ℕ → List Text → List Text
put_first c [] = (c ∷ []) ∷ []
put_first c (part ∷ parts) = (c ∷ part) ∷ parts

unfoldable pub split : ℕ → Text → List Text
unfolding put_first
split b [] = [] ∷ []
split b (c ∷ s) = let rest = split b s in if c == b then [] ∷ rest else put_first c rest

unfoldable pub split_comma : Text → List Text
unfolding split
split_comma v = if is_empty v then [] else map trim_space (split b',' v)

-- strings.Cut at "="
unfoldable pub cut : Text → Option (Text × Text)
cut [] = none
cut (c ∷ s) =
    let rest = cut s in
    if c == b'=' then some ([], s) else (elim rest [ none ↦ none | some (k, v) ↦ some (c ∷ k, v) ])

unfoldable pub provider_for : Text → Text
provider_for model =
    let m = to_lower model in
    if has_prefix m (codes "ollama/")
    then codes "ollama"
    else (if contains m (codes "claude")
        then codes "anthropic"
        else (if contains m (codes "gemini") then codes "gemini" else codes "openai"))

-- The first loop of inferProviderMap.
unfoldable pub infer_models : List Text → Dict Text → Dict Text
unfolding provider_for
infer_models [] out = out
infer_models (m ∷ models) out =
    infer_models models (if is_empty m then out else Dict.put out m (provider_for m))

-- The second loop.
unfoldable pub add_entry : Dict Text → Text → Dict Text
unfolding cut
add_entry out entry = elim (cut entry) [
  | none ↦ out
  | some (k, v) ↦ Dict.put out (trim_space k) (trim_space v)
]

unfoldable pub add_entries : List Text → Dict Text → Dict Text
unfolding add_entry
add_entries [] out = out
add_entries (entry ∷ entries) out = add_entries entries (add_entry out entry)

-- inferProviderMap, on the models that it considers and the value of NADIR_PROVIDER_MAP
unfoldable pub infer_provider_map : List Text → Text → Dict Text
unfolding infer_models add_entries split_comma
infer_provider_map consider overrides =
    add_entries (split_comma overrides) (infer_models consider Dict.empty)

module _ (F I D : Type 0) where
  pub record Config : Type 0 where
    pub addr : Text
    pub auth_token : Text
    pub max_body_mb : I
    pub simple_model : Text
    pub mid_model : Text
    pub complex_model : Text
    pub reasoning_model : Text
    pub fallback_chain : List Text
    pub tier_thresholds : F × F
    pub user_rate_window : D
    pub user_rate_limit : I
    pub cache_max_size : I
    pub cache_ttl : D
    pub openai_base_url : Text
    pub openai_api_key : Text
    pub anthropic_api_key : Text
    pub google_api_key : Text
    pub ollama_base_url : Text
    pub cascade_threshold : F
    pub cascade_llm_model : Text
    pub cascade_llm_base_url : Text
    pub cascade_llm_api_key : Text
    pub cascade_llm_timeout_sec : I
    pub provider_for_model : Dict Text

  -- The environment and the parsers. Durations are written in seconds.
  pub record Environment : Type 0 where
    pub getenv : Text → Text
    pub atoi : Text → Option I
    pub parse_float : Text → Option F
    pub parse_duration : Text → Option D
    pub int : ℕ → I
    pub seconds : ℕ → D

-- RouterConfig
unfoldable pub router_config : {F I D : Type 0} → Config F I D → Models.Config F
router_config c = record {
  simple_model = c.simple_model;
  mid_model = c.mid_model;
  complex_model = c.complex_model;
  reasoning_model = c.reasoning_model;
  fallback_chain = c.fallback_chain;
  tier_thresholds = c.tier_thresholds;
  provider_for_model = c.provider_for_model;
}

unfoldable pub or_default {ℓ} : {A : Type ℓ} → Option A → A → A
or_default none def = def
or_default (some a) def = a

module _ {F I D : Type 0} ⦃f : Float F⦄ (env : Environment F I D) where
  unfoldable pub get_env : Text → Text → Text
  get_env key def = if is_empty (env.getenv key) then def else env.getenv key

  unfoldable pub get_env_int : Text → I → I
  unfolding or_default
  get_env_int key def =
      if is_empty (env.getenv key) then def else or_default (env.atoi (env.getenv key)) def

  unfoldable pub get_env_float : Text → F → F
  unfolding or_default
  get_env_float key def =
      if is_empty (env.getenv key) then def else or_default (env.parse_float (env.getenv key)) def

  unfoldable pub get_env_duration : Text → D → D
  unfolding or_default
  get_env_duration key def =
      if is_empty (env.getenv key)
      then def
      else or_default (env.parse_duration (env.getenv key)) def

  unfoldable pub two_floats : List Text → F × F → F × F
  two_floats (p ∷ q ∷ []) def = elim (env.parse_float (trim_space p)) [
    | none ↦ def
    | some a ↦ elim (env.parse_float (trim_space q)) [ none ↦ def | some b ↦ (a, b) ]
  ]
  two_floats _ def = def

  unfoldable pub get_env_thresholds : Text → F × F → F × F
  unfolding two_floats split
  get_env_thresholds key def =
      if is_empty (env.getenv key) then def else two_floats (split b',' (env.getenv key)) def

  -- Load
  unfoldable pub load_config : Config F I D
  unfolding get_env get_env_int get_env_float get_env_duration get_env_thresholds infer_provider_map
      split_comma
  load_config =
      let simple = get_env (codes "NADIR_SIMPLE_MODEL") (codes "gpt-4o-mini") in
      let mid = env.getenv (codes "NADIR_MID_MODEL") in
      let complex = get_env (codes "NADIR_COMPLEX_MODEL") (codes "gpt-4o") in
      let reasoning = env.getenv (codes "NADIR_REASONING_MODEL") in
      let chain = split_comma (env.getenv (codes "NADIR_FALLBACK_CHAIN")) in
      record {
        addr = get_env (codes "NADIR_ADDR") (codes ":8856");
        auth_token = env.getenv (codes "NADIR_AUTH_TOKEN");
        max_body_mb = get_env_int (codes "NADIR_MAX_BODY_MB") (env.int 20);
        simple_model = simple;
        mid_model = mid;
        complex_model = complex;
        reasoning_model = reasoning;
        fallback_chain = chain;
        tier_thresholds =
            get_env_thresholds (codes "NADIR_TIER_THRESHOLDS") (f.decimal 35 2, f.decimal 65 2);
        user_rate_window = get_env_duration (codes "NADIR_RATE_WINDOW") (env.seconds 60);
        user_rate_limit = get_env_int (codes "NADIR_RATE_LIMIT") (env.int 120);
        cache_max_size = get_env_int (codes "NADIR_CACHE_MAX_SIZE") (env.int 256);
        cache_ttl = get_env_duration (codes "NADIR_CACHE_TTL") (env.seconds 1800);
        openai_base_url = env.getenv (codes "NADIR_OPENAI_BASE_URL");
        openai_api_key = env.getenv (codes "NADIR_OPENAI_API_KEY");
        anthropic_api_key = env.getenv (codes "NADIR_ANTHROPIC_API_KEY");
        google_api_key = env.getenv (codes "NADIR_GOOGLE_API_KEY");
        ollama_base_url =
            get_env (codes "NADIR_OLLAMA_BASE_URL") (codes "http://localhost:11434/v1");
        cascade_threshold = get_env_float (codes "NADIR_CASCADE_THRESHOLD") (f.decimal 0 0);
        cascade_llm_model = env.getenv (codes "NADIR_CASCADE_LLM_MODEL");
        cascade_llm_base_url = env.getenv (codes "NADIR_CASCADE_LLM_BASE_URL");
        cascade_llm_api_key = env.getenv (codes "NADIR_CASCADE_LLM_API_KEY");
        cascade_llm_timeout_sec = get_env_int (codes "NADIR_CASCADE_LLM_TIMEOUT_SEC") (env.int 2);
        provider_for_model =
            infer_provider_map (simple ∷ mid ∷ complex ∷ reasoning ∷ chain)
              (env.getenv (codes "NADIR_PROVIDER_MAP"));
      }
