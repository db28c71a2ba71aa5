-- ===== src/Types/Json.antt =====
-- What the program uses of encoding/json on message contents, as an interface.
use nadir.Prelude.{Option, List}
use nadir.Prelude.Text.{Text}

-- An element of a content array, with the fields that the code reads; a missing field is empty.
pub record Part : Type 0 where
  pub kind : Text
  pub text : Text

pub record Json : Type 0 where
  -- json.Unmarshal(raw, &s) for a string s; none is an error
  pub decode_string : Text → Option Text
  -- json.Unmarshal(raw, &parts) for a slice of structs
  pub decode_parts : Text → Option (List Part)
  -- json.Unmarshal(raw, &parts) for a slice of maps, with p["type"] of each, empty where it is no string
  pub decode_types : Text → Option (List Text)
  -- json.Marshal(s)
  pub encode_string : Text → Text
