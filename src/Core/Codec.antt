-- ===== src/Core/Codec.antt =====
-- A file that holds a state with the hash of its canonical JSON, as StateStore of packages/risk and
-- Journal of packages/execution write it. JSON, its validation and the hash are the libraries' (json,
-- pydantic, hashlib), so they are parameters.
use kometa.Prelude.{Result, String}

pub record Codec (S : Type 0) : Type 1 where
  pub Json : Type 0
  -- the content of a file
  pub Text : Type 0
  -- `state.model_dump(mode="json")` and `model_validate`, with the text of the error
  pub dump : S → Json
  pub validate : Json → Result String S
  -- `sha256_hex(canonical_json(body))`
  pub digest : Json → String
  -- `json.dumps({"state": body, "sha256": digest})`, and `json.loads` with both fields read
  pub render : Json → String → Text
  pub parse : Text → Result String (Json × String)
