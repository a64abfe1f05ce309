-- ===== src/Http.antt =====
-- The messages of HTTP between bridge/src/client.rs and daemon/src/signals.rs, as both sides see
-- them, and what the code uses of axum, hyper and serde_json. These are parameters: their
-- operations are the fields of a record.
use bssl_ram.Prelude.{ℕ, Bool, Option, List, ◌&&◌, leb, ltb}
use bssl_ram.Prelude.Text.{Text}

pub data Method : Type 0 where
  get post : Method

-- Header names are in lower case.
pub record Request : Type 0 where
  pub method : Method
  pub uri : Text
  pub headers : List (Text × Text)
  pub body : List ℕ

-- A response; its body may be lost on the way.
pub record Response : Type 0 where
  pub status : ℕ
  pub body : Option (List ℕ)

-- `StatusCode::is_success`
abbrev pub is_success : ℕ → Bool
is_success status = leb 200 status && ltb status 300

-- What is used of serde_json, for its type of values. `set` is an assignment at a key, with no
-- result where it panics.
pub record Json (V : Type 0) : Type 0 where
  pub from_slice : List ℕ → Option V
  pub to_vec : V → Option (List ℕ)
  pub get : V → Text → Option V
  pub set : V → Text → V → Option V
  pub as_str : V → Option Text
  pub as_bool : V → Option Bool
  pub null : V
  pub object : List (Text × V) → V
  pub string : Text → V
  pub bool : Bool → V
  pub number : ℕ → V
  pub array : List V → V
