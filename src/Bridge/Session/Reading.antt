-- ===== src/Bridge/Session/Reading.antt =====
-- What the extension reads in a reply of bridge/src/main.rs, given what it relies on of serde_json.
use bssl_ram.Prelude.{ℕ, ◌≡◌, ◌↔◌, Bool, true, false, Option, some, List, [], ◌∷◌, arith, ◌>>=◌}
use bssl_ram.Prelude.Map
use bssl_ram.Prelude.Text.{Text, text, text_eq}
use bssl_ram.Http.{Json}
use bssl_ram.Bridge.Client.{Hyper, ok}
use bssl_ram.Bridge.Session.{report_response, ok_reply, status_reply}

-- A field of an object is what the object was made with, and a Boolean is read as it was written.
pub record IsJson {V : Type 0} (json : Json V) : Type 0 where
  pub get_object :
      (fields : List (Text × V)) (key : Text)
      → json.get (json.object fields) key ≡ Map.lookup key fields
  pub as_bool_bool : (b : Bool) → json.as_bool (json.bool b) ≡ some b

-- What the extension reads in a reply.
abbrev pub ok_field : {V : Type 0} → Json V → V → Option Bool
ok_field json reply = do v ← json.get reply (text "ok"); json.as_bool v

module _ {S V : Type 0} (hyper : Hyper S) (json : Json V) (version : Text) where
  ok_reply-field : IsJson json → ok_field json (ok_reply json) ≡ some true
  unfolding Map.lookup
  ok_reply-field laws = ground (
    arith,
    laws.get_object ((text "ok", json.bool true) ∷ []) (text "ok"),
    laws.as_bool_bool true,
  )

  status_reply-field :
      IsJson json → (status : ℕ) → ok_field json (status_reply json status) ≡ some false
  unfolding Map.lookup
  status_reply-field laws status = ground (
    arith,
    laws.get_object ((text "ok", json.bool false) ∷ (text "status", json.number status) ∷ [])
        (text "ok"),
    laws.as_bool_bool false,
  )

  pub report_response-ok_iff :
      (success : Bool) (status : ℕ)
      → IsJson json
      → (ok_field json (report_response hyper json version (ok (success, status))) ≡ some true)
        ↔ (success ≡ true)
  unfolding report_response
  report_response-ok_iff true status laws = ground (arith, ok_reply-field laws)
  report_response-ok_iff false status laws = ground (arith, status_reply-field laws status)
