-- ===== src/Bridge/Session/Conversation.antt =====
-- The loop of `run_bridge` (bridge/src/main.rs) on bytes against a conversation on messages.
use bssl_ram.Prelude.{
  ℕ, ◌≡◌, refl, if◌then◌else◌, Bool-cases, Option-cases, inl, inr, Option, none, some, List, [],
  ◌∷◌, map,
}
use bssl_ram.Prelude.Text.{Text, text}
use bssl_ram.Http.{Json}
use bssl_ram.Bridge.Client
use bssl_ram.Bridge.Client.{Hyper, DaemonClient}
use bssl_ram.Bridge.Nmh.{frame, read_frame}
use bssl_ram.Bridge.Session.{
  Bridge, Turn, readable, respond, handle_frame, on_frame, run, put_frame, error_reply,
}
use bssl_ram.Bridge.Session.Replies.{put_frames, bridge_of}

module _ {V : Type 0} (json : Json V) where
  -- The bytes start with these frames, one after the other.
  abbrev pub StartsWith : List ℕ → List V → Type 0
  StartsWith bytes [] = Unit
  StartsWith bytes (f ∷ fs) =
      (rest : List ℕ) × (read_frame json.from_slice bytes ≡ frame f rest) × StartsWith rest fs

abbrev pub turns_of : {S V : Type 0} → List (V × (S → S)) → List (Turn S)
turns_of fs = map (λ f. readable f.1) fs

module _ {S V : Type 0} (hyper : Hyper S) (json : Json V) (version : Text) where
  abbrev pub and_then : DaemonClient S × Option V → (DaemonClient S → List V) → List V
  and_then (client, none) others = []
  and_then (client, some v) others = v ∷ others client

  -- Each message is answered in its turn. A connection that is closed is answered once more, and
  -- then the conversation is over, as it is after a panic.
  unfoldable pub conversation : DaemonClient S → Text → List (V × (S → S)) → List V
  conversation client origin [] = []
  conversation client origin ((f, change) ∷ fs) =
      let client' : DaemonClient S = record client { sender = change client.sender } in
      if Client.is_closed hyper client'
      then error_reply json (text "daemon disconnected") ∷ []
      else and_then (respond hyper json version f client' origin) (λ c. conversation c origin fs)

  -- If the input starts with these frames, then a session with as many turns, the connection
  -- changing before each, writes the frames of the replies of the conversation, in order, and
  -- nothing else; a reply that cannot be encoded within the limit is left out.
  pub run-conversation :
      (b : Bridge S) (origin : Text) (fs : List (V × (S → S)))
      → StartsWith json b.stdin (map (λ f. f.0) fs)
      → (bridge_of hyper json version (run hyper json version b origin (turns_of fs))).stdout
        ≡ put_frames json b.stdout (conversation b.client origin fs)
  unfolding run conversation on_frame handle_frame
  run-conversation b origin [] h = refl
  run-conversation b origin ((f, change) ∷ fs) (rest, e, h) =
      let client : DaemonClient S = record (b.client) { sender = change b.client.sender } in
      rw e (elim (Bool-cases (Client.is_closed hyper client)) [
        | inl gone ↦ rw gone refl
        | inr there ↦ rw there (elim (Option-cases (respond hyper json version f client origin).1) [
          | inl panic ↦ rw panic refl
          | inr (v, reply) ↦ rw reply (
              run-conversation
                (record {
                  client = (respond hyper json version f client origin).0;
                  stdin = rest;
                  stdout = put_frame json b.stdout v;
                })
                origin fs h)
        ])
      ])
