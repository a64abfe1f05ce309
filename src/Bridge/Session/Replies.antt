-- ===== src/Bridge/Session/Replies.antt =====
-- The output of `run_bridge` (bridge/src/main.rs): nothing but frames, at most one for each turn.
use bssl_ram.Prelude.{
  ℕ, ◌≡◌, ◌≤◌, refl, if-elim, length-append, suc, sym, ap, ◌∙◌, none, some, List, [], ◌∷◌, ◌++◌,
  length, arith,
}
use bssl_ram.Prelude.Text.{Text, text}
use bssl_ram.Http.{Json}
use bssl_ram.Bridge.Client
use bssl_ram.Bridge.Client.{Hyper}
use bssl_ram.Bridge.Nmh.{Frame, frame, failed, read_frame}
use bssl_ram.Bridge.Session.{
  Bridge, Turn, sigterm, readable, Step, stopped, next, panicked, respond, handle_frame, handled,
  with_reply, proceed, on_frame, with_connection, run, put_frame, error_reply,
}

module _ {V : Type 0} (json : Json V) where
  -- The frames of these values, one after the other.
  abbrev pub put_frames : List ℕ → List V → List ℕ
  put_frames stdout [] = stdout
  put_frames stdout (v ∷ vs) = put_frames (put_frame json stdout v) vs

  put_frames-append :
      (stdout : List ℕ) (us vs : List V)
      → put_frames stdout (us ++ vs) ≡ put_frames (put_frames stdout us) vs
  put_frames-append stdout [] vs = refl
  put_frames-append stdout (u ∷ us) vs = put_frames-append (put_frame json stdout u) us vs

module _ {S V : Type 0} (hyper : Hyper S) (json : Json V) (version : Text) where
  abbrev pub bridge_of : Step hyper json version → Bridge S
  bridge_of (stopped b) = b
  bridge_of (next b) = b
  bridge_of (panicked b) = b

  -- The output grew by the frames of at most `n` values.
  abbrev pub Wrote : ℕ → List ℕ → List ℕ → Type 0
  Wrote n before after = (vs : List V) × (length vs ≤ n) × (after ≡ put_frames json before vs)

  on_frame-Wrote :
      (b : Bridge S) (origin : Text) (r : Frame V)
      → Wrote 1 b.stdout (bridge_of (on_frame hyper json version b origin r)).stdout
  unfolding on_frame handle_frame
  on_frame-Wrote b origin (failed e) = ([], omega arith, refl)
  on_frame-Wrote b origin (frame f rest) =
      if-elim (λ x. Wrote 1 b.stdout (bridge_of x).stdout) (Client.is_closed hyper b.client)
        (λ _. (error_reply json (text "daemon disconnected") ∷ [], omega arith, refl))
        (λ _.
          elim (respond hyper json version f b.client origin).1
            as (λ o.
              Wrote 1 b.stdout
                (bridge_of (
                  handled hyper json version (record b { stdin = rest })
                    (with_reply hyper json version (record b { stdin = rest })
                      (respond hyper json version f b.client origin).0 o))).stdout) [
                        | none ↦ ([], omega arith, refl)
                        | some v ↦ (v ∷ [], omega arith, refl)
                      ])

  Wrote-trans : {n : ℕ} {a b c : List ℕ} → Wrote 1 a b → Wrote n b c → Wrote (suc n) a c
  Wrote-trans {a = a} (us, h, e) (vs, k, f) = (
    us ++ vs,
    ground (arith, h, k, length-append us vs),
    f ∙ ap (λ s. put_frames json s vs) e ∙ sym (put_frames-append json a us vs),
  )

  Wrote-more : (n : ℕ) {a b : List ℕ} → Wrote 1 a b → Wrote (suc n) a b
  Wrote-more n (us, h, e) = (us, omega arith, e)

  proceed-Wrote :
      (n : ℕ) {before : List ℕ} (s : Step hyper json version)
      (go_on : Bridge S → Step hyper json version)
      → Wrote 1 before (bridge_of s).stdout
      → ((b : Bridge S) → Wrote n b.stdout (bridge_of (go_on b)).stdout)
      → Wrote (suc n) before (bridge_of (proceed hyper json version s go_on)).stdout
  proceed-Wrote n (stopped b) go_on w rest = Wrote-more n w
  proceed-Wrote n (panicked b) go_on w rest = Wrote-more n w
  proceed-Wrote n (next b) go_on w rest = Wrote-trans w (rest b)

  -- Whatever the session meets, what it writes is the frames of at most as many values as it has
  -- turns.
  pub run-Wrote :
      (b : Bridge S) (origin : Text) (turns : List (Turn S))
      → Wrote (length turns) b.stdout (bridge_of (run hyper json version b origin turns)).stdout
  unfolding run
  run-Wrote b origin [] = ([], omega arith, refl)
  run-Wrote b origin (sigterm ∷ rest) = ([], omega arith, refl)
  run-Wrote b origin (readable change ∷ rest) =
      proceed-Wrote (length rest)
        (on_frame hyper json version (with_connection hyper json version b change) origin
          (read_frame json.from_slice b.stdin))
        (λ b'. run hyper json version b' origin rest)
        (on_frame-Wrote (with_connection hyper json version b change) origin
          (read_frame json.from_slice b.stdin))
        (λ b'. run-Wrote b' origin rest)
