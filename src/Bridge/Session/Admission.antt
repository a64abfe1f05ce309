-- ===== src/Bridge/Session/Admission.antt =====
-- `handle_frame` of bridge/src/main.rs against the server of daemon/src/signals.rs at the other end
-- of the socket: when the browser is told that its report was taken.
use bssl_ram.Prelude.{
  ℕ, ◌≡◌, ◌≢◌, ◌≤◌, ◌↔◌, ◌⊎◌, refl, sym, ap, inl, inr, Bool, true, false, Bool-cases, Option-cases,
  Option, none, some, List, arith,
}
use mathlib.Core.Path.{subst}
use bssl_ram.Prelude.Text.{Text, text, beq_text, text_eq}
use bssl_ram.Prelude.Words.{abs_diff}
use bssl_ram.Http.{Json, Request, is_success}
use bssl_ram.Bridge.Client.{
  Hyper, DaemonClient, Result, ok, ClientError, connected, report_request, post_report, send_report,
}
use bssl_ram.Bridge.Session.{respond, report_response, kind_of, payload_of}
use bssl_ram.Bridge.Session.Reading.{IsJson, ok_field, report_response-ok_iff}
use bssl_ram.Signals.{
  SignalStore, StatusCode, no_content, bad_request, unauthorized, report_handler, wire_version,
  protocol_version, sent_at_max_skew_ms, canonical_family,
}
use bssl_ram.Signals.Admission.{stored, handled-no_content_iff, handled-accepted}
use bssl_ram.Signals.Report.{BrowserSignalsReport}
use bssl_ram.Signals.Server.{
  Axum, Extracted, extracted, rejection, route, post_report_route, max_report_bytes, source_header,
  status_number,
}

-- A rejection has the status of an error.
abbrev pub RejectsWithError : {V : Type 0} → Axum V → Type 0
RejectsWithError axum =
    (limit : ℕ) (req : Request) (status : ℕ)
    → axum.extract limit req ≡ rejection status
    → is_success status ≡ false

success_iff : (s : StatusCode) → (is_success (status_number s) ≡ true) ↔ (s ≡ no_content)
success_iff no_content = ground arith
success_iff bad_request = ground arith
success_iff unauthorized = ground arith

-- What the daemon asks of a report that comes over the socket.
abbrev pub IsAdmitted : ℕ → BrowserSignalsReport → Type 0
IsAdmitted now_wall report =
    (wire_version report ≡ protocol_version)
    × (abs_diff now_wall report.sent_at_ms ≤ sent_at_max_skew_ms)
    × (canonical_family report.browser.family ≢ none)

module _ {V : Type 0} (json : Json V) (axum : Axum V) (is_header_value : Text → Bool)
    (display : ClientError → Text) (version : Text) (now now_wall : ℕ) where
  -- The connection to a daemon that runs: its state is the daemon's store.
  abbrev pub daemon : Hyper SignalStore
  daemon = record {
    is_closed = λ store. false;
    send_request = λ store req.
        let (store', response) = route json axum store false now now_wall req in
        (store', some response);
    is_header_value = is_header_value;
    display = display;
  }

  module _ (store : SignalStore) (f : V) (origin : Text) (body : List ℕ) where
    abbrev pub request : Request
    request = report_request body origin

    abbrev pub answer : DaemonClient SignalStore × Option V
    answer = respond daemon json version f (connected store) origin

    answer-report :
        kind_of json f ≡ text "report"
        → json.to_vec (payload_of json f) ≡ some body
        → is_header_value origin ≡ true
        → answer ≡ (
            let (client, result) = send_report daemon (connected store) request in
            (client, some (report_response daemon json version result)))
    unfolding respond post_report
    answer-report kind encoded fits = ground (
      arith,
      ap (λ k. beq_text k (text "ping")) kind,
      ap (λ k. beq_text k (text "report")) kind,
      encoded,
      fits,
    )

    abbrev sent : DaemonClient SignalStore × Result (Bool × ℕ)
    sent = send_report daemon (connected store) request

    sent-rejected :
        (status : ℕ)
        → axum.extract max_report_bytes request ≡ rejection status
        → sent ≡ (connected store, ok (is_success status, status))
    unfolding send_report route post_report_route
    sent-rejected status e = ground (arith, e)

    abbrev handled : BrowserSignalsReport → SignalStore × StatusCode
    handled report =
        report_handler store false (axum.header request source_header) now now_wall report

    sent-extracted :
        (report : BrowserSignalsReport)
        → axum.extract max_report_bytes request ≡ extracted report
        → sent ≡ (
          connected (handled report).0,
          ok (is_success (status_number (handled report).1), status_number (handled report).1),
        )
    unfolding send_report route post_report_route
    sent-extracted report e = ground (arith, e)

    -- There is a reply, it says `ok` exactly if the daemon extracts a report that it admits, and
    -- the store then has that report under its family, and is as before otherwise.
    abbrev pub IsAnswered : DaemonClient SignalStore × Option V → Type 0
    IsAnswered a =
        (reply : V) × (a.1 ≡ some reply)
        × ((ok_field json reply ≡ some true) ↔ (
            (report : BrowserSignalsReport) × (axum.extract max_report_bytes request
              ≡ extracted report)
            × IsAdmitted now_wall report))
        × (((ok_field json reply ≢ some true) × (a.0.sender ≡ store))
            ⊎ ((ok_field json reply ≡ some true)
                × (report : BrowserSignalsReport) × (family : Text) × (axum.extract max_report_bytes
                      request
                    ≡ extracted report)
                × (canonical_family report.browser.family ≡ some family)
                × (a.0.sender ≡ stored store now report family)))

    sent_rejected-IsAnswered :
        (status : ℕ)
        → IsJson json
        → RejectsWithError axum
        → axum.extract max_report_bytes request ≡ rejection status
        → IsAnswered (sent.0, some (report_response daemon json version sent.1))
    sent_rejected-IsAnswered status laws errors e =
        subst (λ r. IsAnswered (r.0, some (report_response daemon json version r.1)))
          (sym (sent-rejected status e))
          (
            report_response daemon json version (ok (is_success status, status)),
            refl,
            ground (
              arith,
              report_response-ok_iff daemon json version (is_success status) status laws,
              errors max_report_bytes request status e,
              e,
            ),
            inl (
              ground (
                arith,
                report_response-ok_iff daemon json version (is_success status) status laws,
                errors max_report_bytes request status e,
              ),
              refl,
            ),
          )

    handled-IsAdmitted :
        (report : BrowserSignalsReport)
        → (is_success (status_number (handled report).1) ≡ true) ↔ IsAdmitted now_wall report
    handled-IsAdmitted report = ground (
      arith,
      success_iff (handled report).1,
      handled-no_content_iff store false (axum.header request source_header) now now_wall report,
    )

    handled-store :
        (report : BrowserSignalsReport)
        → ((is_success (status_number (handled report).1) ≡ false) × ((handled report).0 ≡ store))
          ⊎ ((is_success (status_number (handled report).1) ≡ true)
              × (family : Text) × (canonical_family report.browser.family ≡ some family)
              × ((handled report).0 ≡ stored store now report family))
    handled-store report = elim (Bool-cases (is_success (status_number (handled report).1))) [
      | inl done ↦ elim (Option-cases (canonical_family report.browser.family)) [
        | inl unknown ↦ absurd (((handled-IsAdmitted report).0 done).2 unknown)
        | inr (family, known) ↦ inr (
          done,
          family,
          known,
          ap (λ r. r.0)
              (handled-accepted store false (axum.header request source_header) now now_wall report
                family known ((success_iff (handled report).1).0 done)),
        )
      ]
      | inr refused ↦ inl (
        refused,
        ground (
          arith,
          refused,
          success_iff (handled report).1,
          (handled-no_content_iff store false (axum.header request source_header) now now_wall
              report).1,
        ),
      )
    ]

    sent_extracted-IsAnswered :
        (report : BrowserSignalsReport)
        → IsJson json
        → axum.extract max_report_bytes request ≡ extracted report
        → IsAnswered (sent.0, some (report_response daemon json version sent.1))
    sent_extracted-IsAnswered report laws e =
        let status = status_number (handled report).1 in
        let told = report_response-ok_iff daemon json version (is_success status) status laws in
        subst (λ r. IsAnswered (r.0, some (report_response daemon json version r.1)))
          (sym (sent-extracted report e))
          (
            report_response daemon json version (ok (is_success status, status)),
            refl,
            (
              λ h. (report, e, (handled-IsAdmitted report).0 (told.0 h)),
              λ (r, e', admitted).
                  let same : r ≡ report = ground (arith, e, e') in
                  told.1
                    ((handled-IsAdmitted report).1 (subst (IsAdmitted now_wall) same admitted)),
            ),
            elim (handled-store report) [
              | inl (refused, same) ↦ inl (λ h. cc (told.0 h, refused), same)
              | inr (done, family, known, taken) ↦
                  inr (told.1 done, report, family, e, known, taken)
            ],
          )

    -- A report frame that can be sent over the socket to a daemon that runs is answered. The answer
    -- says `ok` exactly if the daemon extracts a report of its protocol version, sent at most two
    -- minutes from its clock, for a known family; the daemon's store is then the old one with that
    -- report under its family, and otherwise it is as before. It is assumed that the payload and
    -- the origin can be encoded, that JSON objects give back their fields, and that a rejection by
    -- axum has the status of an error.
    pub respond-ok_iff :
        IsJson json
        → RejectsWithError axum
        → kind_of json f ≡ text "report"
        → json.to_vec (payload_of json f) ≡ some body
        → is_header_value origin ≡ true
        → IsAnswered answer
    respond-ok_iff laws errors kind encoded fits =
        subst IsAnswered (sym (answer-report kind encoded fits))
          (reached (axum.extract max_report_bytes request) refl)
      where
        reached :
            (o : Extracted)
            → axum.extract max_report_bytes request ≡ o
            → IsAnswered (sent.0, some (report_response daemon json version sent.1))
        reached (extracted report) e = sent_extracted-IsAnswered report laws e
        reached (rejection status) e = sent_rejected-IsAnswered status laws errors e
