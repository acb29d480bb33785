-- ===== src/Discovery/Collect.antt =====
-- internal/collectors/tcp, tls, http and banner: one observation from one connection. What the peer
-- answers on the n-th connection, hashes, the encoding of JSON and regular expressions are
-- parameters. Texts hold one byte to a code point.
use corta_sentry.Prelude.{
  ℕ, Bool, true, false, ◌||◌, Option, none, some, List, [], ◌∷◌, map, Result, ok, err,
  if◌then◌else◌, length, Text, ltb, take,
}
use corta_sentry.Scope.Address.{Addr, NetText}
use corta_sentry.Scope.Engine.{Engine, Decision}
use corta_sentry.Records.Observations.{
  Observation, Evidence, Source, tcp_connect, tls, http, banner,
}
use corta_sentry.Discovery.Sanitize.{Tables, Headers, printable, sanitize_headers, trim}
use corta_sentry.Discovery.Dialer.{Network, Probing, dial}

-- An HTTP response, its body as far as it is read.
pub record Response : Type 0 where
  pub status : Text
  pub headers : Headers
  pub server : Text
  pub body : Text

pub record Peers : Type 0 where
  -- Whether the TLS handshake on a connection succeeds, with the certificates.
  pub certificates : ℕ → Option (List Text)
  pub response : ℕ → Bool → Option Response
  pub greeting : ℕ → Text

pub record Codecs : Type 0 where
  pub tables : Tables
  -- hex.EncodeToString of sha256.Sum256, and the digest of a body.
  pub sha256_hex : Text → Text
  pub digest : Text → ℕ
  -- The group of titleRE.
  pub find_title : Text → Option Text
  -- The length of the JSON.
  pub json_size : Evidence → ℕ
  -- CollectorVersion and Application.
  pub version_of : Source → Text
  pub application_of : Source → Text

pub record Budget : Type 0 where
  pub max_body : ℕ
  pub max_headers : ℕ

abbrev pub local_sensor : Text
local_sensor = b'l' ∷ b'o' ∷ b'c' ∷ b'a' ∷ b'l' ∷ []

abbrev pub tcp_transport : Text
tcp_transport = b't' ∷ b'c' ∷ b'p' ∷ []

abbrev pub open_state : Text
open_state = b'o' ∷ b'p' ∷ b'e' ∷ b'n' ∷ []

abbrev pub closed_state : Text
closed_state =
    b'c' ∷ b'l' ∷ b'o' ∷ b's' ∷ b'e' ∷ b'd' ∷ b'_' ∷ b'o' ∷ b'r' ∷ b'_' ∷ b'e' ∷ b'r' ∷ b'r' ∷ b'o'
    ∷ b'r' ∷ []

abbrev pub no_evidence : Evidence
no_evidence = record {
  size = 0;
  state = [];
  certificates = [];
  status = none;
  title = none;
  server = none;
  banner_text = none;
}

module _ (c : Codecs) where
  abbrev pub sized : Evidence → Evidence
  sized v = record v { size = c.json_size v }

  -- What the collectors fill in alike. The clock is that of the world.
  unfoldable pub observed : ℕ → ℕ → Source → Addr → ℕ → Evidence → ℕ → Decision → Bool → Observation
  observed job now source a port v digest d truncated = record {
    id = 0;
    sensor_id = local_sensor;
    job_id = job;
    asset_id = 0;
    observed_at = now;
    ingested_at = 0;
    source = source;
    target = a;
    port = port;
    transport = tcp_transport;
    application = c.application_of source;
    evidence = sized v;
    raw_digest = digest;
    collector_version = c.version_of source;
    policy_decision_id = d.id;
    truncated = truncated;
    provenance = [];
  }

  -- http: the evidence of a response, and whether something of it was cut.
  unfoldable pub http_evidence : Budget → Response → Evidence × Bool
  http_evidence b r =
      let body = take b.max_body r.body in
      let h = sanitize_headers c.tables r.headers b.max_headers 4096 in
      (
        record no_evidence {
          status = some r.status;
          title = some (elim (c.find_title body) [
            | none ↦ []
            | some t ↦ (printable c.tables (trim c.tables t) 512).0
          ]);
          server = some (printable c.tables r.server 512).0;
        },
        ltb b.max_body (length r.body) || h.1,
      )

  -- tls: the digests of the first five certificates.
  unfoldable pub tls_evidence : List Text → Evidence
  tls_evidence certs = record no_evidence { certificates = map c.sha256_hex (take 5 certs) }

  -- banner.
  unfoldable pub banner_evidence : ℕ → Text → Evidence × Bool
  banner_evidence max text = (
    record no_evidence { banner_text = some (printable c.tables (take max text) max).0 },
    ltb max (length text),
  )

  module _ (net : NetText) {S : Type 0} (e : Engine S) (wire : Network) (peers : Peers)
      (budget : Budget) (job : ℕ) where
    abbrev is_ok : {A B : Type 0} → Result A B → Bool
    is_ok (ok x) = true
    is_ok (err x) = false

    -- tcp.Collect: always an observation.
    unfoldable pub collect_tcp : Addr → ℕ → Probing S → Observation × Probing S
    unfolding observed
    collect_tcp a port st =
        let r = dial net e wire a port st in
        let v = record no_evidence { state = if is_ok r.0 then open_state else closed_state } in
        (observed job st.world.clock tcp_connect a port v 0 r.1 false, r.2)

    -- A collector that observes only what answered on its own connection. The number of that
    -- connection is the number of attempts before it.
    unfoldable pub collect_over :
        (ℕ → Decision → ℕ → Option Observation)
        → Addr
        → ℕ
        → Probing S
        → Option Observation × Probing S
    collect_over answer a port st =
        let r = dial net e wire a port st in
        elim r.0 [ err x ↦ (none, r.2) | ok d ↦ (answer (length st.dialed) d r.2.world.clock, r.2) ]

    -- What a connection gives, where the handshake or the request succeeds.
    unfoldable pub tls_answer : Addr → ℕ → ℕ → Decision → ℕ → Option Observation
    unfolding observed tls_evidence
    tls_answer a port n d now = elim (peers.certificates n) [
      | none ↦ none
      | some certs ↦ some (observed job now tls a port (tls_evidence certs) 0 d false)
    ]

    unfoldable pub http_answer : Bool → Addr → ℕ → ℕ → Decision → ℕ → Option Observation
    unfolding observed http_evidence
    http_answer secure a port n d now = elim (peers.response n secure) [
      | none ↦ none
      | some r ↦
          (let v = http_evidence budget r in
            some (observed job now http a port v.0 (c.digest (take budget.max_body r.body)) d v.1))
    ]

    unfoldable pub banner_answer : Addr → ℕ → ℕ → Decision → ℕ → Option Observation
    unfolding observed banner_evidence
    banner_answer a port n d now =
        let text = peers.greeting n in
        let v = banner_evidence budget.max_body text in
        some (observed job now banner a port v.0 (c.digest (take budget.max_body text)) d v.1)

    -- tls.Collect.
    unfoldable pub collect_tls : Addr → ℕ → Probing S → Option Observation × Probing S
    unfolding collect_over tls_answer
    collect_tls a port st = collect_over (tls_answer a port) a port st

    -- http.Collect and http.CollectSecure: one request, with no redirect followed.
    unfoldable pub collect_http : Bool → Addr → ℕ → Probing S → Option Observation × Probing S
    unfolding collect_over http_answer
    collect_http secure a port st = collect_over (http_answer secure a port) a port st

    -- banner.Collect.
    unfoldable pub collect_banner : Addr → ℕ → Probing S → Option Observation × Probing S
    unfolding collect_over banner_answer
    collect_banner a port st = collect_over (banner_answer a port) a port st
