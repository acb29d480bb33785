-- ===== src/Records/Sources.antt =====
-- internal/domain/models.go: the sources of observations are told apart by their codes.
use corta_sentry.Prelude.{ℕ, ◌≡◌, ◌↔◌, refl, sym, ap, ◌∙◌, true, ◌==◌, ==_iff, if◌then◌else◌}
use corta_sentry.Records.Observations.{
  Source, source_eq, source_code, neighbor, tcp_connect, banner, http, tls, mdns, ssdp,
  host_connection, manual, imported_nmap, imported_zeek, imported_suricata, imported_nuclei,
}

source_of_code : ℕ → Source
source_of_code n =
    if n == 1
    then neighbor
    else if n == 2
    then tcp_connect
    else if n == 3
    then banner
    else if n == 4
    then http
    else if n == 5
    then tls
    else if n == 6
    then mdns
    else if n == 7
    then ssdp
    else if n == 8
    then host_connection
    else if n == 9
    then imported_nmap
    else if n == 10
    then imported_zeek
    else if n == 11
    then imported_suricata
    else if n == 12
    then imported_nuclei
    else manual

source_of_code-source_code : (s : Source) → source_of_code (source_code s) ≡ s
unfolding source_of_code source_code
source_of_code-source_code neighbor = refl
source_of_code-source_code tcp_connect = refl
source_of_code-source_code banner = refl
source_of_code-source_code http = refl
source_of_code-source_code tls = refl
source_of_code-source_code mdns = refl
source_of_code-source_code ssdp = refl
source_of_code-source_code host_connection = refl
source_of_code-source_code manual = refl
source_of_code-source_code imported_nmap = refl
source_of_code-source_code imported_zeek = refl
source_of_code-source_code imported_suricata = refl
source_of_code-source_code imported_nuclei = refl

pub source_eq_iff : (a b : Source) → (source_eq a b ≡ true) ↔ (a ≡ b)
source_eq_iff a b = (
  λ h.
      sym (source_of_code-source_code a)
      ∙ ap source_of_code ((==_iff (source_code a) (source_code b)).0 h)
      ∙ source_of_code-source_code b,
  λ e. rw e ((==_iff (source_code b) (source_code b)).1 refl),
)
