-- ===== src/Importer/Nmap.antt =====
-- internal/importer/importer.go: Nmap.
use corta_sentry.Prelude.{
  ℕ, Bool, true, false, ◌&&◌, not, Option, none, some, List, [], ◌∷◌, ok, err, Text, ltb, list_eq,
  if◌then◌else◌,
}
use corta_sentry.Scope.Address.{Addr, unmap, invalid}
use corta_sentry.Records.Observations.{Observation, imported_nmap, is_valid}
use corta_sentry.Discovery.Collect.{no_evidence}
use corta_sentry.Importer.Input.{
  max_import_bytes, Sink, NmapPort, NmapAddress, NmapHost, NmapRun, too_large, not_xml, not_nmap,
  Library, bounded, imported, Import, give,
}

module _ (lib : Library) where
  -- The first address of a host that is an IP address and can be read.
  unfoldable pub host_address : List NmapAddress → Addr
  host_address [] = invalid
  host_address (a ∷ as') =
      let rest = host_address as' in
      if a.is_ip then elim (lib.net.parse_addr a.addr) [ none ↦ rest | some x ↦ unmap x ] else rest

  -- The observation of a port, the product and the version cut.
  unfoldable pub nmap_observation : ℕ → ℕ → Addr → NmapPort → Observation
  nmap_observation now digest a p =
      imported lib now imported_nmap a p.port p.protocol p.service
        (record no_evidence {
          size = lib.nmap_size p (bounded lib p.product 512) (bounded lib p.version 256);
          state = p.state;
        })
        digest lib.nmap_version lib.nmap_provenance

  module _ {S : Type 0} (sink : Sink S) (dry : Bool) where
    unfoldable pub nmap_ports : ℕ → ℕ → Addr → List NmapPort → ℕ → S → Import S
    unfolding nmap_observation give
    nmap_ports now digest a [] count st = (ok tt, count, st)
    nmap_ports now digest a (p ∷ ps) count st =
        let r = give sink dry (nmap_observation now digest a p) count st in
        elim r.0 [ err x ↦ r | ok _ ↦ nmap_ports now digest a ps r.1 r.2 ]

    unfoldable pub nmap_hosts : ℕ → ℕ → List NmapHost → ℕ → S → Import S
    unfolding nmap_ports host_address
    nmap_hosts now digest [] count st = (ok tt, count, st)
    nmap_hosts now digest (h ∷ hs) count st =
        let a = host_address h.addresses in
        let r = nmap_ports now digest a h.ports count st in
        if not (is_valid a)
        then nmap_hosts now digest hs count st
        else elim r.0 [ err x ↦ r | ok _ ↦ nmap_hosts now digest hs r.1 r.2 ]

    abbrev nmap_text : Text
    nmap_text = b'n' ∷ b'm' ∷ b'a' ∷ b'p' ∷ []

    abbrev is_empty : Text → Bool
    is_empty [] = true
    is_empty (c ∷ s) = false

    -- Nmap, on what was read: its length, its digest and what xml.Unmarshal makes of it.
    unfoldable pub nmap : ℕ → ℕ → ℕ → Option NmapRun → S → Import S
    unfolding nmap_hosts
    nmap now bytes digest decoded st =
        if ltb max_import_bytes bytes then (err too_large, 0, st) else elim decoded [
          | none ↦ (err not_xml, 0, st)
          | some run ↦
              if not (is_empty run.scanner) && not (list_eq run.scanner nmap_text)
              then (err not_nmap, 0, st)
              else nmap_hosts now digest run.hosts 0 st
        ]
