-- ===== src/Importer/DryRun.antt =====
-- internal/importer/importer.go: what a dry run says of the import.
use corta_sentry.Prelude.{
  ℕ, ◌+◌, ◌≡◌, refl, Bool, true, false, Option, none, some, List, [], ◌∷◌, arith, Option-cases,
  Bool-cases, inl, inr, length, ok,
}
use corta_sentry.Scope.Address.{Addr}
use corta_sentry.Records.Observations.{Observation, Source, is_valid}
use corta_sentry.Importer.Input.{
  Sink, Fields, Kind, Library, give, Import, NmapPort, NmapHost, NmapRun,
}
use corta_sentry.Importer.Nmap.{nmap, nmap_hosts, nmap_ports, nmap_observation, host_address}
use corta_sentry.Importer.Jsonl.{
  jsonl_lines, jsonl, jsonl_observation, first_string, target_keys, source_of,
}

module _ {S : Type 0} where
  -- A dry run leaves the state, and answers and counts as the import does.
  abbrev pub Foretells : S → Import S → Import S → Type 0
  Foretells st dry real = (dry.2 ≡ st) × (dry.0 ≡ real.0) × (dry.1 ≡ real.1)

module _ (lib : Library) {S : Type 0} (sink : Sink S)
    (takes : (o : Observation) (st : S) → (sink o st).0 ≡ true) (now : ℕ) where
  module _ (kind : Kind) (source : Source) (alive : ℕ → Bool) (readable : Bool) (bytes : ℕ) where
    lines-Foretells :
        (ls : List (ℕ × Option Fields)) (count : ℕ) (st u : S)
        → Foretells st
            (jsonl_lines lib sink true now kind source alive readable bytes ls count st)
            (jsonl_lines lib sink false now kind source alive readable bytes ls count u)
    unfolding jsonl_lines give
    lines-Foretells [] count st u = ground arith
    lines-Foretells ((digest, none) ∷ ls) count st u = ground arith
    lines-Foretells ((digest, some raw) ∷ ls) count st u =
        elim (Option-cases (lib.net.parse_addr (first_string raw target_keys))) [
          | inl n ↦ ground (arith, lines-Foretells ls count st u)
          | inr (a, e) ↦
              let o = jsonl_observation lib now kind source digest a raw in
              let t = takes o u in
              let ih = lines-Foretells ls (count + 1) st (sink o u).1 in
              elim (Bool-cases (alive count)) [
                | inl y ↦ rw (y, e, t, jsonl_lines) ih
                | inr z ↦ rw (z, jsonl_lines) (refl, refl, refl)
              ]
        ]

  give_ok :
      (dry : Bool) (o : Observation) (count : ℕ) (st : S)
      → ((give sink dry o count st).0 ≡ ok tt) × ((give sink dry o count st).1 ≡ count + 1)
  unfolding give
  give_ok true o count st = (refl, refl)
  give_ok false o count st = rw (takes o st) (refl, refl)

  module _ (digest : ℕ) where
    ports_ok :
        (dry : Bool) (a : Addr) (ps : List NmapPort) (count : ℕ) (st : S)
        → ((nmap_ports lib sink dry now digest a ps count st).0 ≡ ok tt)
          × ((nmap_ports lib sink dry now digest a ps count st).1 ≡ count + length ps)
    unfolding nmap_ports
    ports_ok dry a [] count st = (refl, omega arith)
    ports_ok dry a (p ∷ ps) count st =
        let r = give sink dry (nmap_observation lib now digest a p) count st in
        let (g, c) = give_ok dry (nmap_observation lib now digest a p) count st in
        let (x, z) = ports_ok dry a ps r.1 r.2 in rw (g, nmap_ports) (x, omega (arith, z, c))

    ports_state :
        (a : Addr) (ps : List NmapPort) (count : ℕ) (st : S)
        → (nmap_ports lib sink true now digest a ps count st).2 ≡ st
    unfolding nmap_ports give
    ports_state a [] count st = refl
    ports_state a (p ∷ ps) count st = ports_state a ps (count + 1) st

    hosts-Foretells :
        (hs : List NmapHost) (count : ℕ) (st u : S)
        → Foretells st
            (nmap_hosts lib sink true now digest hs count st)
            (nmap_hosts lib sink false now digest hs count u)
    unfolding nmap_hosts
    hosts-Foretells [] count st u = (refl, refl, refl)
    hosts-Foretells (h ∷ hs) count st u =
        let a = host_address lib h.addresses in
        let r = nmap_ports lib sink true now digest a h.ports count st in
        let q = nmap_ports lib sink false now digest a h.ports count u in
        let (x, c) = ports_ok true a h.ports count st in
        let (z, d) = ports_ok false a h.ports count u in
        let s = ports_state a h.ports count st in
        elim (Bool-cases (is_valid a)) [
          | inr n ↦ rw (n, nmap_hosts) (hosts-Foretells hs count st u)
          | inl y ↦
              let (i, j, k) = hosts-Foretells hs (count + length h.ports) st q.2 in
              rw (y, x, z, c, d, s, nmap_hosts) (i, j, k)
        ]

  -- With a sink that takes every observation, a dry run of an Nmap import gives no observation to
  -- the sink, and answers and counts exactly as the import itself.
  pub nmap-Foretells :
      (bytes digest : ℕ) (decoded : Option NmapRun) (st : S)
      → Foretells st
          (nmap lib sink true now bytes digest decoded st)
          (nmap lib sink false now bytes digest decoded st)
  unfolding nmap
  nmap-Foretells bytes digest none st = ground arith
  nmap-Foretells bytes digest (some run) st =
      ground (arith, hosts-Foretells digest run.hosts 0 st st)

  -- With a sink that takes every observation, a dry run of an import of JSON lines gives no
  -- observation to the sink, and answers and counts exactly as the import itself.
  pub jsonl-Foretells :
      (kind : Kind) (alive : ℕ → Bool) (readable : Bool) (bytes : ℕ) (ls : List (ℕ × Option Fields))
      (st : S)
      → Foretells st
          (jsonl lib sink true now kind alive readable bytes ls st)
          (jsonl lib sink false now kind alive readable bytes ls st)
  unfolding jsonl
  jsonl-Foretells kind alive readable bytes ls st = elim (Option-cases (source_of kind)) [
    | inl n ↦ rw (n, jsonl) (refl, refl, refl)
    | inr (source, e) ↦ rw (e, jsonl) (lines-Foretells kind source alive readable bytes ls 0 st st)
  ]
