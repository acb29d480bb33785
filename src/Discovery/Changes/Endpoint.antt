-- ===== src/Discovery/Changes/Endpoint.antt =====
-- internal/discovery/scanner.go: what detectEndpointChanges reports, said without its loops.
use corta_sentry.Prelude.{
  ℕ, ◌≡◌, ◌≢◌, refl, subst, true, false, ◌||◌, some, List, [], ◌∷◌, Memᴰ, arith, ◌⊎◌, inl, inr,
  Bool-cases, Option-cases, map, any, ◌==◌, ==_iff, list_eq, list_eq_refl, first, first-true,
  first→mem, not_any, not_elem, elem-false, Text, mem-append_cases,
}
use corta_sentry.Prelude.Bytes.{is_nil}
use corta_sentry.Records.Observations.{Observation, source_eq, tcp_connect, tls}
use corta_sentry.Records.Sources.{source_eq_iff}
use corta_sentry.Records.Changes.{ChangeEvent}
use corta_sentry.Discovery.Probe.{is_open}
use corta_sentry.Discovery.Changes.{
  Encoders, certificate_fingerprint, seen_open, seen_tls, service_event, certificate_event,
  service_change, certificate_change, change_of_source, endpoint_changes,
}

module _ (enc : Encoders) (asset now : ℕ) (batch recent : List Observation) where
  abbrev ids : List ℕ
  ids = map (λ (o : Observation). o.id) batch

  -- A row that shows that the port of a TCP observation was open before.
  pub record WasOpen (o r : Observation) : Type 0 where
    pub listed : Memᴰ r recent
    pub earlier : ¬ Memᴰ r.id ids
    pub source : r.source ≡ tcp_connect
    pub port : r.port ≡ o.port
    pub open_row : is_open r ≡ true

  pub WasOpen-of_seen :
      (o r : Observation) → Memᴰ r recent → seen_open batch o r ≡ true → WasOpen o r
  WasOpen-of_seen o r m h = record {
    listed = m;
    earlier = not_elem ◌==◌ ==_iff r.id ids (ground arith);
    source = (source_eq_iff r.source tcp_connect).0 (ground arith);
    port = ground arith;
    open_row = ground arith;
  }

  seen-of_WasOpen : (o r : Observation) → WasOpen o r → seen_open batch o r ≡ true
  seen-of_WasOpen o r w = ground (
    arith,
    elem-false ◌==◌ ==_iff r.id ids w.earlier,
    (source_eq_iff r.source tcp_connect).1 w.source,
    w.port,
    w.open_row,
  )

  -- A TCP observation of the batch that shows a port newly open.
  pub record IsNewService (o : Observation) : Type 0 where
    pub member : Memᴰ o batch
    pub source : o.source ≡ tcp_connect
    pub is_open_now : is_open o ≡ true
    pub not_before : (r : Observation) → ¬ WasOpen o r

  -- A TLS observation of the batch whose certificate differs from that of an earlier one.
  pub record IsRenewed (o previous : Observation) : Type 0 where
    pub member : Memᴰ o batch
    pub source : o.source ≡ tls
    pub listed : Memᴰ previous recent
    pub earlier : ¬ Memᴰ previous.id ids
    pub same_source : previous.source ≡ tls
    pub same_port : previous.port ≡ o.port
    pub known : certificate_fingerprint o ≢ []
    pub known_before : certificate_fingerprint previous ≢ []
    pub differs : certificate_fingerprint previous ≢ certificate_fingerprint o

  abbrev pub Explained : ChangeEvent → Type 0
  Explained ev =
      ((o : Observation) × IsNewService o × (ev ≡ service_event enc asset now batch recent o))
      ⊎ ((o : Observation) × (previous : Observation) × IsRenewed o previous
          × (ev ≡ certificate_event enc asset now batch recent previous o))

  only_mem : (x ev : ChangeEvent) → Memᴰ ev (x ∷ []) → ev ≡ x
  only_mem x ev (Memᴰ.head e) = e
  only_mem x ev (Memᴰ.tail m) = elim m [ ]

  service-Explained :
      (o : Observation) (ev : ChangeEvent)
      → Memᴰ o batch
      → o.source ≡ tcp_connect
      → Memᴰ ev (service_change enc asset now batch recent o)
      → Explained ev
  unfolding service_change
  service-Explained o ev m src h = elim (Bool-cases (is_open o)) [
    | inr n ↦ elim (rw n at h) [ ]
    | inl y ↦ elim (Bool-cases (any (seen_open batch o) recent)) [
      | inl t ↦ elim (rw (y, t) at h) [ ]
      | inr f ↦ inl (
        o,
        record {
          member = m;
          source = src;
          is_open_now = y;
          not_before = λ r w.
              (let a = not_any (seen_open batch o) recent f r w.listed in
                let b = seen-of_WasOpen o r w in cc);
        },
        only_mem (service_event enc asset now batch recent o) ev (rw (y, f) at h),
      )
    ]
  ]

  text_ne : (s t : Text) → list_eq s t ≡ false → s ≢ t
  text_ne s t h e =
      let k : list_eq s t ≡ true = subst (λ (x : Text). list_eq s x ≡ true) e (list_eq_refl s) in cc

  not_nil : (s : Text) → is_nil s ≡ false → s ≢ []
  not_nil [] h = cc
  not_nil (c ∷ s) h = λ e. cc

  renewed :
      (o previous : Observation)
      → Memᴰ o batch
      → o.source ≡ tls
      → is_nil (certificate_fingerprint o) ≡ false
      → first (seen_tls batch o) recent ≡ some previous
      → is_nil (certificate_fingerprint previous) ≡ false
      → list_eq (certificate_fingerprint previous) (certificate_fingerprint o) ≡ false
      → IsRenewed o previous
  renewed o previous m src k f kb df =
      let t = first-true (seen_tls batch o) recent f in
      record {
        member = m;
        source = src;
        listed = first→mem (seen_tls batch o) recent f;
        earlier = not_elem ◌==◌ ==_iff previous.id ids (ground arith);
        same_source = (source_eq_iff previous.source tls).0 (ground arith);
        same_port = ground arith;
        known = not_nil _ k;
        known_before = not_nil _ kb;
        differs = text_ne _ _ df;
      }

  certificate-Explained :
      (o : Observation) (ev : ChangeEvent)
      → Memᴰ o batch
      → o.source ≡ tls
      → Memᴰ ev (certificate_change enc asset now batch recent o)
      → Explained ev
  unfolding certificate_change
  certificate-Explained o ev m src h = elim (Bool-cases (is_nil (certificate_fingerprint o))) [
    | inl y ↦ elim (rw (y, certificate_change) at h) [ ]
    | inr n ↦ elim (Option-cases (first (seen_tls batch o) recent)) [
      | inl z ↦ elim (rw (n, z, certificate_change) at h) [ ]
      | inr (previous, f) ↦
          elim (Bool-cases (
            is_nil (certificate_fingerprint previous)
            || list_eq (certificate_fingerprint previous) (certificate_fingerprint o))) [
              | inl y ↦ elim (rw (n, f, y, certificate_change) at h) [ ]
              | inr d ↦ inr (
                o,
                previous,
                renewed o previous m src n f (ground arith) (ground arith),
                only_mem (certificate_event enc asset now batch recent previous o) ev
                    (rw (n, f, d, certificate_change) at h),
              )
            ]
    ]
  ]

  source-Explained :
      (o : Observation) (ev : ChangeEvent)
      → Memᴰ o batch
      → Memᴰ ev (change_of_source enc asset now batch recent o.source o)
      → Explained ev
  source-Explained o ev m h = elim (Bool-cases (source_eq o.source tcp_connect)) [
    | inl y ↦ service-Explained o ev m ((source_eq_iff o.source tcp_connect).0 y) (rw y at h)
    | inr n ↦ elim (Bool-cases (source_eq o.source tls)) [
      | inl y ↦ certificate-Explained o ev m ((source_eq_iff o.source tls).0 y) (rw (n, y) at h)
      | inr k ↦ elim (rw (n, k) at h) [ ]
    ]
  ]

  part-Explained :
      (os : List Observation) (ev : ChangeEvent)
      → ((o : Observation) → Memᴰ o os → Memᴰ o batch)
      → Memᴰ ev (endpoint_changes enc asset now batch recent os)
      → Explained ev
  unfolding endpoint_changes
  part-Explained [] ev sub m = elim m [ ]
  part-Explained (o ∷ os) ev sub m =
      elim (mem-append_cases (change_of_source enc asset now batch recent o.source o)
        (endpoint_changes enc asset now batch recent os) ev m) [
          | inl k ↦ source-Explained o ev (sub o (Memᴰ.head refl)) k
          | inr k ↦ part-Explained os ev (λ x h. sub x (Memᴰ.tail h)) k
        ]

  -- Each change that a batch reports is either a port of the batch that is open and of which no
  -- earlier row among the recent ones was open, or a certificate of the batch that differs from the
  -- known certificate of an earlier TLS row of the same port.
  pub endpoint_changes-Explained :
      (ev : ChangeEvent)
      → Memᴰ ev (endpoint_changes enc asset now batch recent batch)
      → Explained ev
  endpoint_changes-Explained ev m = part-Explained batch ev (λ o h. h) m
