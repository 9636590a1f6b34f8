-- ===== src/Ingestion/Download/Retries.antt =====
-- The attempts of src/ingestion/downloader.py.
use evidence_first_investmen.Base.{
  ℕ, zero, suc, ◌+◌, ◌≤◌, ◌<◌, String, true, false, ◌≡◌, ◌≢◌, ◌⊎◌, refl, sym, ap, ◌∙◌, inl, inr,
  Option, none, some, List, [], ◌∷◌, ◌++◌, length, length-append, ltb, Bool-cases, Outcome-cases,
  arith, Outcome, ok, raise, out_of_fuel, Error, ok-injective, if-ends, ◌==◌, ==_iff,
}
use text.Mathlib.Text.{starts_with}
use evidence_first_investmen.Ingestion.Download.{
  failure, Response, Network, DownloaderConfig, join_chunks, within, drop_chars, stream_download,
  is_retried, give_up, attempts, download_with_retry,
}

join_chunks-bounded :
    (limit : ℕ) (before : List ℕ) (end : Option Error) (chunks : List (List ℕ)) (bytes : List ℕ)
    → length before ≤ limit
    → join_chunks limit before end chunks ≡ ok bytes
    → length bytes ≤ limit
join_chunks-bounded limit before none [] bytes b h = omega (arith, b, ap length (ok-injective h))
join_chunks-bounded limit before (some e) [] bytes b h = cc
join_chunks-bounded limit before end (chunk ∷ chunks) bytes b h =
    elim (Bool-cases (ltb limit (length before + length chunk))) [
      | inl t ↦ cc (rw t at h)
      | inr f ↦
          join_chunks-bounded limit (before ++ chunk) end chunks bytes
            (ground (arith, f, length-append before chunk)) (rw f at h)
    ]

within-bounded : (limit : ℕ) (bytes out : List ℕ) → within limit bytes ≡ ok out → length out ≤ limit
within-bounded limit bytes out h = elim (Bool-cases (ltb limit (length bytes))) [
  | inl t ↦ cc (rw t at h)
  | inr f ↦ ground (arith, f, ap length (ok-injective (rw f at h)))
]

join_chunks-ends :
    (limit : ℕ) (before : List ℕ) (end : Option Error) (chunks : List (List ℕ))
    → join_chunks limit before end chunks ≢ out_of_fuel
join_chunks-ends limit before none [] = λ h. cc
join_chunks-ends limit before (some e) [] = λ h. cc
join_chunks-ends limit before end (chunk ∷ chunks) =
    if-ends (ltb limit (length before + length chunk)) _ _ (λ h. cc)
      (join_chunks-ends limit (before ++ chunk) end chunks)

raise_inj : {x e : Error} → ◌≡◌ {A = Outcome (List ℕ)} (raise x) (raise e) → x ≡ e
raise_inj h = cc

module _ (network : Network) (config : DownloaderConfig) where
  stream_download-ends :
      (attempt : ℕ) (url : String) → stream_download network config attempt url ≢ out_of_fuel
  unfolding stream_download
  stream_download-ends attempt url =
      if-ends (starts_with url "fixture://") _ _ (file (network.read (drop_chars 10 url)))
        (body (network.respond attempt url))
    where
      file :
          (o : Option (List ℕ))
          → ◌≢◌ {A = Outcome (List ℕ)}
              (elim o [
                | none ↦ raise (failure "Fixture file not found")
                | some bytes ↦ within config.max_file_size_bytes bytes
              ])
              out_of_fuel
      file none = λ h. cc
      file (some bytes) =
          if-ends (ltb config.max_file_size_bytes (length bytes)) _ _ (λ h. cc) (λ h. cc)

      body :
          (r : Response)
          → ◌≢◌ {A = Outcome (List ℕ)}
              (elim r [
                | Response.refused e ↦ raise e
                | Response.streamed chunks end ↦
                    join_chunks config.max_file_size_bytes [] end chunks
              ])
              out_of_fuel
      body (Response.refused e) = λ h. cc
      body (Response.streamed chunks end) =
          join_chunks-ends config.max_file_size_bytes [] end chunks

  pub stream_download-bounded :
      (attempt : ℕ) (url : String) (bytes : List ℕ)
      → stream_download network config attempt url ≡ ok bytes
      → length bytes ≤ config.max_file_size_bytes
  unfolding stream_download
  stream_download-bounded attempt url bytes h = elim (Bool-cases (starts_with url "fixture://")) [
    | inl t ↦ file (network.read (drop_chars 10 url)) (rw t at h)
    | inr f ↦ body (network.respond attempt url) (rw f at h)
  ]
    where
      file :
          (o : Option (List ℕ))
          → ◌≡◌ {A = Outcome (List ℕ)}
              (elim o [
                | none ↦ raise (failure "Fixture file not found")
                | some bs ↦ within config.max_file_size_bytes bs
              ])
              (ok bytes)
          → length bytes ≤ config.max_file_size_bytes
      file none e = cc
      file (some bs) e = within-bounded config.max_file_size_bytes bs bytes e

      body :
          (r : Response)
          → ◌≡◌ {A = Outcome (List ℕ)}
              (elim r [
                | Response.refused x ↦ raise x
                | Response.streamed chunks end ↦
                    join_chunks config.max_file_size_bytes [] end chunks
              ])
              (ok bytes)
          → length bytes ≤ config.max_file_size_bytes
      body (Response.refused x) e = cc
      body (Response.streamed chunks end) e =
          join_chunks-bounded config.max_file_size_bytes [] end chunks bytes (omega arith) e

  -- An attempt that fails in a way that is tried again.
  abbrev pub IsRetried : String → ℕ → Type 0
  IsRetried url i =
      (e : Error) × (stream_download network config i url ≡ raise e) × (is_retried e.class ≡ true)

  -- The attempt that settles the download, with those before it.
  pub record Settled (url : String) (from left : ℕ) (result : Outcome (List ℕ)) : Type 0 where
    pub attempt : ℕ
    pub low : from ≤ attempt
    pub high : attempt < from + left
    pub answer : result ≡ stream_download network config attempt url
    pub final :
        (e : Error)
        → stream_download network config attempt url ≡ raise e
        → is_retried e.class ≡ false
    pub earlier : (i : ℕ) → from ≤ i → i < attempt → IsRetried url i

  attempts-cases :
      (url : String) (from left : ℕ)
      → Settled url from left (attempts network config url from left)
        ⊎ ((attempts network config url from left ≡ raise (give_up url))
            × ((i : ℕ) → from ≤ i → i < from + left → IsRetried url i))
  unfolding attempts
  attempts-cases url from zero = inr (refl, λ i low high. absurd (omega (arith, low, high)))
  attempts-cases url from (suc left) =
      elim (Outcome-cases (stream_download network config from url)) [
        | inr (inr e) ↦ absurd (stream_download-ends from url e)
        | inl (bytes, e) ↦ inl record {
          attempt = from;
          low = omega arith;
          high = omega arith;
          answer = rw (e, attempts) refl;
          final = λ x h. cc (e, h);
          earlier = λ i low high. absurd (omega (arith, low, high));
        }
        | inr (inl (x, e)) ↦ elim (Bool-cases (is_retried x.class)) [
          | inr f ↦ inl record {
            attempt = from;
            low = omega arith;
            high = omega arith;
            answer = rw (e, attempts) (rw f refl);
            final = λ y h. ap (λ (z : Error). is_retried z.class) (sym (raise_inj (sym e ∙ h))) ∙ f;
            earlier = λ i low high. absurd (omega (arith, low, high));
          }
          | inl t ↦
              let here : (i : ℕ) → ((suc from ≤ i) → IsRetried url i) → from ≤ i → IsRetried url i =
                λ i later low. elim (Bool-cases (i == from)) [
                  | inl y ↦ rw ((==_iff i from).0 y) (x, e, t)
                  | inr n ↦ later (ground (arith, n, low))
                ] in
              elim (attempts-cases url (suc from) left) [
                | inl s ↦ inl record {
                  attempt = s.attempt;
                  low = omega (arith, s.low);
                  high = omega (arith, s.high);
                  answer = rw (e, attempts) (rw t s.answer);
                  final = s.final;
                  earlier = λ i low high. here i (λ l. s.earlier i l high) low;
                }
                | inr (gave_up, all) ↦ inr (
                  rw (e, attempts) (rw t gave_up),
                  λ i low high. here i (λ l. all i l (omega (arith, high))) low,
                )
              ]
        ]
      ]

  -- Within the allowed attempts, the first one whose outcome is no HTTPError and no DownloadError
  -- settles the download: its bytes or its exception are the result. If there is none, the download
  -- gives up.
  pub download_with_retry-cases :
      (url : String)
      → Settled url 0 config.max_retries (download_with_retry network config url)
        ⊎ ((download_with_retry network config url ≡ raise (give_up url))
            × ((i : ℕ) → i < config.max_retries → IsRetried url i))
  unfolding download_with_retry
  download_with_retry-cases url = elim (attempts-cases url 0 config.max_retries) [
    | inl s ↦ inl s
    | inr (gave_up, all) ↦ inr (gave_up, λ i high. all i (omega arith) (omega (arith, high)))
  ]
