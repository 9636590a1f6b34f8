-- ===== src/Ingestion/Download/Accepted.antt =====
-- What the downloader of src/ingestion/downloader.py lets through.
use mathlib.Core.Path.{subst}
use text.Mathlib.Text.{starts_with}
use evidence_first_investmen.Base.{
  ℕ, ◌≤◌, String, Bool, true, false, ◌||◌, ◌≡◌, ◌≢◌, refl, sym, ap, ◌∙◌, inl, inr, some, List, [],
  ◌∷◌, ◌++◌, map, take, Memᴰ, length, arith, ==_iff, any_of_mem, Bool-cases, ok, >>=-eq-ok,
  ok-injective,
}
use evidence_first_investmen.Ingestion.{SourceAttachment, DownloadedArtifact}
use evidence_first_investmen.Ingestion.Download.{
  Network, DownloaderConfig, download_with_retry, detect_mime, looks_like_pdf, is_html, reject_html,
  sanitize_filename, artifact_of, download, html_markers, lower_byte, starts_bytes, contains,
}
use evidence_first_investmen.Ingestion.Download.Retries.{
  stream_download-bounded, download_with_retry-cases,
}

-- The artifact has the bytes that it claims: within the limit, with their length and their digest.
-- Where it looks like a PDF, by its name or its type, it is not typed as HTML, and no marker of HTML
-- stands anywhere in its first 256 bytes, in lower case. Later bytes are not looked at.
pub record Accepted (network : Network) (config : DownloaderConfig) (attachment : SourceAttachment)
    (a : DownloadedArtifact) : Type 0 where
  pub bytes : List ℕ
  pub content : a.content ≡ some bytes
  pub size : a.size_bytes ≡ length bytes
  pub digest : a.sha256 ≡ network.hash bytes
  pub bounded : a.size_bytes ≤ config.max_file_size_bytes
  pub no_html :
      looks_like_pdf network config attachment.filename a.actual_mime_type ≡ true
      → (starts_with a.actual_mime_type "text/html" ≡ false)
        × ((marker before after : List ℕ)
            → Memᴰ marker html_markers
            → map lower_byte (take 256 bytes) ≢ before ++ marker ++ after)

starts_bytes-append : (marker after : List ℕ) → starts_bytes marker (marker ++ after) ≡ true
starts_bytes-append [] after = refl
starts_bytes-append (m ∷ marker) after = rw ((==_iff m m).1 refl, starts_bytes-append marker after)

contains-between :
    (marker before after : List ℕ) → contains marker (before ++ marker ++ after) ≡ true
contains-between [] [] [] = refl
contains-between [] [] (b ∷ after) = refl
contains-between (m ∷ marker) [] after = rw (starts_bytes-append (m ∷ marker) after)
contains-between marker (b ∷ before) after = ground (arith, contains-between marker before after)

not_html :
    (bytes marker before after : List ℕ)
    → is_html bytes ≡ false
    → Memᴰ marker html_markers
    → map lower_byte (take 256 bytes) ≢ before ++ marker ++ after
not_html bytes marker before after clean m e =
    let found : is_html bytes ≡ true =
      any_of_mem (λ t. contains t (map lower_byte (take 256 bytes))) html_markers m
        (ap (contains marker) e ∙ contains-between marker before after) in
    cc

module _ (network : Network) (config : DownloaderConfig) where
  downloaded-bounded :
      (url : String) (bytes : List ℕ)
      → download_with_retry network config url ≡ ok bytes
      → length bytes ≤ config.max_file_size_bytes
  downloaded-bounded url bytes h = elim (download_with_retry-cases network config url) [
    | inl s ↦ stream_download-bounded network config s.attempt url bytes (sym s.answer ∙ h)
    | inr (gave_up, all) ↦ cc (gave_up, h)
  ]

  reject_html-passes :
      (bytes : List ℕ) (mime filename : String) (b : Bool)
      → reject_html network config bytes mime filename ≡ ok b
      → looks_like_pdf network config filename mime ≡ true
      → (is_html bytes ≡ false) × (starts_with mime "text/html" ≡ false)
  unfolding reject_html
  reject_html-passes bytes mime filename b h pdf =
      elim (Bool-cases (is_html bytes || starts_with mime "text/html")) [
        | inl t ↦ cc (rw (pdf, t) at h)
        | inr f ↦ or_false f
      ]
    where
      or_false : {x y : Bool} → (x || y) ≡ false → (x ≡ false) × (y ≡ false)
      or_false h' = ground arith

  -- An artifact that is downloaded has its bytes, within the allowed size, with their length and
  -- their digest. Where its name ends in ".pdf" or its type is that of a PDF, its type is no HTML, and
  -- no marker of HTML stands at any place of its first 256 bytes.
  pub download-Accepted :
      (attachment : SourceAttachment) (object_path : String) (a : DownloadedArtifact)
      → download network config attachment object_path ≡ ok a
      → Accepted network config attachment a
  unfolding download
  download-Accepted attachment object_path a h =
      let (bytes, e1, h1) =
        >>=-eq-ok (download_with_retry network config attachment.download_reference) _ h in
      let mime = detect_mime network config bytes attachment.reported_mime_type in
      let (b, e2, h2) =
        >>=-eq-ok (reject_html network config bytes mime attachment.filename) _ h1 in
      let (filename, e3, h3) =
        >>=-eq-ok (sanitize_filename network config attachment.filename) _ h2 in
      let same : artifact_of network config object_path bytes mime filename ≡ a = ok-injective h3 in
      subst (Accepted network config attachment) same record {
        bytes = bytes;
        content = refl;
        size = refl;
        digest = refl;
        bounded = downloaded-bounded attachment.download_reference bytes e1;
        no_html = λ pdf.
            let (clean, typed) = reject_html-passes bytes mime attachment.filename b e2 pdf in
            (typed, λ marker before after m. not_html bytes marker before after clean m);
      }
