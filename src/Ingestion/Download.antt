-- ===== src/Ingestion/Download.antt =====
-- `DocumentDownloader` of src/ingestion/downloader.py, with `sanitize_filename` of
-- src/storage/paths.py. Bytes are numbers below 256. The HTTP client, the file system, the hash, the
-- guess of a type and two functions on text are parameters. Sleeping between attempts is left out, and
-- the messages of errors leave out the limit, the path and the last error.
pub mod Retries
pub mod Accepted
use Prim.Native.Char.{Char, code}
use Prim.Native.String
use text.Mathlib.Text.{starts_with}
use evidence_first_investmen.Base.{
  ℕ, zero, suc, ◌+◌, String, Bool, true, false, not, ◌&&◌, ◌||◌, Option, none, some, List, [], ◌∷◌,
  ◌++◌, map, any, length, take, ltb, leb, ◌==◌, if◌then◌else◌, is_empty, strip, any_char, str_eq,
  text_or, ◌<>◌, Outcome, ok, raise, out_of_fuel, Error, Exception, error, download_error,
  value_error, ◌>>=◌,
}
use evidence_first_investmen.Ingestion.{SourceAttachment, DownloadedArtifact}

-- What a GET comes to: the client raises before the body, or the body is a list of chunks, after
-- which it may raise.
pub data Response : Type 0 where
  refused : Error → Response
  streamed : List (List ℕ) → Option Error → Response

-- `respond` answers each attempt; `read` is the file of a fixture, if it exists; `guess` is the type
-- by magic bytes; `replace_unsafe` is `re.sub` in `sanitize_filename`.
pub record Network : Type 0 where
  pub respond : ℕ → String → Response
  pub read : String → Option (List ℕ)
  pub guess : List ℕ → Option String
  pub hash : List ℕ → String
  pub lower : String → String
  pub replace_unsafe : String → String

pub record DownloaderConfig : Type 0 where
  pub max_retries : ℕ
  pub max_file_size_bytes : ℕ

abbrev pub failure : String → Error
failure message = error download_error "DownloadError" message

abbrev pub too_large : Error
too_large = failure "File exceeds max size"

-- The loop over the chunks, from the bytes before.
abbrev pub join_chunks : ℕ → List ℕ → Option Error → List (List ℕ) → Outcome (List ℕ)
join_chunks limit before none [] = ok before
join_chunks limit before (some e) [] = raise e
join_chunks limit before end (chunk ∷ chunks) =
    let rest = join_chunks limit (before ++ chunk) end chunks in
    if ltb limit (length before + length chunk) then raise too_large else rest

-- `url.removeprefix("fixture://")`, where the prefix is there.
abbrev pub drop_chars : ℕ → String → String
drop_chars zero s = s
drop_chars (suc n) String.[] = String.[]
drop_chars (suc n) (String.◌∷◌ c s) = drop_chars n s

abbrev pub within : ℕ → List ℕ → Outcome (List ℕ)
within limit bytes = if ltb limit (length bytes) then raise too_large else ok bytes

abbrev pub starts_bytes : List ℕ → List ℕ → Bool
starts_bytes [] bytes = true
starts_bytes (m ∷ ms) [] = false
starts_bytes (m ∷ ms) (b ∷ bytes) = m == b && starts_bytes ms bytes

-- `marker in head`
abbrev pub contains : List ℕ → List ℕ → Bool
contains marker [] = starts_bytes marker []
contains marker (b ∷ bytes) = starts_bytes marker (b ∷ bytes) || contains marker bytes

abbrev pub lower_byte : ℕ → ℕ
lower_byte b = if leb 65 b && leb b 90 then b + 32 else b

-- `<!doctype html`, `<html` and `<HTML`
abbrev pub html_markers : List (List ℕ)
html_markers =
    (60 ∷ 33 ∷ 100 ∷ 111 ∷ 99 ∷ 116 ∷ 121 ∷ 112 ∷ 101 ∷ 32 ∷ 104 ∷ 116 ∷ 109 ∷ 108 ∷ [])
    ∷ (60 ∷ 104 ∷ 116 ∷ 109 ∷ 108 ∷ [])
    ∷ (60 ∷ 72 ∷ 84 ∷ 77 ∷ 76 ∷ [])
    ∷ []

-- `%PDF`
abbrev pub pdf_magic : List ℕ
pdf_magic = 37 ∷ 80 ∷ 68 ∷ 70 ∷ []

abbrev pub ends_in : String → String → Bool
ends_in suffix String.[] = is_empty suffix
ends_in suffix (String.◌∷◌ c s) = str_eq (String.◌∷◌ c s) suffix || ends_in suffix s

abbrev pub is_slash : Char → Bool
is_slash c = code c == 47 || code c == 92

-- The part after the last slash of either kind.
abbrev pub last_segment : String → String
last_segment String.[] = String.[]
last_segment (String.◌∷◌ c s) =
    let rest = last_segment s in
    if any_char is_slash s then rest else if is_slash c then s else String.◌∷◌ c s

-- `except (httpx.HTTPError, DownloadError)`
abbrev pub is_retried : Exception → Bool
is_retried Exception.http_error = true
is_retried Exception.download_error = true
is_retried _ = false

abbrev pub give_up : String → Error
give_up url = failure ("Download failed for " <> url)

abbrev pub is_html : List ℕ → Bool
is_html bytes = any (λ marker. contains marker (map lower_byte (take 256 bytes))) html_markers

module _ (network : Network) (config : DownloaderConfig) where
  unfoldable pub stream_download : ℕ → String → Outcome (List ℕ)
  stream_download attempt url =
      if starts_with url "fixture://"
      then elim (network.read (drop_chars 10 url)) [
        | none ↦ raise (failure "Fixture file not found")
        | some bytes ↦ within config.max_file_size_bytes bytes
      ]
      else elim (network.respond attempt url) [
        | refused e ↦ raise e
        | streamed chunks end ↦ join_chunks config.max_file_size_bytes [] end chunks
      ]

  -- The attempts from `attempt` on, of which `left` are allowed.
  unfoldable pub attempts : String → ℕ → ℕ → Outcome (List ℕ)
  unfolding stream_download
  attempts url attempt zero = raise (give_up url)
  attempts url attempt (suc left) =
      let later = attempts url (suc attempt) left in
      elim (stream_download attempt url) [
        | ok bytes ↦ ok bytes
        | raise e ↦ if is_retried e.class then later else raise e
        | out_of_fuel ↦ out_of_fuel
      ]

  unfoldable pub download_with_retry : String → Outcome (List ℕ)
  unfolding attempts
  download_with_retry url = attempts url 0 config.max_retries

  unfoldable pub detect_mime : List ℕ → Option String → String
  detect_mime bytes reported = elim (network.guess bytes) [
    | some mime ↦ mime
    | none ↦
        text_or reported
          (if starts_bytes pdf_magic bytes then "application/pdf" else "application/octet-stream")
  ]

  abbrev pub looks_like_pdf : String → String → Bool
  looks_like_pdf filename mime =
      ends_in ".pdf" (network.lower filename) || str_eq mime "application/pdf"

  unfoldable pub reject_html : List ℕ → String → String → Outcome Bool
  reject_html bytes mime filename =
      if looks_like_pdf filename mime && (is_html bytes || starts_with mime "text/html")
      then raise (failure "Rejected HTML content masquerading as PDF")
      else ok true

  unfoldable pub sanitize_filename : String → Outcome String
  sanitize_filename filename =
      let cleaned = network.replace_unsafe (last_segment (strip filename)) in
      if is_empty cleaned
      then raise (error value_error "ValueError" "filename must not be empty after sanitization")
      else ok cleaned

  abbrev pub artifact_of : String → List ℕ → String → String → DownloadedArtifact
  artifact_of object_path bytes mime filename = record {
    filename = filename;
    actual_mime_type = mime;
    size_bytes = length bytes;
    sha256 = network.hash bytes;
    object_path = object_path;
    content = some bytes;
  }

  unfoldable pub download : SourceAttachment → String → Outcome DownloadedArtifact
  unfolding download_with_retry detect_mime reject_html sanitize_filename
  download attachment object_path = download_with_retry attachment.download_reference >>= λ bytes.
      reject_html bytes (detect_mime bytes attachment.reported_mime_type) attachment.filename
      >>= λ _. sanitize_filename attachment.filename >>= λ filename.
          ok (
            artifact_of object_path bytes (detect_mime bytes attachment.reported_mime_type)
              filename)
