-- ===== src/Base/Outcomes.antt =====
-- The outcome of a Python call: a value, an exception by its class, or no end within the fuel.
use Prim.Native.String.{String}
use mathlib.Core.Path.{◌≡◌, refl, ap}
use mathlib.Core.Logic.{◌⊎◌, ◌≢◌, inl, inr}
use mathlib.Core.Bool.{Bool, true, false}
use evidence_first_investmen.Base.Tests.{if◌then◌else◌, Bool-cases}

-- The exception classes that the modelled code raises or catches (src/ingestion/errors.py,
-- src/processing/errors.py, src/storage/errors.py, and those of the libraries that it names);
-- `other_error` is any class that no handler names.
pub data Exception : Type 0 where
  ingestion_error source_error source_unavailable_error download_error : Exception
  storage_error processing_error pdf_parse_error ocr_failure excel_parse_error : Exception
  table_extraction_error process_document_error sqlalchemy_error http_error : Exception
  value_error runtime_error other_error : Exception

-- `except IngestionError`: the class and its subclasses.
abbrev pub is_ingestion_error : Exception → Bool
is_ingestion_error ingestion_error = true
is_ingestion_error source_error = true
is_ingestion_error source_unavailable_error = true
is_ingestion_error download_error = true
is_ingestion_error _ = false

-- `except SourceError`
abbrev pub is_source_error : Exception → Bool
is_source_error source_error = true
is_source_error source_unavailable_error = true
is_source_error _ = false

-- `except ProcessingError`
abbrev pub is_processing_error : Exception → Bool
is_processing_error processing_error = true
is_processing_error pdf_parse_error = true
is_processing_error ocr_failure = true
is_processing_error excel_parse_error = true
is_processing_error table_extraction_error = true
is_processing_error process_document_error = true
is_processing_error _ = false

-- An exception object: the class that handlers see, `type(exc).__name__` and `str(exc)`.
pub record Error : Type 0 where
  pub class : Exception
  pub name : String
  pub message : String

abbrev pub error : Exception → String → String → Error
error class name message = record { class = class; name = name; message = message }

-- What a call of code outside the model comes to: it returns or it raises.
pub data Result {ℓ} (A : Type ℓ) : Type ℓ where
  returned : A → Result A
  raised : Error → Result A

pub data Outcome {ℓ} (A : Type ℓ) : Type ℓ where
  ok : A → Outcome A
  raise : Error → Outcome A
  out_of_fuel : Outcome A

abbrev pub call {ℓ} : {A : Type ℓ} → Result A → Outcome A
call (returned a) = ok a
call (raised e) = raise e

infixl 5 ◌>>=◌ ◌>>◌
abbrev pub ◌>>=◌ {ℓ κ} : {A : Type ℓ} {B : Type κ} → Outcome A → (A → Outcome B) → Outcome B
ok a >>= f = f a
raise e >>= f = raise e
out_of_fuel >>= f = out_of_fuel

abbrev pub ◌>>◌ {ℓ κ} : {A : Type ℓ} {B : Type κ} → Outcome A → Outcome B → Outcome B
m >> k = m >>= λ _. k

-- `try ... except`: the classes that are handled, the body and the handler.
abbrev pub catch {ℓ} :
    {A : Type ℓ} → (Exception → Bool) → Outcome A → (Error → Outcome A) → Outcome A
catch handles (ok a) handler = ok a
catch handles (raise e) handler = if handles e.class then handler e else raise e
catch handles out_of_fuel handler = out_of_fuel

-- A chain that returns: its first part has returned something, and the rest went on from there.
pub >>=-eq-ok {ℓ κ} :
    {A : Type ℓ} {B : Type κ} (first : Outcome A) (rest : A → Outcome B) {result : B}
    → (first >>= rest) ≡ ok result
    → (middle : A) × (first ≡ ok middle) × (rest middle ≡ ok result)
>>=-eq-ok (raise failure) rest returns = cc
>>=-eq-ok out_of_fuel rest returns = cc
>>=-eq-ok (ok middle) rest returns = (middle, refl, returns)

pub ok-injective {ℓ} : {A : Type ℓ} {a b : A} → ok a ≡ ok b → a ≡ b
ok-injective h = cc

pub ok-pair-injective {ℓ κ} :
    {A : Type ℓ} {B : Type κ} {a c : A} {b d : B}
    → ◌≡◌ {A = Outcome (A × B)} (ok (a, b)) (ok (c, d))
    → (a ≡ c) × (b ≡ d)
ok-pair-injective h = (ap (λ p. p.0) (ok-injective h), ap (λ p. p.1) (ok-injective h))

-- A guarded body that returns has returned itself, or its handler has.
pub catch-eq-ok {ℓ} :
    {A : Type ℓ} (handles : Exception → Bool) (m : Outcome A) (handler : Error → Outcome A) {b : A}
    → catch handles m handler ≡ ok b
    → (m ≡ ok b) ⊎ ((e : Error) × (handler e ≡ ok b))
catch-eq-ok handles (ok a) handler h = inl h
catch-eq-ok handles out_of_fuel handler h = cc
catch-eq-ok handles (raise e) handler h = elim (Bool-cases (handles e.class)) [
  | inl t ↦ inr (e, rw t at h)
  | inr f ↦ cc (rw f at h)
]

pub call-eq-ok {ℓ} : {A : Type ℓ} (r : Result A) {a : A} → call r ≡ ok a → r ≡ returned a
call-eq-ok (returned b) h = ap returned (ok-injective h)
call-eq-ok (raised e) h = cc

-- A chain whose parts end, ends.
pub >>=-ends {ℓ κ} :
    {A : Type ℓ} {B : Type κ} (m : Outcome A) (f : A → Outcome B)
    → m ≢ out_of_fuel
    → ((a : A) → f a ≢ out_of_fuel)
    → (m >>= f) ≢ out_of_fuel
>>=-ends (ok a) f h k = k a
>>=-ends (raise e) f h k = λ x. cc
>>=-ends out_of_fuel f h k = absurd (h refl)

pub call-ends {ℓ} : {A : Type ℓ} (r : Result A) → call r ≢ out_of_fuel
call-ends (returned a) = λ x. cc
call-ends (raised e) = λ x. cc

pub if-ends {ℓ} :
    {A : Type ℓ} (b : Bool) (x y : Outcome A)
    → x ≢ out_of_fuel
    → y ≢ out_of_fuel
    → (if b then x else y) ≢ out_of_fuel
if-ends true x y h k = h
if-ends false x y h k = k

-- To split on a computed outcome and keep the equation.
pub Outcome-cases {ℓ} :
    {A : Type ℓ} (m : Outcome A)
    → ((a : A) × (m ≡ ok a)) ⊎ (((e : Error) × (m ≡ raise e)) ⊎ (m ≡ out_of_fuel))
Outcome-cases (ok a) = inl (a, refl)
Outcome-cases (raise e) = inr (inl (e, refl))
Outcome-cases out_of_fuel = inr (inr refl)
