-- ===== src/Ingest/World.antt =====
-- What `ImportService` of src/domains/data_import/service.py works on: its session and the cache
-- behind `CacheProtocol`; and the monad of its steps, which may raise.
use douyin_data_dashboard.Prelude.{ℕ, String, Bool, Option, none, some, List}
use douyin_data_dashboard.Ingest.Records.{
  DataImportRecord, Session, commit, ImportError, record_not_found, other, Outcome, returned,
  raised, get_by_id,
}
use douyin_data_dashboard.Import.Validator.{Row}

-- A cache call returns, raises a `JSONDecodeError` or `TypeError`, or raises another exception, with its
-- text.
pub data Reply {ℓ} (A : Type ℓ) : Type ℓ where
  reply : A → Reply A
  decode_error : String → Reply A
  failure : String → Reply A

pub record ImportCache : Type 1 where
  pub State : Type 0
  pub get : String → State → Reply (Option String) × State
  pub set : String → String → ℕ → State → Reply (Unit {0}) × State
  pub exists : String → State → Reply Bool × State

-- The JSON texts that the service stores, and `str` of an import's id. What `loads` gives is the
-- cached "file_path" and "rows", as far as they are there; `none` is a `JSONDecodeError`, which any text
-- has that `reads` refuses.
pub record ImportJson (F : Type 0) : Type 0 where
  pub dumps_progress : String → ℕ → ℕ → String
  pub dumps_rows : String → List (Row F) → String
  pub loads_rows : String → Option (Option String × Option (List (Row F)))
  pub reads : String → Bool
  pub str_id : ℕ → String

-- The cache is missing where the service has no `redis`.
pub record World (F : Type 0) (c : ImportCache) : Type 0 where
  pub session : Session F
  pub cache : Option c.State

abbrev pub Action : Type 0 → ImportCache → Type 0 → Type 0
Action F c A = World F c → Outcome A × World F c

module _ {F : Type 0} {c : ImportCache} where
  infixl 5 ◌>>=◌ ◌>>◌
  abbrev pub ◌>>=◌ : {A B : Type 0} → Action F c A → (A → Action F c B) → Action F c B
  ◌>>=◌ m f w = let (o, w') = m w in elim o [ returned a ↦ f a w' | raised e ↦ (raised e, w') ]

  abbrev pub ◌>>◌ : {A B : Type 0} → Action F c A → Action F c B → Action F c B
  m >> k = m >>= λ _. k

  abbrev pub done : {A : Type 0} → A → Action F c A
  done a w = (returned a, w)

  abbrev pub fail : {A : Type 0} → ImportError → Action F c A
  fail e w = (raised e, w)

  -- A write of the repository.
  abbrev pub write : (Session F → Outcome (Session F)) → Action F c (Unit {0})
  write f w = elim (f w.session) [
    | returned s ↦ (returned tt, record w { session = s })
    | raised e ↦ (raised e, w)
  ]

  abbrev pub commit_now : Action F c (Unit {0})
  commit_now w = (returned tt, record w { session = commit w.session })

  -- `record = await self.repo.get_by_id(import_id)`, raised where there is none
  abbrev pub require_record : ℕ → Action F c DataImportRecord
  require_record id w = elim (get_by_id id w.session) [
    | none ↦ (raised (record_not_found id), w)
    | some x ↦ (returned x, w)
  ]

  -- A cache call whose decoding errors have a value of their own, and whose others are raised.
  abbrev pub settle : {A : Type 0} → A → Option c.State → Reply A → Action F c A
  settle d s (reply a) w = (returned a, record w { cache = s })
  settle d s (decode_error text) w = (returned d, record w { cache = s })
  settle d s (failure text) w = (raised (other text), record w { cache = s })
