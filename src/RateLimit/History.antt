-- ===== src/RateLimit/History.antt =====
-- What the sliding windows of src/middleware/rate_limit.py count over a run of requests.
use douyin_data_dashboard.Prelude.{
  ℕ, ◌+◌, ◌*◌, ◌≤◌, String, ◌≡◌, refl, false, Option, none, some, List, [], ◌∷◌, ◌++◌, arith,
  str_eq, ltb, if◌then◌else◌, length, keep, All, is_empty,
}
use douyin_data_dashboard.RateLimit.Window.{ok, CacheProtocol, Json, is_recent}

-- What the middleware relies on in `json`: a written list reads back, and its text is not empty.
pub record JsonLaws (json : Json) : Type 0 where
  pub loads-dumps : (xs : List ℕ) → json.loads (json.dumps xs) ≡ some xs
  pub dumps_filled : (xs : List ℕ) → is_empty (json.dumps xs) ≡ false

-- What it relies on in a cache that drops nothing early: `reads` is what a read at a later time
-- finds; a read changes no later read, and a write is found until its time to live is over.
pub record CacheLaws (ticks : ℕ) (c : CacheProtocol) : Type 1 where
  pub reads : c.State → ℕ → String → Option String
  pub get-ok : (now : ℕ) (key : String) (s : c.State) → (c.get now key s).0 ≡ ok (reads s now key)
  pub get-reads :
      (now later : ℕ) (key j : String) (s : c.State)
      → now ≤ later
      → reads (c.get now key s).1 later j ≡ reads s later j
  pub set-ok :
      (now ttl : ℕ) (key text : String) (s : c.State) → (c.set now key text ttl s).0 ≡ ok tt
  pub set-reads :
      (now later ttl : ℕ) (key j text : String) (s : c.State)
      → now ≤ later
      → reads (c.set now key text ttl s).1 later j ≡ (
          if str_eq key j
          then (if ltb (now + ttl * ticks) later then none else some text)
          else reads s later j)

-- A request at a time, on a key.
pub record Hit : Type 0 where
  pub at : ℕ
  pub key : String

-- The times of the requests on a key, in order.
abbrev pub times_on : String → List Hit → List ℕ
times_on key [] = []
times_on key (h ∷ hs) = if str_eq h.key key then h.at ∷ times_on key hs else times_on key hs

-- The requests on the key that a window ending now holds.
abbrev pub recent_count : ℕ → ℕ → String → List Hit → ℕ
recent_count window now key hs = length (keep (is_recent window now) (times_on key hs))

-- The clock never goes back between requests, and all are at `last` or before.
abbrev pub IsOrdered : ℕ → List Hit → ℕ → Type 0
IsOrdered start [] last = start ≤ last
IsOrdered start (h ∷ hs) last = (start ≤ h.at) × IsOrdered h.at hs last

-- Requests that an earlier window has dropped are in no later window.
pub keep-keep :
    (window now later : ℕ) (xs : List ℕ)
    → now ≤ later
    → keep (is_recent window later) (keep (is_recent window now) xs)
      ≡ keep (is_recent window later) xs
keep-keep window now later [] le = refl
keep-keep window now later (x ∷ xs) le = ground (arith, keep-keep window now later xs le)

-- After the window of the last request nothing is recent.
pub keep_none :
    (window last later : ℕ) (xs : List ℕ)
    → All (λ x. x ≤ last) xs
    → last + window ≤ later
    → keep (is_recent window later) xs ≡ []
keep_none window last later [] h le = refl
keep_none window last later (x ∷ xs) h le = ground (arith, keep_none window last later xs h.1 le)

pub times_on-append :
    (key : String) (hs : List Hit) (h : Hit)
    → times_on key (hs ++ h ∷ []) ≡ times_on key hs ++ (if str_eq h.key key then h.at ∷ [] else [])
times_on-append key [] h = ground arith
times_on-append key (x ∷ hs) h = ground (arith, times_on-append key hs h)
