-- ===== src/RateLimit/Sorted.antt =====
-- The Redis window of src/middleware/rate_limit.py over a run of requests: it decides like the
-- window that is kept in a cache.
use mathlib.Core.Path.{subst}
use mathlib.Core.List.{map-append}
use douyin_data_dashboard.Prelude.{
  ℕ, suc, ◌+◌, ◌*◌, ◌≤◌, ◌<◌, String, ◌≡◌, refl, ap, ◌∙◌, Bool, false, not, List, [], ◌∷◌, map,
  ◌||◌, ◌++◌, inl, inr, arith, str_eq, eq_iff, ltb, if◌then◌else◌, Bool-cases, length, keep, All,
  any,
}
use douyin_data_dashboard.Prelude.Int.{ℤ, pos, leb_ℤ, sub_ℕ}
use douyin_data_dashboard.RateLimit.Window.{
  Outcome, ok, Redis, is_recent, decide_limit, ttl_of, sliding_window,
}
use douyin_data_dashboard.RateLimit.History.{Hit, times_on}

-- `entries` is what a sorted set holds at a time, with the scores. The commands do what Redis
-- documents for an upper bound that is included, for a member that is new, and for a time to live.
pub record RedisLaws (ticks : ℕ) (r : Redis) : Type 1 where
  pub entries : r.State → ℕ → String → List (String × ℕ)
  pub reachable : (s : r.State) → r.reachable s ≡ ok tt
  pub zremrangebyscore :
      (now : ℕ) (key : String) (bound : ℤ) (s : r.State)
      → entries (r.zremrangebyscore now key bound s) now key
        ≡ keep (λ e. not (leb_ℤ (pos e.1) bound)) (entries s now key)
  pub zadd :
      (now score : ℕ) (key member : String) (s : r.State)
      → any (entries s now key) (λ e. str_eq e.0 member) ≡ false
      → entries (r.zadd now key member score s) now key ≡ entries s now key ++ (member, score) ∷ []
  pub zcard :
      (now : ℕ) (key : String) (s : r.State) → r.zcard now key s ≡ length (entries s now key)
  pub expire :
      (now later ttl : ℕ) (key : String) (s : r.State)
      → now ≤ later
      → entries (r.expire now key ttl s) later key
        ≡ (if ltb (now + ttl * ticks) later then [] else entries s now key)
  pub zremrangebyscore_other :
      (now later : ℕ) (key j : String) (bound : ℤ) (s : r.State)
      → str_eq key j ≡ false
      → entries (r.zremrangebyscore now key bound s) later j ≡ entries s later j
  pub zadd_other :
      (now later score : ℕ) (key j member : String) (s : r.State)
      → str_eq key j ≡ false
      → entries (r.zadd now key member score s) later j ≡ entries s later j
  pub expire_other :
      (now later ttl : ℕ) (key j : String) (s : r.State)
      → str_eq key j ≡ false
      → entries (r.expire now key ttl s) later j ≡ entries s later j

abbrev pub scores : List (String × ℕ) → List ℕ
scores es = map (λ (e : String × ℕ). e.1) es

-- The bound that is sent removes what the cache window does not keep.
recent_bound :
    (window now : ℕ) (es : List (String × ℕ))
    → scores (keep (λ e. not (leb_ℤ (pos e.1) (sub_ℕ now window))) es)
      ≡ keep (is_recent window now) (scores es)
recent_bound window now [] = refl
recent_bound window now (e ∷ es) = ground (arith, recent_bound window now es)

pub any-keep :
    (p q : String × ℕ → Bool) (es : List (String × ℕ))
    → any es q ≡ false
    → any (keep p es) q ≡ false
any-keep p q [] h = refl
any-keep p q (e ∷ es) h = ground (arith, any-keep p q es)

pub any-append :
    (q : String × ℕ → Bool) (es fs : List (String × ℕ)) → any (es ++ fs) q ≡ (any es q || any fs q)
any-append q [] fs = refl
any-append q (e ∷ es) fs = ground (arith, any-append q es fs)

pub length-scores : (es : List (String × ℕ)) → length es ≡ length (scores es)
length-scores [] = refl
length-scores (e ∷ es) = ap suc (length-scores es)

-- A request with the member that it adds.
pub record Call : Type 0 where
  pub hit : Hit
  pub member : String

abbrev pub hits : List Call → List Hit
hits cs = map (λ (c : Call). c.hit) cs

abbrev pub members : List Call → List String
members cs = map (λ (c : Call). c.member) cs

module _ (ticks : ℕ) (r : Redis) (window : String → ℕ) (limit : String → ℤ) where
  abbrev pub request : Call → r.State → Outcome (Bool × ℕ) × r.State
  request c s =
      sliding_window ticks r c.hit.at c.hit.key c.member (limit c.hit.key) (window c.hit.key) s

  -- One request after another.
  abbrev pub serve_calls : List Call → r.State → r.State
  serve_calls [] s = s
  serve_calls (c ∷ cs) s = serve_calls cs (request c s).1

  module _ (laws : RedisLaws ticks r) (positive : 0 < ticks) where
    open laws use {entries}

    abbrev pub IsLog : List Hit → ℕ → r.State → Type 0
    IsLog hs last s =
        (later : ℕ) (key : String)
        → last ≤ later
        → keep (is_recent (window key) later) (scores (entries s later key))
          ≡ keep (is_recent (window key) later) (times_on key hs)

    -- No set holds a member that is still to come.
    abbrev pub IsFresh : List Call → ℕ → r.State → Type 0
    IsFresh coming last s =
        (later : ℕ) (key : String)
        → last ≤ later
        → All (λ (c : Call). any (entries s later key) (λ e. str_eq e.0 c.member) ≡ false) coming

    -- What the set of the key holds when the request has added itself.
    abbrev pub written : Call → r.State → List (String × ℕ)
    written c s =
        keep (λ e. not (leb_ℤ (pos e.1) (sub_ℕ c.hit.at (window c.hit.key))))
          (entries s c.hit.at c.hit.key)
        ++ (c.member, c.hit.at) ∷ []

    abbrev pub trimmed : Call → r.State → r.State
    trimmed c s = r.zremrangebyscore c.hit.at c.hit.key (sub_ℕ c.hit.at (window c.hit.key)) s

    abbrev pub added : Call → r.State → r.State
    added c s = r.zadd c.hit.at c.hit.key c.member c.hit.at (trimmed c s)

    entries-added :
        (c : Call) (s : r.State)
        → any (entries s c.hit.at c.hit.key) (λ e. str_eq e.0 c.member) ≡ false
        → entries (added c s) c.hit.at c.hit.key ≡ written c s
    entries-added c s fresh =
        let removed =
          laws.zremrangebyscore c.hit.at c.hit.key (sub_ℕ c.hit.at (window c.hit.key)) s in
        laws.zadd c.hit.at c.hit.at c.hit.key c.member (trimmed c s) (
          ap (λ (es : List (String × ℕ)). any es (λ e. str_eq e.0 c.member)) removed
          ∙ any-keep (λ e. not (leb_ℤ (pos e.1) (sub_ℕ c.hit.at (window c.hit.key))))
              (λ e. str_eq e.0 c.member) (entries s c.hit.at c.hit.key) fresh)
        ∙ ap (λ (es : List (String × ℕ)). es ++ (c.member, c.hit.at) ∷ []) removed

    pub request-written :
        (c : Call) (s : r.State)
        → any (entries s c.hit.at c.hit.key) (λ e. str_eq e.0 c.member) ≡ false
        → request c s ≡ (
          ok (decide_limit (limit c.hit.key) (length (written c s))),
          r.expire c.hit.at c.hit.key (ttl_of ticks (window c.hit.key)) (added c s),
        )
    unfolding sliding_window
    request-written c s fresh = ground (
      arith,
      laws.reachable s,
      laws.zcard c.hit.at c.hit.key (added c s),
      entries-added c s fresh,
    )

    pub scores-written :
        (c : Call) (s : r.State) (hs : List Hit) (last : ℕ)
        → last ≤ c.hit.at
        → IsLog hs last s
        → scores (written c s)
          ≡ keep (is_recent (window c.hit.key) c.hit.at) (times_on c.hit.key hs) ++ c.hit.at ∷ []
    scores-written c s hs last le log =
        map-append _ _ _
        ∙ ap (λ (xs : List ℕ). xs ++ c.hit.at ∷ [])
            (recent_bound (window c.hit.key) c.hit.at (entries s c.hit.at c.hit.key)
              ∙ log c.hit.at c.hit.key le)

    pub entries-request :
        (c : Call) (s : r.State) (later : ℕ) (j : String)
        → any (entries s c.hit.at c.hit.key) (λ e. str_eq e.0 c.member) ≡ false
        → c.hit.at ≤ later
        → entries (request c s).1 later j ≡ (
            if str_eq c.hit.key j
            then (if ltb (c.hit.at + ttl_of ticks (window c.hit.key) * ticks) later
                then []
                else written c s)
            else entries s later j)
    entries-request c s later j fresh le =
        let now = c.hit.at in
        let key = c.hit.key in
        let ttl = ttl_of ticks (window key) in
        ap (λ (o : Outcome (Bool × ℕ) × r.State). entries o.1 later j) (request-written c s fresh)
        ∙ (elim (Bool-cases (str_eq key j)) [
          | inl same ↦ rw same (
              subst
                (λ k.
                  entries (r.expire now key ttl (added c s)) later k
                  ≡ (if ltb (now + ttl * ticks) later then [] else written c s))
                ((eq_iff key j).0 same)
                (laws.expire now later ttl key (added c s) le ∙ rw (entries-added c s fresh)))
          | inr other ↦ rw other (
              laws.expire_other now later ttl key j (added c s) other
              ∙ laws.zadd_other now later now key j c.member (trimmed c s) other
              ∙ laws.zremrangebyscore_other now later key j (sub_ℕ now (window key)) s other)
        ])
