-- ===== src/RateLimit/Served.antt =====
-- The cache window of src/middleware/rate_limit.py over a run of requests: it decides by the
-- requests on its own key that the window holds.
use mathlib.Core.Path.{subst}
use mathlib.Core.List.{append-nil, append_assoc}
use douyin_data_dashboard.Prelude.{
  ℕ, ◌+◌, ◌*◌, ◌≤◌, ◌<◌, String, ◌≡◌, refl, sym, ap, ◌∙◌, Bool, none, some, List, [], ◌∷◌, ◌++◌,
  inl, inr, arith, str_eq, eq_iff, eq_refl, ltb, if◌then◌else◌, Bool-cases, length, keep,
  keep-append, All, All-append, length-append,
}
use douyin_data_dashboard.Prelude.Int.{ℤ}
use douyin_data_dashboard.RateLimit.Window.{
  Outcome, ok, CacheProtocol, Json, is_recent, decide_limit, ttl_of, read_times,
  cache_sliding_window,
}
use douyin_data_dashboard.RateLimit.History.{
  JsonLaws, CacheLaws, Hit, times_on, recent_count, IsOrdered, keep-keep, keep_none,
  times_on-append,
}

pub ttl_covers : (ticks window : ℕ) → 0 < ticks → window ≤ ttl_of ticks window * ticks
ttl_covers ticks window h = grind arith

module _ (ticks : ℕ) (c : CacheProtocol) (json : Json) (window : String → ℕ)
    (limit : String → ℤ) where
  -- One request after another.
  abbrev pub serve : List Hit → c.State → c.State
  serve [] s = s
  serve (h ∷ hs) s =
      serve hs (cache_sliding_window ticks c json h.at h.key (limit h.key) (window h.key) s).1

  module _ (laws : CacheLaws ticks c) (jlaws : JsonLaws json) (positive : 0 < ticks) where
    open laws use {reads, get-ok, get-reads, set-ok, set-reads}

    -- What is stored from `last` on holds the recent requests among those made.
    abbrev IsLog : List Hit → ℕ → c.State → Type 0
    IsLog hs last s =
        (later : ℕ) (key : String)
        → last ≤ later
        → (xs : List ℕ) × (read_times ticks c json (reads s later key) ≡ some xs)
          × (keep (is_recent (window key) later) xs
              ≡ keep (is_recent (window key) later) (times_on key hs))

    -- The times that a request writes.
    abbrev written : List Hit → Hit → List ℕ
    written hs h = keep (is_recent (window h.key) h.at) (times_on h.key hs) ++ h.at ∷ []

    window_lem :
        (hs : List Hit) (last : ℕ) (h : Hit) (s : c.State)
        → last ≤ h.at
        → IsLog hs last s
        → cache_sliding_window ticks c json h.at h.key (limit h.key) (window h.key) s ≡ (
          ok (decide_limit (limit h.key) (length (written hs h))),
          (c.set h.at h.key
              (json.dumps (written hs h))
              (ttl_of ticks (window h.key))
              (c.get h.at h.key s).1).1,
        )
    unfolding cache_sliding_window
    window_lem hs last h s le log =
        let (xs, read, same) = log h.at h.key le in
        ground (
          arith,
          get-ok h.at h.key s,
          read,
          same,
          set-ok h.at (ttl_of ticks (window h.key)) h.key (json.dumps (written hs h))
              (c.get h.at h.key s).1,
        )

    -- The state that a request leaves.
    abbrev after : Hit → c.State → c.State
    after h s = (cache_sliding_window ticks c json h.at h.key (limit h.key) (window h.key) s).1

    reads-after :
        (hs : List Hit) (last : ℕ) (h : Hit) (s : c.State) (later : ℕ) (j : String)
        → last ≤ h.at
        → IsLog hs last s
        → h.at ≤ later
        → reads (after h s) later j ≡ (
            if str_eq h.key j
            then (if ltb (h.at + ttl_of ticks (window h.key) * ticks) later
                then none
                else some (json.dumps (written hs h)))
            else reads s later j)
    reads-after hs last h s later j le log now_le =
        ap (λ (r : Outcome (Bool × ℕ) × c.State). reads r.1 later j) (window_lem hs last h s le log)
        ∙ set-reads h.at later (ttl_of ticks (window h.key)) h.key j (json.dumps (written hs h))
            (c.get h.at h.key s).1 now_le
        ∙ ground (arith, get-reads h.at later h.key j s now_le)

    keep-written :
        (hs : List Hit) (h : Hit) (later : ℕ) (j : String)
        → h.at ≤ later
        → h.key ≡ j
        → keep (is_recent (window j) later) (written hs h)
          ≡ keep (is_recent (window j) later) (times_on j (hs ++ h ∷ []))
    keep-written hs h later j le e =
        subst
          (λ k.
            keep (is_recent (window k) later) (written hs h)
            ≡ keep (is_recent (window k) later) (times_on k (hs ++ h ∷ [])))
          e
          (keep-append (is_recent (window h.key) later)
              (keep (is_recent (window h.key) h.at) (times_on h.key hs)) (h.at ∷ [])
            ∙ ap (λ (xs : List ℕ). xs ++ keep (is_recent (window h.key) later) (h.at ∷ []))
                (keep-keep (window h.key) h.at later (times_on h.key hs) le)
            ∙ sym (keep-append (is_recent (window h.key) later) (times_on h.key hs) (h.at ∷ []))
            ∙ ap (keep (is_recent (window h.key) later))
                (sym (times_on-append h.key hs h ∙ rw (eq_refl h.key))))

    -- All requests so far on any key were at `last` or before.
    abbrev IsPast : List Hit → ℕ → Type 0
    IsPast hs last = (key : String) → All (λ x. x ≤ last) (times_on key hs)

    after-IsLog :
        (hs : List Hit) (last : ℕ) (h : Hit) (s : c.State)
        → last ≤ h.at
        → IsPast (hs ++ h ∷ []) h.at
        → IsLog hs last s
        → IsLog (hs ++ h ∷ []) h.at (after h s)
    after-IsLog hs last h s le past log later j now_le =
        let seen = reads-after hs last h s later j le log now_le in
        elim (Bool-cases (str_eq h.key j)) [
          | inl same ↦
              let key_is : h.key ≡ j = (eq_iff h.key j).0 same in
              elim (Bool-cases (ltb (h.at + ttl_of ticks (window h.key) * ticks) later)) [
                | inl over ↦ (
                  [],
                  rw seen (rw (same, over)),
                  sym (
                      keep_none (window j) h.at later (times_on j (hs ++ h ∷ [])) (past j) (
                        subst (λ k. h.at + window k ≤ later) key_is
                          (ground (arith, over, ttl_covers ticks (window h.key) positive)))),
                )
                | inr live ↦ (
                  written hs h,
                  rw seen (
                      rw (same, live)
                        (rw (jlaws.dumps_filled (written hs h))
                          (jlaws.loads-dumps (written hs h)))),
                  keep-written hs h later j now_le key_is,
                )
              ]
          | inr other ↦
              let (xs, read, kept) = log later j (omega arith) in
              (
                xs,
                rw seen (rw other read),
                kept
                    ∙ ap (keep (is_recent (window j) later))
                        (sym (times_on-append j hs h ∙ rw other (append-nil (times_on j hs)))),
              )
        ]

    IsPast-append :
        (hs : List Hit) (last : ℕ) (h : Hit)
        → last ≤ h.at
        → IsPast hs last
        → IsPast (hs ++ h ∷ []) h.at
    IsPast-append hs last h le past key =
        subst (All (λ x. x ≤ h.at)) (sym (times_on-append key hs h)) (
          All-append (λ x. x ≤ h.at) (times_on key hs) _ (raise (times_on key hs) (past key))
            (elim (Bool-cases (str_eq h.key key)) [
              | inl e ↦ rw e (omega arith, tt)
              | inr e ↦ rw e tt
            ]))
      where
        raise : (xs : List ℕ) → All (λ x. x ≤ last) xs → All (λ x. x ≤ h.at) xs
        raise [] a = tt
        raise (x ∷ xs) a = (omega arith, raise xs a.1)

    serve-IsLog :
        (before hs : List Hit) (start last : ℕ) (s : c.State)
        → IsOrdered start hs last
        → IsPast before start
        → IsLog before start s
        → IsLog (before ++ hs) last (serve hs s)
    serve-IsLog before [] start last s ordered past log =
        rw append-nil (λ later key le. log later key (omega arith))
    serve-IsLog before (h ∷ hs) start last s ordered past log =
        subst (λ l. IsLog l last (serve hs (after h s))) (append_assoc before (h ∷ []) hs)
          (let past' = IsPast-append before start h ordered.0 past in
            serve-IsLog (before ++ h ∷ []) hs h.at last (after h s) ordered.1 past'
              (after-IsLog before start h s ordered.0 past' log))

    -- From a cache that keeps what is written for its time to live and holds nothing of the
    -- middleware, with JSON texts that read back, after requests in the order of the clock, a
    -- request is limited exactly where the requests on its key that its window holds, itself
    -- included, reach the limit, and it is told how many are left. Other keys do not count.
    pub serve-window :
        (hs : List Hit) (start : ℕ) (h : Hit) (s : c.State)
        → ((later : ℕ) (key : String) → reads s later key ≡ none)
        → IsOrdered start hs h.at
        → (cache_sliding_window ticks c json h.at h.key (limit h.key) (window h.key) (serve hs s)).0
          ≡ ok (decide_limit (limit h.key) (recent_count (window h.key) h.at h.key hs + 1))
    serve-window hs start h s empty ordered =
        let log : IsLog hs h.at (serve hs s) =
          serve-IsLog [] hs start h.at s ordered (λ key. tt)
            (λ later key le. ([], rw (empty later key), refl)) in
        ap (λ (r : Outcome (Bool × ℕ) × c.State). r.0)
          (window_lem hs h.at h (serve hs s) (omega arith) log)
        ∙ ap (λ n. ok (decide_limit (limit h.key) n))
            (length-append (keep (is_recent (window h.key) h.at) (times_on h.key hs)) (h.at ∷ []))
