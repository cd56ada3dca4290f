-- ===== src/RateLimit/Calls.antt =====
-- A run of requests on the Redis window of src/middleware/rate_limit.py.
use mathlib.Core.Path.{subst}
use mathlib.Core.List.{append-nil, append_assoc}
use douyin_data_dashboard.Prelude.{
  ℕ, ◌+◌, ◌*◌, ◌≤◌, ◌<◌, String, ◌≡◌, sym, ap, ◌∙◌, Bool, false, not, List, [], ◌∷◌, ◌++◌, inl, inr,
  arith, str_eq, eq_iff, eq_refl, ltb, Bool-cases, length, keep, keep-append, All, All-append,
  length-append, contains, any, IsDistinct,
}
use douyin_data_dashboard.Prelude.Int.{ℤ, pos, leb_ℤ, sub_ℕ}
use douyin_data_dashboard.RateLimit.Window.{
  Outcome, ok, Redis, is_recent, decide_limit, ttl_of, sliding_window,
}
use douyin_data_dashboard.RateLimit.History.{
  Hit, times_on, recent_count, IsOrdered, keep-keep, keep_none, times_on-append,
}
use douyin_data_dashboard.RateLimit.Served.{ttl_covers}
use douyin_data_dashboard.RateLimit.Sorted.{
  RedisLaws, scores, any-keep, any-append, length-scores, Call, hits, members, request, serve_calls,
  IsLog, IsFresh, written, request-written, scores-written, entries-request,
}

-- All requests so far on any key were at `last` or before.
abbrev IsPast : List Hit → ℕ → Type 0
IsPast hs last = (key : String) → All (λ x. x ≤ last) (times_on key hs)

All-raise : (a b : ℕ) (xs : List ℕ) → a ≤ b → All (λ x. x ≤ a) xs → All (λ x. x ≤ b) xs
All-raise a b [] le h = tt
All-raise a b (x ∷ xs) le h = (omega arith, All-raise a b xs le h.1)

module _ (ticks : ℕ) (r : Redis) (window : String → ℕ) (limit : String → ℤ)
    (laws : RedisLaws ticks r) (positive : 0 < ticks) where
  open laws use {entries}

  abbrev FreshNow : Call → r.State → Type 0
  FreshNow c s = any (entries s c.hit.at c.hit.key) (λ e. str_eq e.0 c.member) ≡ false

  written-fresh :
      (c d : Call) (s : r.State)
      → str_eq c.member d.member ≡ false
      → any (entries s c.hit.at c.hit.key) (λ e. str_eq e.0 d.member) ≡ false
      → any (written ticks r window limit laws positive c s) (λ e. str_eq e.0 d.member) ≡ false
  written-fresh c d s ne h =
      any-append (λ e. str_eq e.0 d.member) _ ((c.member, c.hit.at) ∷ [])
      ∙ ground (
        arith,
        ne,
        any-keep (λ e. not (leb_ℤ (pos e.1) (sub_ℕ c.hit.at (window c.hit.key))))
            (λ e. str_eq e.0 d.member) (entries s c.hit.at c.hit.key) h,
      )

  request-IsFresh :
      (c : Call) (coming : List Call) (last : ℕ) (s : r.State)
      → last ≤ c.hit.at
      → contains (members coming) c.member ≡ false
      → IsFresh ticks r window limit laws positive (c ∷ coming) last s
      → IsFresh ticks r window limit laws positive coming c.hit.at
          (request ticks r window limit c s).1
  request-IsFresh c coming last s le distinct fresh later j now_le =
      go coming distinct (fresh later j (omega arith)).1 (fresh c.hit.at c.hit.key le).1
    where
      go :
          (ds : List Call)
          → contains (members ds) c.member ≡ false
          → All (λ (d : Call). any (entries s later j) (λ e. str_eq e.0 d.member) ≡ false) ds
          → All
              (λ (d : Call). any (entries s c.hit.at c.hit.key) (λ e. str_eq e.0 d.member) ≡ false)
              ds
          → All
              (λ (d : Call).
                any
                  (entries (request ticks r window limit c s).1 later j)
                  (λ e. str_eq e.0 d.member)
                ≡ false)
              ds
      go [] ne a b = tt
      go (d ∷ ds) ne a b = (
        ap (λ (es : List (String × ℕ)). any es (λ e. str_eq e.0 d.member))
              (entries-request ticks r window limit laws positive c s later j
                (fresh c.hit.at c.hit.key le).0 now_le)
            ∙ ground (
              arith,
              a.0,
              written-fresh c d s
                  (ground (arith, eq_iff c.member d.member, eq_iff d.member c.member, ne)) b.0,
            ),
        go ds (ground (arith, ne)) a.1 b.1,
      )

  IsPast-append :
      (hs : List Hit) (last : ℕ) (h : Hit)
      → last ≤ h.at
      → IsPast hs last
      → IsPast (hs ++ h ∷ []) h.at
  IsPast-append hs last h le past key =
      subst (All (λ x. x ≤ h.at)) (sym (times_on-append key hs h)) (
        All-append (λ x. x ≤ h.at) (times_on key hs) _
          (All-raise last h.at (times_on key hs) le (past key))
          (elim (Bool-cases (str_eq h.key key)) [
            | inl e ↦ rw e (omega arith, tt)
            | inr e ↦ rw e tt
          ]))

  keep_request :
      (hs : List Hit) (last : ℕ) (c : Call) (s : r.State) (later : ℕ)
      → last ≤ c.hit.at
      → c.hit.at ≤ later
      → IsLog ticks r window limit laws positive hs last s
      → keep
          (is_recent (window c.hit.key) later)
          (scores (written ticks r window limit laws positive c s))
        ≡ keep (is_recent (window c.hit.key) later) (times_on c.hit.key (hs ++ c.hit ∷ []))
  keep_request hs last c s later le now_le log =
      let key = c.hit.key in
      let recent = is_recent (window key) later in
      ap (keep recent) (scores-written ticks r window limit laws positive c s hs last le log)
      ∙ keep-append recent (keep (is_recent (window key) c.hit.at) (times_on key hs))
          (c.hit.at ∷ [])
      ∙ ap (λ (xs : List ℕ). xs ++ keep recent (c.hit.at ∷ []))
          (keep-keep (window key) c.hit.at later (times_on key hs) now_le)
      ∙ sym (keep-append recent (times_on key hs) (c.hit.at ∷ []))
      ∙ ap (keep recent) (sym (times_on-append key hs c.hit ∙ rw (eq_refl key)))

  request-IsLog :
      (hs : List Hit) (last : ℕ) (c : Call) (s : r.State)
      → last ≤ c.hit.at
      → FreshNow c s
      → IsPast (hs ++ c.hit ∷ []) c.hit.at
      → IsLog ticks r window limit laws positive hs last s
      → IsLog ticks r window limit laws positive
          (hs ++ c.hit ∷ [])
          c.hit.at
          (request ticks r window limit c s).1
  request-IsLog hs last c s le fresh past log later j now_le =
      let h = c.hit in
      let seen = entries-request ticks r window limit laws positive c s later j fresh now_le in
      elim (Bool-cases (str_eq h.key j)) [
        | inl same ↦
            let key_is : h.key ≡ j = (eq_iff h.key j).0 same in
            elim (Bool-cases (ltb (h.at + ttl_of ticks (window h.key) * ticks) later)) [
              | inl over ↦
                  rw (seen, same, over)
                    (sym (
                      keep_none (window j) h.at later (times_on j (hs ++ h ∷ [])) (past j) (
                        subst (λ k. h.at + window k ≤ later) key_is
                          (ground (arith, over, ttl_covers ticks (window h.key) positive)))))
              | inr live ↦
                  rw (seen, same, live)
                    (subst
                      (λ k.
                        keep (is_recent (window k) later)
                          (scores (written ticks r window limit laws positive c s))
                        ≡ keep (is_recent (window k) later) (times_on k (hs ++ h ∷ [])))
                      key_is (keep_request hs last c s later le now_le log))
            ]
        | inr other ↦
            rw (seen, other)
              (log later j (omega arith)
                ∙ ap (keep (is_recent (window j) later))
                    (sym (times_on-append j hs h ∙ rw other (append-nil (times_on j hs)))))
      ]

  -- What is known of a state between two requests: the log of those made, and new members to come.
  abbrev IsReady : List Hit → List Call → ℕ → r.State → Type 0
  IsReady hs coming last s =
      IsPast hs last
      × IsLog ticks r window limit laws positive hs last s
      × IsFresh ticks r window limit laws positive coming last s

  serve_calls-IsReady :
      (before : List Hit) (cs coming : List Call) (start last : ℕ) (s : r.State)
      → IsOrdered start (hits cs) last
      → IsDistinct (members (cs ++ coming))
      → IsReady before (cs ++ coming) start s
      → IsReady (before ++ hits cs) coming last (serve_calls ticks r window limit cs s)
  serve_calls-IsReady before [] coming start last s ordered distinct (past, log, fresh) =
      rw append-nil (
        λ key. All-raise start last (times_on key before) ordered (past key),
        λ later key le. log later key (omega arith),
        λ later key le. fresh later key (omega arith),
      )
  serve_calls-IsReady before (c ∷ cs) coming start last s ordered distinct (past, log, fresh) =
      let past' = IsPast-append before start c.hit ordered.0 past in
      let now_fresh = (fresh c.hit.at c.hit.key ordered.0).0 in
      subst
        (λ l.
          IsReady l coming last
            (serve_calls ticks r window limit cs (request ticks r window limit c s).1))
        (append_assoc before (c.hit ∷ []) (hits cs))
        (serve_calls-IsReady (before ++ c.hit ∷ []) cs coming c.hit.at last
          (request ticks r window limit c s).1 ordered.1 distinct.1
          (
            past',
            request-IsLog before start c s ordered.0 now_fresh past' log,
            request-IsFresh c (cs ++ coming) start s ordered.0 distinct.0 fresh,
          ))

  -- From a Redis that does as documented, is reachable and holds no such set, after requests in the
  -- order of the clock whose members all
  -- differ, a request is limited exactly where the requests on its key that its window holds, itself
  -- included, reach the limit, and it is told how many are left. Other keys do not count.
  pub sliding_window-served :
      (cs : List Call) (start : ℕ) (c : Call) (s : r.State)
      → ((later : ℕ) (key : String) → entries s later key ≡ [])
      → IsOrdered start (hits cs) c.hit.at
      → IsDistinct (members (cs ++ c ∷ []))
      → (sliding_window ticks r c.hit.at c.hit.key c.member
          (limit c.hit.key)
          (window c.hit.key)
          (serve_calls ticks r window limit cs s)).0
        ≡ ok (
            decide_limit
              (limit c.hit.key)
              (recent_count (window c.hit.key) c.hit.at c.hit.key (hits cs) + 1))
  sliding_window-served cs start c s empty ordered distinct =
      let ready = serve_calls-IsReady [] cs (c ∷ []) start c.hit.at s ordered distinct (
        λ key. tt,
        λ later key le. rw (empty later key),
        λ later key le. none_held later key (cs ++ c ∷ []),
      ) in
      let s' = serve_calls ticks r window limit cs s in
      let key = c.hit.key in
      ap (λ (o : Outcome (Bool × ℕ) × r.State). o.0)
        (request-written ticks r window limit laws positive c s'
          (ready.2 c.hit.at key (omega arith)).0)
      ∙ ap (λ n. ok (decide_limit (limit key) n))
          (length-scores (written ticks r window limit laws positive c s')
            ∙ ap length (
                scores-written ticks r window limit laws positive c s' (hits cs) c.hit.at
                  (omega arith) ready.1)
            ∙ length-append (keep (is_recent (window key) c.hit.at) (times_on key (hits cs)))
                (c.hit.at ∷ []))
    where
      none_held :
          (later : ℕ) (key : String) (ds : List Call)
          → All (λ (d : Call). any (entries s later key) (λ e. str_eq e.0 d.member) ≡ false) ds
      none_held later key [] = tt
      none_held later key (d ∷ ds) = (rw (empty later key), none_held later key ds)
