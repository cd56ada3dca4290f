-- ===== src/Ingest/Targets.antt =====
-- The targets that the matching of src/domains/data_import/mapping.py finds are among those given.
use douyin_data_dashboard.Prelude.{
  String, ◌≡◌, sym, ap, ◌∙◌, inl, inr, Bool, true, false, Option, none, some, List, [], ◌∷◌, arith,
  str_eq, eq_iff, if◌then◌else◌, Bool-cases, keep, contains,
}
use douyin_data_dashboard.Import.Value.{Runtime}
use douyin_data_dashboard.Ingest.Similar.{Similarity, best_of, find_best_match}
use douyin_data_dashboard.Ingest.AutoMap.{first_synonym}

-- A text that a filter keeps was there, and passes.
pub in_keep :
    (f : String → Bool) (xs : List String) (s : String)
    → contains (keep f xs) s ≡ true
    → (contains xs s ≡ true) × (f s ≡ true)
in_keep f [] s h = cc
in_keep f (x ∷ xs) s h = elim (Bool-cases (f x)) [
  | inl e ↦ elim (Bool-cases (str_eq x s)) [
    | inl same ↦ (ground (arith, same), ap f (sym ((eq_iff x s).0 same)) ∙ e)
    | inr other ↦
        let (a, b) = in_keep f xs s (ground (arith, h, e, other)) in (ground (arith, a), b)
  ]
  | inr e ↦ let (a, b) = in_keep f xs s (ground (arith, h, e)) in (ground (arith, a), b)
]

module _ (r : Runtime) (sim : Similarity r) where
  open r use {Float}

  best_of-target :
      (source : String) (targets all : List String) (best : Option String) (score : Float)
      → ((t : String) → contains targets t ≡ true → contains all t ≡ true)
      → ((t : String) → best ≡ some t → contains all t ≡ true)
      → (t : String) → (best_of r sim source targets best score).0 ≡ some t
      → contains all t ≡ true
  unfolding best_of
  best_of-target source [] all best score sub held t e = held t e
  best_of-target source (target ∷ rest) all best score sub held t e =
      best_of-target source rest all _ _ (λ u c. sub u (ground (arith, c))) (λ u q. better _ u q) t
        e
    where
      better :
          (b : Bool) (u : String)
          → (if b then some target else best) ≡ some u
          → contains all u ≡ true
      better true u q = sub u (ground (arith, eq_iff target u, q))
      better false u q = held u q

  pub find_best_match-target :
      (source : String) (targets : List String) (threshold : Float) (t : String) (score : Float)
      → find_best_match r sim source targets threshold ≡ some (t, score)
      → contains targets t ≡ true
  unfolding find_best_match
  find_best_match-target source targets threshold t score e =
      best_of-target source targets targets none (sim.literal "0.0") (λ u c. c) (λ u q. cc) t
        (ground (arith, e))

  pub first_synonym-target :
      (synonyms targets : List String) (t : String)
      → first_synonym r sim synonyms targets ≡ some t
      → contains targets t ≡ true
  first_synonym-target synonyms [] t e = cc
  first_synonym-target synonyms (target ∷ rest) t e =
      ground (arith, e, eq_iff target t, first_synonym-target synonyms rest t)
