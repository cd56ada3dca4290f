-- ===== src/Tasks/Selected.antt =====
-- What normalising a payload keeps: src/scrapers/shop_dashboard/shop_selection_validator.py.
use douyin_data_dashboard.Prelude.{
  ◌≡◌, refl, sym, ap, ◌∙◌, Bool, true, false, not, ◌||◌, List, [], ◌∷◌, any, keep, or_else, arith,
  Bool-cases, inl, inr, ◌⊎◌, String, str_eq,
}
use douyin_data_dashboard.Prelude.Dict.{lookup, put, pop, lookup-put, lookup-pop}
use douyin_data_dashboard.Plan.Shops.{append_shops, append_shops_idem}
use douyin_data_dashboard.Tasks.Selection.{
  null, bool, text, texts, Texts, Payload, ShopSelection, get_value, is_all_marker, is_true,
  parse_optional_bool, has_explicit_shop_selection, items_of, parse_shop_ids, parsed_shop_ids,
  selection_of, normalize_shop_selection, pick_ids, put_shop_ids, normalize_shop_selection_payload,
}

keep-none :
    (p : String → Bool) (xs : List String) → any xs p ≡ false → keep (λ x. not (p x)) xs ≡ xs
keep-none p [] h = refl
keep-none p (x ∷ xs) h = ground (arith, keep-none p xs)

module _ {Obj : Type 0} (py : Texts Obj) where
  parsed_shop_ids_idem :
      (payload : Payload Obj)
      → append_shops true [] (parsed_shop_ids py payload) ≡ parsed_shop_ids py payload
  unfolding parsed_shop_ids parse_shop_ids
  parsed_shop_ids_idem payload =
      go (parse_shop_ids py (get_value "shop_ids" payload))
        (append_shops_idem true [] (items_of py (get_value "shop_ids" payload)))
    where
      go :
          (ids : List String)
          → append_shops true [] ids ≡ ids
          → append_shops true [] (pick_ids ids (parse_shop_ids py (get_value "shop_id" payload)))
            ≡ (pick_ids ids (parse_shop_ids py (get_value "shop_id" payload)))
      go [] same = append_shops_idem true [] (items_of py (get_value "shop_id" payload))
      go (id ∷ rest) same = same

  -- What the three keys hold once some ids were put in.
  put_shop_ids-all :
      (ids : List String) (payload : Payload Obj) (b : Bool)
      → get_value "all" (put_shop_ids ids (put "all" (bool b) payload)) ≡ bool b
  unfolding put_shop_ids
  put_shop_ids-all [] payload b =
      let d = put "all" (bool b) payload in
      ap (λ o. or_else o null)
        (lookup-pop "shop_ids" "all" (pop "shop_id" d)
          ∙ (lookup-pop "shop_id" "all" d ∙ lookup-put "all" "all" (bool b) payload))
  put_shop_ids-all (id ∷ ids) payload b =
      let d = put "all" (bool b) payload in
      ap (λ o. or_else o null)
        (lookup-put "shop_id" "all" (text id) (put "shop_ids" (texts (id ∷ ids)) d)
          ∙ (lookup-put "shop_ids" "all" (texts (id ∷ ids)) d
              ∙ lookup-put "all" "all" (bool b) payload))

  parsed-put_shop_ids :
      (ids : List String) (payload : Payload Obj)
      → append_shops true [] ids ≡ ids
      → parsed_shop_ids py (put_shop_ids ids payload) ≡ ids
  unfolding put_shop_ids parsed_shop_ids parse_shop_ids items_of append_shops
  parsed-put_shop_ids [] payload same =
      ap
        (λ o.
          pick_ids (parse_shop_ids py (or_else o null))
            (parse_shop_ids py (get_value "shop_id" (put_shop_ids [] payload))))
        (lookup-pop "shop_ids" "shop_ids" (pop "shop_id" payload))
      ∙ ap (λ o. parse_shop_ids py (or_else o null))
          (lookup-pop "shop_ids" "shop_id" (pop "shop_id" payload)
            ∙ lookup-pop "shop_id" "shop_id" payload)
  parsed-put_shop_ids (id ∷ ids) payload same =
      let others = parse_shop_ids py (get_value "shop_id" (put_shop_ids (id ∷ ids) payload)) in
      ap (λ o. pick_ids (parse_shop_ids py (or_else o null)) others)
        (lookup-put "shop_id" "shop_ids" (text id) (put "shop_ids" (texts (id ∷ ids)) payload)
          ∙ lookup-put "shop_ids" "shop_ids" (texts (id ∷ ids)) payload)
      ∙ ap (λ ts. pick_ids ts others) same

  put_shop_ids-other :
      (ids : List String) (payload : Payload Obj) (key : String)
      → str_eq "shop_id" key ≡ false
      → str_eq "shop_ids" key ≡ false
      → lookup key (put_shop_ids ids payload) ≡ lookup key payload
  unfolding put_shop_ids
  put_shop_ids-other [] payload key a b =
      ground
        (arith, lookup-pop "shop_ids" key (pop "shop_id" payload), lookup-pop "shop_id" key payload)
  put_shop_ids-other (id ∷ ids) payload key a b = ground (
    arith,
    lookup-put "shop_id" key (text id) (put "shop_ids" (texts (id ∷ ids)) payload),
    lookup-put "shop_ids" key (texts (id ∷ ids)) payload,
  )

  -- The payload that is made of a selection.
  abbrev written : Bool → List String → Payload Obj → Payload Obj
  written b ids payload = put_shop_ids ids (put "all" (bool b) payload)

  -- What normalising a payload gives, by whether it selects shops and whether these are all.
  normalize_shop_selection_payload-cases :
      (payload : Payload Obj)
      → (normalize_shop_selection_payload py payload ≡ payload)
        ⊎ (((ids : List String) × (normalize_shop_selection_payload py payload
                ≡ written true ids payload)
              × (normalize_shop_selection py payload ≡ record { all = true; shop_ids = [] }))
            ⊎ (let ids = parsed_shop_ids py payload in
                (normalize_shop_selection_payload py payload ≡ written false ids payload)
                × (normalize_shop_selection py payload ≡ record { all = false; shop_ids = ids })
                × (any ids is_all_marker ≡ false)))
  unfolding normalize_shop_selection_payload normalize_shop_selection
  normalize_shop_selection_payload-cases payload =
      let ids = parsed_shop_ids py payload in
      let chosen = keep (λ item. not (is_all_marker item)) ids in
      elim (Bool-cases (has_explicit_shop_selection payload)) [
        | inr silent ↦ inl (rw silent refl)
        | inl explicit ↦
            elim (Bool-cases
              (is_true (parse_optional_bool (get_value "all" payload)) || any ids is_all_marker)) [
                | inl all ↦ inr (inl (chosen, rw (explicit, all) refl, rw all refl))
                | inr some_of ↦
                    let plain : any ids is_all_marker ≡ false = ground arith in
                    let same = keep-none is_all_marker ids plain in
                    inr (
                      inr (
                        ap (λ ts. ts) (rw (explicit, some_of) refl)
                            ∙ ap (λ ts. written false ts payload) same,
                        rw some_of (ap (λ ts. selected_ids ts) same),
                        plain,
                      ))
              ]
      ]
    where
      selected_ids : List String → ShopSelection
      selected_ids ids = record { all = false; shop_ids = ids }

  -- A normalised payload selects what the payload selects, and its other keys are as they were.
  pub normalize_shop_selection_payload-selects :
      (payload : Payload Obj)
      → (normalize_shop_selection py (normalize_shop_selection_payload py payload)
          ≡ normalize_shop_selection py payload)
        × ((key : String)
            → str_eq "shop_id" key ≡ false
            → str_eq "shop_ids" key ≡ false
            → str_eq "all" key ≡ false
            → lookup key (normalize_shop_selection_payload py payload) ≡ lookup key payload)
  unfolding normalize_shop_selection parse_optional_bool
  normalize_shop_selection_payload-selects payload =
      elim (normalize_shop_selection_payload-cases payload) [
        | inl same ↦ (ap (normalize_shop_selection py) same, λ key a b c. ap (lookup key) same)
        | inr (inl (ids, made, all)) ↦ (
          ap (normalize_shop_selection py) made
              ∙ (ap (λ v. selection_of v (parsed_shop_ids py (written true ids payload)))
                    (put_shop_ids-all ids payload true)
                  ∙ sym all),
          λ key a b c.
              ap (lookup key) made
              ∙ (put_shop_ids-other ids (put "all" (bool true) payload) key a b
                  ∙ ground (arith, lookup-put "all" key (bool true) payload)),
        )
        | inr (inr (made, some_of, plain)) ↦
            let ids = parsed_shop_ids py payload in
            (
              ap (normalize_shop_selection py) made
                  ∙ (ap (λ v. selection_of v (parsed_shop_ids py (written false ids payload)))
                        (put_shop_ids-all ids payload false)
                      ∙ (ap (selection_of {Obj = Obj} (bool false)) (
                            parsed-put_shop_ids ids (put "all" (bool false) payload)
                              (parsed_shop_ids_idem payload))
                          ∙ (rw plain (ap selected_some (keep-none is_all_marker ids plain))
                              ∙ sym some_of))),
              λ key a b c.
                  ap (lookup key) made
                  ∙ (put_shop_ids-other ids (put "all" (bool false) payload) key a b
                      ∙ ground (arith, lookup-put "all" key (bool false) payload)),
            )
      ]
    where
      selected_some : List String → ShopSelection
      selected_some ids = record { all = false; shop_ids = ids }
