-- ===== src/LoadTest/Accepted.antt =====
-- The service accepts every request of the load test.
use advanced_search_api.Base.{
  ℕ, zero, suc, ◌+◌, ◌*◌, ◌/◌, ◌%◌, ◌≤◌, ◌<◌, Text, Option, some, Bool, true, ◌&&◌, ◌≡◌, refl, List,
  [], ◌∷◌, length, get_elem?, arith, every, leb, le→leb,
}
use advanced_search_api.Domain.{fraction}
use advanced_search_api.Search.{SortField, SortOrder}
use advanced_search_api.Search.Controller.{is_valid, number_le, is_not_below_min_price}
use advanced_search_api.UseCases.Handlers.{autocomplete_is_valid, is_query_text}
use advanced_search_api.LoadTest.{
  no_query, terms, typos, prefixes, categories, locations, subcategories, sorts, seq, pick,
  cold_search_query, warm_search_query, facet_search_query, browse_query, autocomplete_query,
  suggest_query,
}

-- What holds of every element holds of the one that is picked, and one is always picked.
element :
    {A : Type 0} (p : A → Bool) (xs : List A) (i : ℕ)
    → every p xs ≡ true
    → i < length xs
    → (x : A) × (get_elem? xs i ≡ some x) × (p x ≡ true)
unfolding every
element p [] i h lt = absurd (omega arith)
element p (x ∷ xs) zero h lt = (x, refl, ground arith)
element p (x ∷ xs) (suc i) h lt = element p xs i (ground arith) (omega arith)

picked :
    {A : Type 0} (p : A → Bool) (xs : List A) (n : ℕ)
    → every p xs ≡ true
    → 0 < length xs
    → (x : A) × (pick xs n ≡ some x) × (p x ≡ true)
unfolding pick
picked p xs n h lt = element p xs (n % length xs) h (ground arith)

abbrev short : ℕ → Text → Bool
short limit t = leb 1 (length t) && leb (length t) limit

fits : (t : Text) → short 128 t ≡ true → (1 ≤ length t) × (length t ≤ 128)
fits t h = (ground arith, ground arith)

cold_lem :
    (t : Text) (m p : ℕ) (sort : Option SortField)
    → length t ≤ 128
    → is_valid (record no_query {
      q = some t;
      min_price = some (fraction m 99);
      sort = sort;
      page = some (1 + p);
    })
      ≡ true
unfolding is_valid is_not_below_min_price
cold_lem t m p sort h = ground arith

facet_lem :
    (t c s l : Text) (m : ℕ)
    → length t ≤ 128
    → length c ≤ 128
    → length s ≤ 128
    → length l ≤ 128
    → m < 3000
    → is_valid (record no_query {
      q = some t;
      category = some c;
      subcategory = some (s ∷ []);
      location = some l;
      min_price = some (fraction m 99);
      max_price = some (fraction 500 0);
    })
      ≡ true
unfolding is_valid is_not_below_min_price number_le every
facet_lem t c s l m ht hc hs hl hm =
    rw
      (
        le→leb (length t) 256 (omega arith),
        le→leb (length c) 128 hc,
        le→leb (length s) 128 hs,
        le→leb (length l) 128 hl,
        le→leb (m * 1) (500 * 100) (omega arith),
      )
      refl

browse_lem :
    (c : Text) (p : ℕ) (sort : Option SortField) (order : Option SortOrder)
    → length c ≤ 128
    → is_valid (record no_query {
      category = some c;
      sort = sort;
      order = order;
      page = some (1 + p);
      page_size = some 10;
    })
      ≡ true
unfolding is_valid is_not_below_min_price
browse_lem c p sort order h = ground arith

query_text_lem : (t : Text) → short 128 t ≡ true → is_query_text t ≡ true
unfolding is_query_text
query_text_lem t h = ground arith

completion_lem :
    (t : Text)
    → short 128 t ≡ true
    → autocomplete_is_valid (record { q = t; limit = some 10 }) ≡ true
unfolding autocomplete_is_valid is_query_text
completion_lem t h = ground arith

cold-IsValid : (n : ℕ) → is_valid (cold_search_query n) ≡ true
unfolding cold_search_query every
cold-IsValid n =
    let (t, t_is, ok_t) = picked (short 128) terms n refl (omega arith) in
    rw t_is (cold_lem t (n % 4000) (n % 2) (pick sorts (n / 4)) (fits t ok_t).1)

facet-IsValid : (n : ℕ) → is_valid (facet_search_query n) ≡ true
unfolding facet_search_query every
facet-IsValid n =
    let (t, t_is, ok_t) = picked (short 128) terms n refl (omega arith) in
    let (c, c_is, ok_c) = picked (short 128) categories n refl (omega arith) in
    let (s, s_is, ok_s) = picked (short 128) subcategories (n / 2) refl (omega arith) in
    let (l, l_is, ok_l) = picked (short 128) locations (n / 4) refl (omega arith) in
    rw (t_is, c_is, s_is, l_is)
      (facet_lem t c s l (n % 3000) (fits t ok_t).1 (fits c ok_c).1 (fits s ok_s).1 (fits l ok_l).1
        (omega arith))

browse-IsValid : (n : ℕ) → is_valid (browse_query n) ≡ true
unfolding browse_query every
browse-IsValid n =
    let (c, c_is, ok_c) = picked (short 128) categories n refl (omega arith) in
    rw c_is (browse_lem c (n % 3) (pick sorts (n / 2)) _ (fits c ok_c).1)

-- Whichever virtual user, iteration and salt the counter comes from, each kind of request passes the
-- validation of its endpoint, so that the load test measures searches and not refusals.
pub workload-IsValid :
    (vu iter salt : ℕ)
    → let n = seq vu iter salt in
      (is_valid (cold_search_query n) ≡ true)
      × (is_valid warm_search_query ≡ true)
      × (is_valid (facet_search_query n) ≡ true)
      × (is_valid (browse_query n) ≡ true)
      × (autocomplete_is_valid (autocomplete_query n) ≡ true)
      × (is_query_text (suggest_query n) ≡ true)
unfolding warm_search_query is_valid autocomplete_query suggest_query is_not_below_min_price every
workload-IsValid vu iter salt =
    let n = seq vu iter salt in
    let (t, t_is, ok_t) = picked (short 128) prefixes n refl (omega arith) in
    let (u, u_is, ok_u) = picked (short 128) typos n refl (omega arith) in
    (
      cold-IsValid n,
      refl,
      facet-IsValid n,
      browse-IsValid n,
      rw t_is (completion_lem t ok_t),
      rw u_is (query_text_lem u ok_u),
    )
