-- ===== src/Search/Keys/Prefixes.antt =====
-- Which completions share a cache entry.
use advanced_search_api.Base.{ℕ, Text, str, ◌≡◌, refl, sym, ◌∙◌, ap, [], ◌∷◌, ◌++◌, length, arith}
use advanced_search_api.Base.Decimal.{to_decimal, of_decimal, of_decimal-to_decimal}
use advanced_search_api.Base.Trim.{trim}
use advanced_search_api.Search.Keys.{build_autocomplete_cache_key}
use advanced_search_api.Search.Keys.Sharing.{append_cancel}

split_at_length :
    (s s' t t' : Text) → length s ≡ length s' → s ++ t ≡ s' ++ t' → (s ≡ s') × (t ≡ t')
split_at_length [] [] t t' n e = (refl, e)
split_at_length [] (c ∷ s') t t' n e = absurd (omega arith)
split_at_length (c ∷ s) [] t t' n e = absurd (omega arith)
split_at_length (c ∷ s) (d ∷ s') t t' n e =
    let (heads, tails) = split_at_length s s' t t' (omega arith) cc in (cc, tails)

to_decimal_injective : (n m : ℕ) → to_decimal n ≡ to_decimal m → n ≡ m
to_decimal_injective n m e =
    sym (of_decimal-to_decimal n) ∙ ap of_decimal e ∙ of_decimal-to_decimal m

-- Completions share an entry only if their limits are the same and their prefixes differ at most in case
-- and in outer spaces, provided the digests have one length, as SHA-1 in hex has, and do not collide
-- on the two.
pub build_autocomplete_cache_key_sound :
    (lower digest : Text → Text) (scope p q : Text) (n m : ℕ)
    → length (digest (lower (trim p))) ≡ length (digest (lower (trim q)))
    → (digest (lower (trim p)) ≡ digest (lower (trim q)) → lower (trim p) ≡ lower (trim q))
    → build_autocomplete_cache_key lower digest p n scope
      ≡ build_autocomplete_cache_key lower digest q m scope
    → (lower (trim p) ≡ lower (trim q)) × (n ≡ m)
unfolding build_autocomplete_cache_key
build_autocomplete_cache_key_sound lower digest scope p q n m lengths apart e =
    let tail =
      append_cancel (str ":") _ _ (append_cancel scope _ _ (append_cancel (str "ac:v1:") _ _ e)) in
    let (digests, limits) =
      split_at_length (digest (lower (trim p))) (digest (lower (trim q))) _ _ lengths tail in
    (apart digests, to_decimal_injective n m (append_cancel (str ":") _ _ limits))
