-- ===== src/Errors/Disclosure.antt =====
-- What a caller without a valid key can learn from the error answers.
use advanced_search_api.Base.{true, false, ◌≡◌, is_some}
use advanced_search_api.Auth.{Crypto, ApiAuthConfig, presented_key, create_key_identifier}
use advanced_search_api.Errors.{HttpRequest}

-- Authentication is on and the request presents no configured key.
abbrev pub IsStranger : Crypto → ApiAuthConfig → HttpRequest → Type 0
IsStranger crypto auth request =
    (auth.enabled ≡ true)
    × (is_some (create_key_identifier crypto auth.keys (presented_key request.key_header)) ≡ false)
