-- ===== src/Auth/Keys.antt =====
-- The places of tokens in the cache of packages/schema/src/middleware/auth.ts.
use text.Mathlib.TextLemmas.{append_cancel_left}
use ngfw_sh.Prelude.{ℕ, String, ◌≡◌, List}
use ngfw_sh.Prelude.Hex.{AreBytes, hex_injective}
use ngfw_sh.Auth.{token_cache_key}

-- Two tokens share a place in the cache only if their digests, which are lists of bytes, are the same.
pub token_cache_key_injective :
    (digest : String → List ℕ) (s t : String)
    → AreBytes (digest s)
    → AreBytes (digest t)
    → token_cache_key digest s ≡ token_cache_key digest t
    → digest s ≡ digest t
unfolding token_cache_key
token_cache_key_injective digest s t p q e =
    hex_injective (digest s) (digest t) p q (append_cancel_left "jwt:" _ _ e)
