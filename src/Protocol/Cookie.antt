-- ===== src/Protocol/Cookie.antt =====
-- crates/pmd/src/protocol.rs: `compute_cookie_hmac` and `verify_cookie_hmac`.
use pmd.Prelude.{ℕ, ◌≡◌, ◌↔◌, Bool, true, List}
use pmd.Platform.{Crypto}

module _ (C : Crypto) where
  unfoldable pub compute_cookie_hmac : List ℕ → List ℕ → List ℕ
  compute_cookie_hmac cookie nonce = C.hmac_sha256 cookie nonce

  unfoldable pub verify_cookie_hmac : List ℕ → List ℕ → List ℕ → Bool
  verify_cookie_hmac cookie nonce expected = C.verify_slice (C.hmac_sha256 cookie nonce) expected

  -- A tag is accepted for a nonce exactly when it is the tag that a holder of the cookie computes.
  pub verify_cookie_hmac_iff :
      (cookie nonce expected : List ℕ)
      → (verify_cookie_hmac cookie nonce expected ≡ true)
        ↔ (compute_cookie_hmac cookie nonce ≡ expected)
  unfolding verify_cookie_hmac compute_cookie_hmac
  verify_cookie_hmac_iff cookie nonce expected = C.verify_slice_iff _ expected
