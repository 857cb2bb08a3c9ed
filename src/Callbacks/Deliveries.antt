-- ===== src/Callbacks/Deliveries.antt =====
-- Callbacks that are delivered, and their signature.
use fleet_api.Base.{
  ℕ, ◌≤◌, ◌≡◌, refl, sym, ap, ◌∙◌, subst, String, true, ◌||◌, some, arith, if◌then◌else◌,
}
use fleet_api.Json.{Dict}
use fleet_api.Task.Row.{Task}
use fleet_api.Auth.{Crypto, IsCrypto, build_signing_string}
use fleet_api.Callbacks.{
  Answer, Report, is_success, attempt_rounds, Post, sign_callback, callback_path, callback_post,
  deliver_callback,
}

-- the number of the first attempt that succeeds, counted from 1, or 4 when none does
abbrev pub attempts_needed : (ℕ → Answer) → ℕ
attempts_needed server =
    if is_success (server 0)
    then 1
    else if is_success (server 1)
    then 2
    else if is_success (server 2)
    then 3
    else 4

attempts_lem :
    (server : ℕ → Answer)
    → ((attempt_rounds server 4 0).is_delivered ≡ (
        is_success (server 0)
        || is_success (server 1)
        || is_success (server 2)
        || is_success (server 3)))
      × ((attempt_rounds server 4 0).attempts ≡ attempts_needed server)
      × ((attempt_rounds server 4 0).waited ≤ 7)
unfolding attempt_rounds
attempts_lem server = (ground arith, ground arith, ground arith)

module _ (c : Crypto) (h : IsCrypto c) (dumps : Dict → String) (path_of : String → String) where
  open c use {PrivateKey, b64decode, public_of, verify}

  reports :
      (k : PrivateKey) (now : ℕ) (server : Post c → ℕ → Answer) (t : Task) (url : String)
      → t.callback_url ≡ some url
      → (deliver_callback c dumps path_of k now server t).1
        ≡ attempt_rounds (server (callback_post c dumps path_of k now url t)) 4 0
  unfolding deliver_callback
  reports k now server t url e = rw e refl

  -- The callback of a task with a URL is delivered exactly if one of at most four attempts is answered
  -- with a status from 200 to 299; the attempts end with the first such answer and wait seven seconds
  -- at most in all. The signature that the receiver reads from the header verifies with the server's
  -- public key, over the path of the URL, the timestamp header and the body that it got.
  pub deliver_callback_lem :
      (k : PrivateKey) (now : ℕ) (server : Post c → ℕ → Answer) (t : Task) (url : String)
      → t.callback_url ≡ some url
      → let post = callback_post c dumps path_of k now url t in
        let report = (deliver_callback c dumps path_of k now server t).1 in
        (report.is_delivered ≡ (
          is_success (server post 0)
          || is_success (server post 1)
          || is_success (server post 2)
          || is_success (server post 3)))
        × (report.attempts ≡ attempts_needed (server post))
        × (report.waited ≤ 7)
        × ((signature : c.Bytes) × (b64decode post.x_fleet_signature ≡ some signature)
            × (verify (public_of k) signature (
                  build_signing_string c "POST"
                    (callback_path c dumps path_of url)
                    post.x_fleet_timestamp
                    post.content)
                ≡ true))
  unfolding callback_post sign_callback
  deliver_callback_lem k now server t url e =
      let post = callback_post c dumps path_of k now url t in
      let (delivered, count, slept) = attempts_lem (server post) in
      let ran = reports k now server t url e in
      (
        ap (λ (r : Report). r.is_delivered) ran ∙ delivered,
        ap (λ (r : Report). r.attempts) ran ∙ count,
        subst (λ (r : Report). r.waited ≤ 7) (sym ran) slept,
        (_, h.b64decode_b64encode _, h.verify_sign k _),
      )
