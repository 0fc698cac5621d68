-- ===== src/DepositAuth/Tests.antt =====
-- Runs of the deposit tokens, and the theorems at them.
use Prim.Native.String.{String}
use rcq_server_ref.Base.{arith, some, [], ◌∷◌, true, false, ◌≡◌, ◌≤◌, ◌+◌, ◌↔◌, refl, same_text}
use rcq_server_ref.DepositAuth.{
  Crypto, Token, Store, spent_ttl, verify_and_consume_token, issuer_key,
}
use rcq_server_ref.DepositAuth.Spent.{redeem_all, single_use, taken_again}

-- A signature is good where it spells the key.
abbrev crypto : Crypto
crypto = record {
  Key = String;
  Bytes = String;
  epoch_id = λ k. k;
  verify = λ k prepared sig. same_text sig k;
  token_id = λ prepared sig. prepared;
  b64decode = λ s. some s;
  verify_pow = λ b n bits. true;
  blind_sign = λ b k. some k;
}

abbrev token : String → Token
token prepared = record { epoch_id = some "k1"; prepared = some prepared; sig = some "k1" }

abbrev empty : Store crypto
empty = record { issuer = some "k1"; spent = [] }

taken : (verify_and_consume_token crypto 10 spent_ttl "k2" (token "a") empty).1 ≡ true
unfolding verify_and_consume_token issuer_key
taken = refl

forged :
    (verify_and_consume_token crypto 10 spent_ttl "k2"
      (record (token "a") { sig = some "x" })
      empty).1
    ≡ false
unfolding verify_and_consume_token issuer_key
forged = refl

single_use_example :
    (verify_and_consume_token crypto 900 spent_ttl "k2" (token "a") (
      redeem_all crypto spent_ttl
        (record { at = 20; fresh = "k3"; token = token "b" } ∷ [])
        (verify_and_consume_token crypto 10 spent_ttl "k2" (token "a") empty).0)).1
    ≡ false
single_use_example =
    single_use crypto 10 spent_ttl "k2" (token "a") empty
      (record { at = 20; fresh = "k3"; token = token "b" } ∷ []) 900 "k2" taken (omega arith, tt)
      (omega arith)

taken_again_example :
    ((verify_and_consume_token crypto 1209610 spent_ttl "k2"
        (token "a")
        (verify_and_consume_token crypto 10 spent_ttl "k2" (token "a") empty).0).1
      ≡ true)
    ↔ (10 + spent_ttl ≤ 1209610)
taken_again_example = taken_again crypto 10 spent_ttl "k2" (token "a") empty 1209610 "k2" taken
