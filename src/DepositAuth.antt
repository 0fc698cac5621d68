-- ===== src/DepositAuth.antt =====
-- Deposit tokens (app/core/deposit_auth_store.py): the issuer's key, issuing and spending, on what
-- Redis holds. Times are in seconds. The cache of the parsed key is left out, since it only parses.
pub mod Spent
mod Tests
use Prim.Native.String.{String}
use rcq_server_ref.Base.{
  ℕ, List, Option, Bool, none, some, [], ◌∷◌, true, false, any, filter, not, ◌&&◌, ltb, ◌+◌, ◌*◌,
  if◌then◌else◌, same_text, joined,
}

-- What the module calls of base64 and of app/core/deposit_auth.py, which is RSA and hashing.
pub record Crypto : Type 1 where
  pub Key : Type 0
  pub Bytes : Type 0
  pub epoch_id : Key → String
  pub verify : Key → Bytes → Bytes → Bool
  pub token_id : Bytes → Bytes → String
  pub b64decode : String → Option Bytes
  pub verify_pow : String → String → ℕ → Bool
  pub blind_sign : Bytes → Key → Option Bytes

-- A spent entry, and the moment at which Redis drops it.
pub record SpentEntry : Type 0 where
  pub epoch : String
  pub token_id : String
  pub expires : ℕ

-- The fields of a token, where they are there: `str` of the epoch, and the other two where they are
-- texts.
pub record Token : Type 0 where
  pub epoch_id : Option String
  pub prepared : Option String
  pub sig : Option String

abbrev pub spent_ttl : ℕ
spent_ttl = 14 * 24 * 3600

abbrev pub is_entry : String → String → SpentEntry → Bool
is_entry epoch id s = same_text s.epoch epoch && same_text s.token_id id

abbrev pub is_live_entry : ℕ → String → String → SpentEntry → Bool
is_live_entry now epoch id s = is_entry epoch id s && ltb now s.expires

-- `redis.set(key, "1", nx=True, ex=spent_ttl)`
unfoldable pub set_nx : ℕ → ℕ → String → String → List SpentEntry → List SpentEntry × Bool
set_nx now ttl epoch id spent = if any (is_live_entry now epoch id) spent then (spent, false) else (
  record { epoch = epoch; token_id = id; expires = now + ttl }
      ∷ filter (λ (s : SpentEntry). not (is_entry epoch id s)) spent,
  true,
)

-- Why no token is issued.
pub data Refusal : Type 0 where
  stale_epoch : Refusal
  bad_base64 : Refusal
  low_pow : Refusal
  malformed : Refusal

module _ (c : Crypto) where
  pub record Store : Type 0 where
    pub issuer : Option c.Key
    pub spent : List SpentEntry

  pub data Signing : Type 0 where
    signature_of : c.Bytes → Signing
    no_signature : Refusal → Signing

  -- `fresh` is the key that is made where Redis has none.
  unfoldable pub issuer_key : c.Key → Option c.Key → c.Key
  issuer_key fresh none = fresh
  issuer_key fresh (some key) = key

  abbrev pub decoded : Option String → Option c.Bytes
  decoded none = none
  decoded (some s) = c.b64decode s

  -- The fields of the `try`.
  unfoldable pub token_parts : Token → Option (String × c.Bytes × c.Bytes)
  token_parts token = elim token.epoch_id [
    | none ↦ none
    | some epoch ↦ elim (decoded token.prepared) [
      | none ↦ none
      | some prepared ↦ elim (decoded token.sig) [
        | none ↦ none
        | some sig ↦ some (epoch, prepared, sig)
      ]
    ]
  ]

  -- Behind the `try`.
  unfoldable pub consume :
      ℕ → ℕ → c.Key → Store → Option (String × c.Bytes × c.Bytes) → Store × Bool
  unfolding set_nx
  consume now ttl fresh store none = (store, false)
  consume now ttl fresh store (some (epoch, prepared, sig)) =
      let key = issuer_key fresh store.issuer in
      let store' = record store { issuer = some key } in
      if not (same_text epoch (c.epoch_id key))
      then (store', false)
      else if not (c.verify key prepared sig)
      then (store', false)
      else (
        record store' { spent = (set_nx now ttl epoch (c.token_id prepared sig) store.spent).0 },
        (set_nx now ttl epoch (c.token_id prepared sig) store.spent).1,
      )

  unfoldable pub verify_and_consume_token : ℕ → ℕ → c.Key → Token → Store → Store × Bool
  unfolding token_parts consume
  verify_and_consume_token now ttl fresh token store =
      consume now ttl fresh store (token_parts token)

  -- `sign_blinded`: the signature, or the reason. `blind_sign` gives nothing where it raises.
  unfoldable pub signed_or : Store → Option c.Bytes → Store × Signing
  signed_or store none = (store, no_signature malformed)
  signed_or store (some signature) = (store, signature_of signature)

  unfoldable pub sign_decoded :
      c.Key → Store → String → String → String → ℕ → Option c.Bytes → Store × Signing
  unfolding signed_or
  sign_decoded key store epoch_id blinded_b64 pow_nonce pow_bits none =
      (store, no_signature bad_base64)
  sign_decoded key store epoch_id blinded_b64 pow_nonce pow_bits (some blinded) =
      if not (c.verify_pow (joined (epoch_id ∷ ":" ∷ blinded_b64 ∷ [])) pow_nonce pow_bits)
      then (store, no_signature low_pow)
      else signed_or store (c.blind_sign blinded key)

  unfoldable pub sign_blinded : c.Key → Store → String → String → String → ℕ → Store × Signing
  unfolding issuer_key sign_decoded
  sign_blinded fresh store epoch_id blinded_b64 pow_nonce pow_bits =
      let key = issuer_key fresh store.issuer in
      let store' = record store { issuer = some key } in
      if not (same_text epoch_id (c.epoch_id key))
      then (store', no_signature stale_epoch)
      else sign_decoded key store' epoch_id blinded_b64 pow_nonce pow_bits (c.b64decode blinded_b64)
