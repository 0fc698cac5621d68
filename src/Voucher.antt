-- ===== src/Voucher.antt =====
-- app/services/uin_voucher.py: the documents that the till signs, and the island's check of each. A
-- number that a document names is taken to be at least 0.
pub mod Verify
pub mod Docs
pub mod Checked
pub mod Signed
pub mod Refusals
pub mod Carried
pub mod Tests
use Prim.Native.String.{String, count}
use rcq_server_ref.Base.{
  ℕ, ℤ, pos, negsuc, List, Option, Bool, none, some, [], ◌∷◌, true, false, not, ◌&&◌, ◌||◌, ltb,
  leb, ◌==◌, ◌-◌, ◌*◌, if◌then◌else◌, same_text,
}

-- A value of a document that is signed.
pub data Field : Type 0 where
  number : ℤ → Field
  text : String → Field

abbrev pub Document : Type 0
Document = List (String × Field)

-- What the module calls of base64, json, str and cryptography. `loads` is `b64decode` and
-- `json.loads`: nothing where either fails, and then nothing where the document is not an object.
pub record Codec : Type 1 where
  pub Value : Type 0
  pub Bytes : Type 0
  pub strip : String → String
  pub lower : String → String
  pub is_ascii : String → Bool
  pub loads : String → Option (Option (List (String × Value)))
  pub is_number : ℕ → Value → Bool
  pub is_text : String → Value → Bool
  pub int_of : Value → Option ℤ
  pub uin_of : Value → Option ℕ
  pub str_of : Value → String
  pub b64decode : String → Option String
  pub dumps : Document → Bytes
  pub verifies : String → String → Bytes → Bool

-- `VoucherError.code`
pub data Code : Type 0 where
  sales_disabled : Code
  bad_voucher : Code
  voucher_other_uin : Code
  voucher_other_island : Code
  voucher_expired : Code

pub data Outcome (A : Type 0) : Type 0 where
  ok : A → Outcome A
  refused : Code → Outcome A

infixl 5 ◌>>=◌ ◌>>◌
abbrev pub ◌>>=◌ : {A B : Type 0} → Outcome A → (A → Outcome B) → Outcome B
ok a >>= f = f a
refused e >>= f = refused e

abbrev pub ◌>>◌ : {B : Type 0} → Outcome (Unit {0}) → Outcome B → Outcome B
m >> k = m >>= λ _. k

abbrev pub check : Bool → Code → Outcome (Unit {0})
check true e = ok tt
check false e = refused e

abbrev pub or_refuse : {A : Type 0} → Code → Option A → Outcome A
or_refuse e none = refused e
or_refuse e (some a) = ok a

abbrev pub max_age_seconds : ℕ
max_age_seconds = 7 * 24 * 3600

abbrev pub entry_max_age_seconds : ℕ
entry_max_age_seconds = 366 * 24 * 3600

abbrev pub hold_max_age_seconds : ℕ
hold_max_age_seconds = 600

-- `_HOLD_KINDS`
pub data HoldKind : Type 0 where
  hold : HoldKind
  release : HoldKind

abbrev pub hold_text : HoldKind → String
hold_text hold = "hold"
hold_text release = "release"

-- The documents, field by field.
abbrev pub signed_doc : ℕ → String → ℤ → Document
signed_doc uin nonce exp =
    ("v", number (pos 1))
    ∷ ("uin", number (pos uin))
    ∷ ("nonce", text nonce)
    ∷ ("exp", number exp)
    ∷ []

abbrev pub resale_signed_doc : ℕ → String → ℤ → String → ℤ → Document
resale_signed_doc uin listing_id price_cents nonce exp =
    ("v", number (pos 1))
    ∷ ("kind", text "resale")
    ∷ ("uin", number (pos uin))
    ∷ ("listing", text listing_id)
    ∷ ("price_cents", number price_cents)
    ∷ ("nonce", text nonce)
    ∷ ("exp", number exp)
    ∷ []

abbrev pub entry_signed_doc : String → String → ℤ → Document
entry_signed_doc host nonce exp =
    ("v", number (pos 1))
    ∷ ("kind", text "entry")
    ∷ ("host", text host)
    ∷ ("nonce", text nonce)
    ∷ ("exp", number exp)
    ∷ []

abbrev pub payout_signed_doc : ℕ → ℤ → Document
payout_signed_doc uin exp =
    ("v", number (pos 1))
    ∷ ("kind", text "payout")
    ∷ ("uin", number (pos uin))
    ∷ ("exp", number exp)
    ∷ []

abbrev pub entry_payout_signed_doc : String → ℤ → Document
entry_payout_signed_doc host exp =
    ("v", number (pos 1))
    ∷ ("kind", text "entry_payout")
    ∷ ("host", text host)
    ∷ ("exp", number exp)
    ∷ []

abbrev pub hold_signed_doc : HoldKind → ℕ → String → ℤ → Document
hold_signed_doc kind uin hold_id exp =
    ("v", number (pos 1))
    ∷ ("kind", text (hold_text kind))
    ∷ ("uin", number (pos uin))
    ∷ ("hold_id", text hold_id)
    ∷ ("exp", number exp)
    ∷ []

-- `exp <= seconds` and `exp - seconds > most`.
abbrev pub is_past : ℕ → ℤ → Bool
is_past now (negsuc n) = true
is_past now (pos exp) = leb exp now

abbrev pub is_too_far : ℕ → ℕ → ℤ → Bool
is_too_far most now (negsuc n) = false
is_too_far most now (pos exp) = ltb most (exp - now)

abbrev pub is_negative : ℤ → Bool
is_negative (pos n) = false
is_negative (negsuc n) = true

-- The two clocks: the vouchers and the hold tell an expired document from one that lives too long.
unfoldable pub in_window : ℕ → ℕ → ℤ → Outcome (Unit {0})
in_window most now exp =
    check (not (is_past now exp)) voucher_expired
    >> check (not (is_too_far most now exp)) bad_voucher

unfoldable pub in_short_window : ℕ → ℕ → ℤ → Outcome (Unit {0})
in_short_window most now exp =
    check (not (is_past now exp || is_too_far most now exp)) voucher_expired

-- `os.environ.get("RCQ_UIN_VOUCHER_PUBKEY")` behind the console's value.
abbrev pub nonempty : String → Option String
nonempty s = if same_text s "" then none else some s

module _ (c : Codec) where
  abbrev pub env_key : Option String → Option String
  env_key none = none
  env_key (some env) = nonempty (c.strip env)

  unfoldable pub public_key_b64 : Option String → Option String → Option String
  public_key_b64 none env = env_key env
  public_key_b64 (some override) env = if same_text override "" then env_key env else some override

  -- `doc.get(key)` and `doc[key]`
  abbrev pub get : String → List (String × c.Value) → Option c.Value
  get key [] = none
  get key ((k, v) ∷ fields) = if same_text k key then some v else get key fields

  abbrev pub holds : (c.Value → Bool) → Option c.Value → Bool
  holds test none = false
  holds test (some v) = test v

  -- The key, and the object with the version and, where there is one, the kind.
  unfoldable pub opened : Option String → String → Outcome (String × List (String × c.Value))
  opened key voucher = do
    k ← or_refuse sales_disabled key
    doc ← or_refuse bad_voucher (c.loads (c.strip voucher))
    fields ← or_refuse bad_voucher doc
    check (holds (c.is_number 1) (get "v" fields)) bad_voucher
    ok (k, fields)

  unfoldable pub is_of_kind : String → List (String × c.Value) → Bool
  is_of_kind kind fields = holds (c.is_text kind) (get "kind" fields)

  unfoldable pub int_field : String → List (String × c.Value) → Outcome ℤ
  int_field key fields = do
    v ← or_refuse bad_voucher (get key fields)
    or_refuse bad_voucher (c.int_of v)

  unfoldable pub uin_field : List (String × c.Value) → Outcome ℕ
  uin_field fields = do
    v ← or_refuse bad_voucher (get "uin" fields)
    or_refuse bad_voucher (c.uin_of v)

  unfoldable pub text_field : String → List (String × c.Value) → Outcome String
  text_field key fields = do v ← or_refuse bad_voucher (get key fields); ok (c.str_of v)

  unfoldable pub sig_field : List (String × c.Value) → Outcome String
  unfolding text_field
  sig_field fields = do s ← text_field "sig" fields; or_refuse bad_voucher (c.b64decode s)

  -- `lowest <= len(s) <= highest and s.isascii()`
  unfoldable pub is_word : ℕ → ℕ → String → Bool
  is_word lowest highest s = leb lowest (count s) && (leb (count s) highest && c.is_ascii s)

  unfoldable pub same_host : String → String → Bool
  same_host host expect = same_text (c.lower (c.strip host)) expect
