-- ===== src/Voucher/Tests.antt =====
-- Runs of the checks of vouchers, and the theorems at them.
use Prim.Native.String.{String}
use rcq_server_ref.Base.{
  ℕ, ℤ, pos, negsuc, arith, List, Option, Bool, none, some, [], ◌∷◌, true, false, ◌≡◌, ◌∈◌, inl,
  inr, refl, sym, ap, ◌&&◌, ◌||◌, ◌==◌, same_text, same_text_iff, if◌then◌else◌, Bool-cases, subst,
}
use rcq_server_ref.Voucher.{
  Codec, Document, Field, number, text, ok, refused, voucher_other_uin, voucher_expired,
  bad_voucher, hold, signed_doc, max_age_seconds, is_word, get,
}
use rcq_server_ref.Voucher.Docs.{TillDoc, voucher, held, document, field, SameFields}
use rcq_server_ref.Voucher.Checked.{IsLive}
use rcq_server_ref.Voucher.Signed.{verify-issued}
use rcq_server_ref.Voucher.Carried.{Reads, verify-signed_doc}
use rcq_server_ref.Voucher.Verify.{verify}

abbrev same_int : ℤ → ℤ → Bool
same_int (pos m) (pos n) = m == n
same_int (pos m) (negsuc n) = false
same_int (negsuc m) (pos n) = false
same_int (negsuc m) (negsuc n) = m == n

abbrev same_field : Field → Field → Bool
same_field (number m) (number n) = same_int m n
same_field (number m) (text s) = false
same_field (text r) (number n) = false
same_field (text r) (text s) = same_text r s

abbrev same_doc : Document → Document → Bool
same_doc [] [] = true
same_doc [] (f ∷ b) = false
same_doc (f ∷ a) [] = false
same_doc ((j, f) ∷ a) ((k, g) ∷ b) = same_text j k && (same_field f g && same_doc a b)

same_field_lem : (f g : Field) → same_field f g ≡ true → f ≡ g
same_field_lem (number (pos m)) (number (pos n)) h = let e : m ≡ n = ground arith in rw e refl
same_field_lem (number (pos m)) (number (negsuc n)) h = absurd (cc h)
same_field_lem (number (negsuc m)) (number (pos n)) h = absurd (cc h)
same_field_lem (number (negsuc m)) (number (negsuc n)) h = let e : m ≡ n = ground arith in rw e refl
same_field_lem (number m) (text s) h = absurd (cc h)
same_field_lem (text r) (number n) h = absurd (cc h)
same_field_lem (text r) (text s) h = ap text ((same_text_iff r s).0 h)

same_doc_lem : (a b : Document) → same_doc a b ≡ true → a ≡ b
same_doc_lem [] [] h = refl
same_doc_lem [] (f ∷ b) h = absurd (cc h)
same_doc_lem (f ∷ a) [] h = absurd (cc h)
same_doc_lem ((j, f) ∷ a) ((k, g) ∷ b) h =
    let p : j ≡ k = (same_text_iff j k).0 (ground arith) in
    let q : f ≡ g = same_field_lem f g (ground arith) in
    let r : a ≡ b = same_doc_lem a b (ground arith) in rw (p, q, r) refl

abbrev till_nonce : String
till_nonce = "0123456789abcdef"

-- A till that has sold number 7771234 and holds number 500.
abbrev pub sold : TillDoc
sold = voucher 7771234 till_nonce (pos 1000)

abbrev pub reserved : TillDoc
reserved = held hold 500 "sale" (pos 400)

abbrev pub issued : List TillDoc
issued = sold ∷ reserved ∷ []

-- A codec that knows two texts; a field stands for itself.
abbrev number_of : Field → Option ℤ
number_of (number n) = some n
number_of (text s) = none

abbrev natural_of : Field → Option ℕ
natural_of (number (pos n)) = some n
natural_of (number (negsuc n)) = none
natural_of (text s) = none

abbrev text_of : Field → String
text_of (number n) = ""
text_of (text s) = s

abbrev is_the_number : ℕ → Field → Bool
is_the_number n (number m) = same_int m (pos n)
is_the_number n (text s) = false

abbrev is_the_text : String → Field → Bool
is_the_text s (number n) = false
is_the_text s (text t) = same_text t s

abbrev with_sig : Document → Document
with_sig doc = ("sig", text "ok") ∷ doc

abbrev pub codec : Codec
codec = record {
  Value = Field;
  Bytes = Document;
  strip = λ s. s;
  lower = λ s. s;
  is_ascii = λ s. true;
  loads = λ t.
      if same_text t "sold"
      then some (some (with_sig (document sold)))
      else if same_text t "reserved"
      then some (some (with_sig (document reserved)))
      else none;
  is_number = is_the_number;
  is_text = is_the_text;
  int_of = number_of;
  uin_of = natural_of;
  str_of = text_of;
  b64decode = λ s. some s;
  dumps = λ doc. doc;
  verifies = λ k sig b. same_doc (document sold) b || same_doc (document reserved) b;
}

pub codec-unforgeable :
    (k sig : String) (b : Document)
    → codec.verifies k sig b ≡ true
    → (d : TillDoc) × (d ∈ issued) × (document d ≡ b)
codec-unforgeable k sig b h = elim (Bool-cases (same_doc (document sold) b)) [
  | inl e ↦ (sold, inl refl, same_doc_lem (document sold) b e)
  | inr e ↦ (reserved, inr (inl refl), same_doc_lem (document reserved) b (rw e at h))
]

pub codec-told_apart : (a b : Document) → a ≡ b → SameFields a b
codec-told_apart a b e key = ap (field key) e

accepted : verify codec (some "till") 900 "sold" 7771234 ≡ ok till_nonce
unfolding verify
accepted = refl

other_number : verify codec (some "till") 900 "sold" 7771235 ≡ refused voucher_other_uin
unfolding verify
other_number = refl

too_late : verify codec (some "till") 1000 "sold" 7771234 ≡ refused voucher_expired
unfolding verify
too_late = refl

-- A request for a hold is no voucher.
other_kind : verify codec (some "till") 100 "reserved" 500 ≡ refused bad_voucher
unfolding verify
other_kind = refl

verify-issued_example :
    (exp : ℤ) × (voucher 7771234 till_nonce exp ∈ issued) × IsLive max_age_seconds 900 exp
verify-issued_example =
    verify-issued codec "till" issued (codec-unforgeable "till") codec-told_apart 900 "sold" 7771234
      till_nonce accepted

read_field :
    (key : String) (f : Field)
    → field key (document sold) ≡ some f
    → get codec key (with_sig (document sold)) ≡ some f
read_field key f h = elim (Bool-cases (same_text "sig" key)) [
  | inl e ↦
      let q : "sig" ≡ key = (same_text_iff "sig" key).0 e in
      let h' : field "sig" (document sold) ≡ some f =
        subst (λ x. field x (document sold) ≡ some f) (sym q) h in
      absurd (cc h')
  | inr e ↦ rw e h
]

sold_read : Reads codec "sold" (signed_doc 7771234 till_nonce (pos 1000)) "ok"
sold_read = record {
  fields = with_sig (document sold);
  loaded = refl;
  integer = λ key n h. (number n, read_field key (number n) h, refl);
  natural = λ key n h. (number (pos n), read_field key (number (pos n)) h, refl, ground arith);
  word = λ key w h. (text w, read_field key (text w) h, refl, (same_text_iff w w).1 refl);
  signature = (text "ok", refl, refl);
}

verify-signed_doc_example : verify codec (some "till") 900 "sold" 7771234 ≡ ok till_nonce
unfolding is_word
verify-signed_doc_example =
    verify-signed_doc codec "till" 900 "sold" 7771234 till_nonce 1000 "ok" sold_read refl refl
      (omega arith) (omega arith)
