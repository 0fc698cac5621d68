-- ===== src/Shop/Register.antt =====
-- What the shop promises, apart from its tables: who answers as a number, who holds it, what it is
-- offered for, which nonces are spent, and what may happen to these.
use Prim.Native.String.{String}
use rcq_server_ref.Base.{
  ℕ, List, Option, Bool, none, some, ◌∷◌, true, false, ◌≡◌, ◌≢◌, ◌==◌, if◌then◌else◌, ◌∈◌, ◌⊎◌,
}
use rcq_server_ref.Uin.Shape.{is_reserved_uin}

-- Who sells a number, under which name, and at which price.
pub record Terms : Type 0 where
  pub seller : ℕ
  pub name : String
  pub price : ℕ

pub record Register : Type 0 where
  pub answers : ℕ → Bool
  pub holder : ℕ → Option ℕ
  pub offered : ℕ → Option Terms
  pub spent : List String

abbrev pub put : {A : Type 0} → ℕ → A → (ℕ → A) → ℕ → A
put n a f u = if u == n then a else f u

abbrev pub renamed : ℕ → ℕ → ℕ → ℕ
renamed old_uin new_uin u = if u == old_uin then new_uin else u

abbrev pub renamed_holder : ℕ → ℕ → Option ℕ → Option ℕ
renamed_holder old_uin new_uin none = none
renamed_holder old_uin new_uin (some u) = some (renamed old_uin new_uin u)

abbrev pub renamed_terms : ℕ → ℕ → Option Terms → Option Terms
renamed_terms old_uin new_uin none = none
renamed_terms old_uin new_uin (some t) =
    some (record t { seller = renamed old_uin new_uin t.seller })

-- A number without a holder is given to its last account where it is scarce.
abbrev pub kept_by : ℕ → ℕ → Option ℕ → Option ℕ
kept_by old_uin new_uin none = if is_reserved_uin old_uin then some new_uin else none
kept_by old_uin new_uin (some u) = some u

-- The account at the old number goes on at the new one.
abbrev pub moved : ℕ → ℕ → Register → Register
moved old_uin new_uin r = record r {
  answers = λ u. if u == old_uin then false else if u == new_uin then true else r.answers u;
  holder = λ u.
      let h = renamed_holder old_uin new_uin (r.holder u) in
      if u == old_uin then kept_by old_uin new_uin h else h;
  offered = λ u. renamed_terms old_uin new_uin (r.offered u);
}

pub data Deal : Register → Register → Type 0 where
  -- A voucher buys a number that is nobody's.
  sell :
      (r : Register) (nonce : String) (n buyer : ℕ)
      → ¬ (nonce ∈ r.spent)
      → r.answers n ≡ false
      → r.holder n ≡ none
      → r.offered n ≡ none
      → Deal r (record r { holder = put n (some buyer) r.holder; spent = nonce ∷ r.spent })
  -- A voucher for an offer buys the number of its seller, who still holds it.
  resell :
      (r : Register) (nonce : String) (n buyer : ℕ) (t : Terms)
      → ¬ (nonce ∈ r.spent)
      → r.offered n ≡ some t
      → r.holder n ≡ some t.seller
      → t.seller ≢ buyer
      → Deal r (record r {
        holder = put n (some buyer) r.holder;
        offered = put n none r.offered;
        spent = nonce ∷ r.spent;
      })
  -- A number that is nobody's and not scarce is taken for nothing.
  give :
      (r : Register) (n taker : ℕ)
      → is_reserved_uin n ≡ false
      → r.answers n ≡ false
      → r.holder n ≡ none
      → r.offered n ≡ none
      → Deal r (record r { holder = put n (some taker) r.holder })
  give_up :
      (r : Register) (n holder : ℕ)
      → n ≢ holder
      → r.holder n ≡ some holder
      → r.offered n ≡ none
      → Deal r (record r { holder = put n none r.holder })
  -- The holder of a number names a price for it, or another price.
  offer :
      (r : Register) (n : ℕ) (t : Terms)
      → n ≢ t.seller
      → r.holder n ≡ some t.seller
      → Deal r (record r { offered = put n (some t) r.offered })
  withdraw :
      (r : Register) (n : ℕ) (t : Terms)
      → r.offered n ≡ some t
      → Deal r (record r { offered = put n none r.offered })
  -- An account moves onto a number that it holds, or that is nobody's and not scarce.
  move :
      (r : Register) (old_uin new_uin : ℕ)
      → r.answers old_uin ≡ true
      → r.answers new_uin ≡ false
      → ((r.holder new_uin ≡ none) × (is_reserved_uin new_uin ≡ false))
        ⊎ (r.holder new_uin ≡ some old_uin)
      → r.offered new_uin ≡ none
      → Deal r (moved old_uin new_uin r)
  -- A voucher for entry is spent, and a new account answers as a number that is nobody's.
  admit :
      (r : Register) (nonce : String)
      → ¬ (nonce ∈ r.spent)
      → Deal r (record r { spent = nonce ∷ r.spent })
  enter :
      (r : Register) (n : ℕ)
      → r.answers n ≡ false
      → r.holder n ≡ none
      → r.offered n ≡ none
      → Deal r (record r { answers = put n true r.answers })

pub data Deals : Register → Register → Type 0 where
  stand : (r : Register) → Deals r r
  then_deal : (r s t : Register) → Deals r s → Deal s t → Deals r t

-- Nobody answers as a number that another one holds; what is offered is its seller's; and nobody
-- answers as a number that is offered.
pub record IsSound (r : Register) : Type 0 where
  pub own : (n h : ℕ) → r.answers n ≡ true → r.holder n ≡ some h → h ≡ n
  pub backed : (n : ℕ) (t : Terms) → r.offered n ≡ some t → r.holder n ≡ some t.seller
  pub idle : (n : ℕ) (t : Terms) → r.offered n ≡ some t → r.answers n ≡ false
