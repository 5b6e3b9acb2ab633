-- ===== src/Onboarding/Tables.antt =====
-- What the steps of the opening leave in the tables.
use for_real_bank.Prelude.Text.{Text, text}
use for_real_bank.Prelude.{
  ℕ, zero, suc, ◌≡◌, refl, ◌⊎◌, inl, inr, Bool, true, false, ◌&&◌, Option, none, some, List, [],
  ◌∷◌, ◌++◌, arith, ◌==◌, if◌then◌else◌, Bool-cases,
}
use for_real_bank.Effect.{Result-cases, ok, err, Error, iban_taken}
use for_real_bank.InitiateTransfer.{AccountType}
use for_real_bank.Onboarding.{
  BankAccount, Investment, Card, Bank, World, type_eq, find_account, has_investment, has_card,
  random_digits, generate_iban, create_account, create_bank_account, open_account, open_investment,
  card_number, issue_card,
}

abbrev pub SameTables : Bank → Bank → Type 0
SameTables b b' =
    (b'.accounts ≡ b.accounts)
    × (b'.investments ≡ b.investments)
    × (b'.cards ≡ b.cards)
    × (b'.links ≡ b.links)

abbrev pub Opens : Bank → BankAccount → Bank → Type 0
Opens b a b' =
    (b'.accounts ≡ b.accounts ++ a ∷ [])
    × (b'.investments ≡ b.investments)
    × (b'.cards ≡ b.cards)
    × (b'.links ≡ b.links)

pub find_account-append :
    (u : ℕ) (t : AccountType) (as' : List BankAccount) (a : BankAccount)
    → find_account u t (as' ++ a ∷ []) ≡ elim (find_account u t as') [
      | none ↦ (if a.user_id == u && type_eq a.account_type t then some a else none)
      | some c ↦ some c
    ]
unfolding find_account
find_account-append u t [] a = refl
find_account-append u t (c ∷ cs) a = ground (arith, find_account-append u t cs a)

random_digits-SameTables : (W : World) (n : ℕ) (b : Bank) → SameTables b (random_digits W n b).1
unfolding random_digits
random_digits-SameTables W zero b = (refl, refl, refl, refl)
random_digits-SameTables W (suc n) b =
    random_digits-SameTables W n (record b { drawn = suc b.drawn })

generate_iban-SameTables : (W : World) (b : Bank) → SameTables b (generate_iban W b).1
unfolding generate_iban
generate_iban-SameTables W b = random_digits-SameTables W 23 b

create_account-Opens :
    (W : World) (u : ℕ) (name : Text) (t : AccountType) (number : Text) (rate : Option ℕ)
    (iban : Text) (b : Bank) (a : BankAccount)
    → (create_account W u name t number rate iban b).0 ≡ ok a
    → Opens b a (create_account W u name t number rate iban b).1
      × (a.user_id ≡ u)
      × (a.account_type ≡ t)
unfolding create_account
create_account-Opens W u name t number rate iban b a h = ground arith

create_account-error :
    (W : World) (u : ℕ) (name : Text) (t : AccountType) (number : Text) (rate : Option ℕ)
    (iban : Text) (b : Bank) (e : Error)
    → (create_account W u name t number rate iban b).0 ≡ err e
    → (create_account W u name t number rate iban b).1 ≡ b
unfolding create_account
create_account-error W u name t number rate iban b e h = ground arith

create_bank_account-Opens :
    (W : World) (n : ℕ) (last : Error) (u : ℕ) (name : Text) (t : AccountType) (number : Text)
    (rate : Option ℕ) (b : Bank) (a : BankAccount)
    → (create_bank_account W n last u name t number rate b).0 ≡ ok a
    → Opens b a (create_bank_account W n last u name t number rate b).1
      × (a.user_id ≡ u)
      × (a.account_type ≡ t)
unfolding create_bank_account
create_bank_account-Opens W zero last u name t number rate b a h = ground arith
create_bank_account-Opens W (suc n) last u name t number rate b a h =
    let b' = (generate_iban W b).1 in
    let iban = (generate_iban W b).0 in
    let same = generate_iban-SameTables W b in
    elim (Result-cases (create_account W u name t number rate iban b').0) [
      | inl (c, made) ↦ ground (arith, create_account-Opens W u name t number rate iban b' c made)
      | inr (e, failed) ↦ ground (
        arith,
        create_account-error W u name t number rate iban b' e failed,
        create_bank_account-Opens W n e u name t number rate b' a,
      )
    ]

pub open_account-lem :
    (W : World) (u : ℕ) (name : Text) (t : AccountType) (rate : Option ℕ) (o : Option BankAccount)
    (b : Bank) (a : BankAccount) (c : Bool)
    → (open_account W u name t rate o b).0 ≡ ok (a, c)
    → ((o ≡ some a) × ((open_account W u name t rate o b).1 ≡ b))
      ⊎ ((o ≡ none)
          × Opens b a (open_account W u name t rate o b).1
          × (a.user_id ≡ u)
          × (a.account_type ≡ t))
unfolding open_account
open_account-lem W u name t rate (some d) b a c h = inl (ground arith)
open_account-lem W u name t rate none b a c h =
    let b' = (random_digits W 4 b).1 in
    let number = text "****" ++ (random_digits W 4 b).0 in
    let same = random_digits-SameTables W 4 b in
    elim (Result-cases (create_bank_account W 3 iban_taken u name t number rate b').0) [
      | inl (d, made) ↦
          let opened = create_bank_account-Opens W 3 iban_taken u name t number rate b' d made in
          inr (refl, ground arith, ground arith, ground arith)
      | inr (e, failed) ↦ ground arith
    ]

has_card-append :
    (i : ℕ) (cs : List Card) (c : Card) → c.account_id ≡ i → has_card i (cs ++ c ∷ []) ≡ true
unfolding has_card
has_card-append i [] c e = ground arith
has_card-append i (d ∷ cs) c e = ground (arith, has_card-append i cs c e)

has_investment-append :
    (u : ℕ) (cs : List Investment) (c : Investment)
    → c.user_id ≡ u
    → has_investment u (cs ++ c ∷ []) ≡ true
unfolding has_investment
has_investment-append u [] c e = ground arith
has_investment-append u (d ∷ cs) c e = ground (arith, has_investment-append u cs c e)

card_number-SameTables :
    (W : World) (a : BankAccount) (b : Bank) → SameTables b (card_number W a b).1
unfolding card_number
card_number-SameTables W a b = ground (arith, random_digits-SameTables W 4 b)

pub issue_card-lem :
    (W : World) (a : BankAccount) (b : Bank)
    → (c : Bool) × ((issue_card W a b).0 ≡ ok c)
      × (has_card a.id (issue_card W a b).1.cards ≡ true)
      × ((issue_card W a b).1.accounts ≡ b.accounts)
      × ((issue_card W a b).1.investments ≡ b.investments)
      × ((issue_card W a b).1.links ≡ b.links)
unfolding issue_card
issue_card-lem W a b = elim (Bool-cases (has_card a.id b.cards)) [
  | inl has ↦ rw has (false, refl, has, refl, refl, refl)
  | inr lacks ↦
      let (accounts, investments, _, links) = card_number-SameTables W a b in
      rw lacks (
        true,
        refl,
        has_card-append a.id (card_number W a b).1.cards
            (record {
              id = W.uuid (card_number W a b).1.inserted;
              account_id = a.id;
              last_four = (card_number W a b).0;
              expiry_date = W.expiry;
            })
            refl,
        accounts,
        investments,
        links,
      )
]

pub open_investment-lem :
    (W : World) (u : ℕ) (b : Bank)
    → (c : Bool) × ((open_investment W u b).0 ≡ ok c)
      × (has_investment u (open_investment W u b).1.investments ≡ true)
      × ((open_investment W u b).1.accounts ≡ b.accounts)
      × ((open_investment W u b).1.links ≡ b.links)
unfolding open_investment
open_investment-lem W u b = elim (Bool-cases (has_investment u b.investments)) [
  | inl has ↦ rw has (false, refl, has, refl, refl)
  | inr lacks ↦ rw lacks (
    true,
    refl,
    has_investment-append u b.investments
        (record { id = W.uuid b.inserted; user_id = u; name = text "Compte Investissement" }) refl,
    refl,
    refl,
  )
]
