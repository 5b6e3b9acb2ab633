-- ===== src/Onboarding.antt =====
-- packages/application/src/onboarding/usecases/InitializeClientUseCase.ts: the accounts, the card and the
-- advisor of a new client, on the tables of the repositories that it calls.
pub mod Tables
pub mod Steps
pub mod Idempotent
use for_real_bank.Prelude.{
  any, keep, ℕ, zero, suc, ◌+◌, ◌-◌, ◌*◌, ◌≤◌, ◌<◌, ◌≡◌, refl, sym, ap, ◌∙◌, ◌≢◌, ◌↔◌, ◌⊎◌, inl,
  inr, Bool, true, false, not, ◌&&◌, ◌||◌, Option, none, some, List, [], ◌∷◌, ◌++◌, map, arith, ltb,
  leb, ◌==◌, if◌then◌else◌, length, Bool-cases, Option-cases, is_some,
}
use for_real_bank.Prelude.Text.{Text, text, text_eq, is_empty}
use for_real_bank.Effect.{
  Exec, Result, ok, err, Error, pure, throw, gets, or_throw, modify, ◌>>=◌, ◌>>◌, user_not_found,
  iban_taken, link_refused,
}
use for_real_bank.User.{User, has_role, client, advisor}
use for_real_bank.InitiateTransfer.{AccountType, checking, savings}
use for_real_bank.LeastLoaded.{pick_least_loaded_id}
use for_real_bank.Advisors.{AdvisorClient, find_advisor_of, count_by_advisor_ids, advisor_id_of}

pub record BankAccount : Type 0 where
  pub id : ℕ
  pub user_id : ℕ
  pub name : Text
  pub account_type : AccountType
  pub balance : ℕ
  pub iban : Text
  pub account_number : Text
  pub interest_rate : Option ℕ

pub record Investment : Type 0 where
  pub id : ℕ
  pub user_id : ℕ
  pub name : Text

-- A virtual card.
pub record Card : Type 0 where
  pub id : ℕ
  pub account_id : ℕ
  pub last_four : Text
  pub expiry_date : ℕ

-- The tables, and how many random numbers were drawn and how many rows were inserted.
pub record Bank : Type 0 where
  pub accounts : List BankAccount
  pub investments : List Investment
  pub cards : List Card
  pub links : List AdvisorClient
  pub drawn : ℕ
  pub inserted : ℕ

-- What is outside of the program: `random k n` is the value of `Math.floor(random() * n)` at the k-th call
-- of the generator, `uuid k` the identifier of the k-th inserted row, and `expiry` the date that
-- `setFullYear` gives.
pub record World : Type 0 where
  pub random : ℕ → ℕ → ℕ
  pub uuid : ℕ → ℕ
  pub expiry : ℕ
  pub find_user : ℕ → Option User
  pub list_users : List User

pub data Created : Type 0 where
  checking_created savings_created investment_created : Created

pub record InitializeResult : Type 0 where
  pub initialized : Bool
  pub created_accounts : List Created
  pub card_created : Bool
  pub advisor_id : Option ℕ
  pub advisor_assigned : Bool

abbrev pub type_eq : AccountType → AccountType → Bool
type_eq checking checking = true
type_eq checking savings = false
type_eq savings checking = false
type_eq savings savings = true

-- `find((a) => a.accountType === t)` among the accounts of a user.
unfoldable pub find_account : ℕ → AccountType → List BankAccount → Option BankAccount
find_account u t [] = none
find_account u t (a ∷ as') =
    if a.user_id == u && type_eq a.account_type t then some a else find_account u t as'

unfoldable pub has_investment : ℕ → List Investment → Bool
has_investment u is = any (λ i. i.user_id == u) is

unfoldable pub has_card : ℕ → List Card → Bool
has_card a cs = any (λ c. c.account_id == a) cs

abbrev pub is_digit : ℕ → Bool
is_digit c = leb 48 c && leb c 57

-- `slice(-4)`
abbrev pub last_four_of : Text → Text
last_four_of (a ∷ b ∷ c ∷ d ∷ e ∷ rest) = last_four_of (b ∷ c ∷ d ∷ e ∷ rest)
last_four_of t = t

-- `match(/.{1,4}/g)` joined by spaces.
abbrev pub grouped : Text → Text
grouped (a ∷ b ∷ c ∷ d ∷ e ∷ rest) = a ∷ b ∷ c ∷ d ∷ 32 ∷ grouped (e ∷ rest)
grouped t = t

abbrev pub flag : Bool → Created → List Created → List Created
flag true c cs = c ∷ cs
flag false c cs = cs

module _ (W : World) where
  -- `randomDigits`
  unfoldable pub random_digits : ℕ → Bank → Text × Bank
  random_digits zero b = ([], b)
  random_digits (suc n) b =
      let (rest, b') = random_digits n (record b { drawn = suc b.drawn }) in
      ((48 + W.random b.drawn 10) ∷ rest, b')

  unfoldable pub generate_iban : Bank → Text × Bank
  generate_iban b = let (digits, b') = random_digits 23 b in (text "FR76 " ++ grouped digits, b')

  -- `accountRepository.create`, on a table where the IBAN is unique.
  unfoldable pub create_account :
      ℕ → Text → AccountType → Text → Option ℕ → Text → Exec Bank BankAccount
  create_account u name t number rate iban b =
      if any (λ a. text_eq a.iban iban) b.accounts
      then (err iban_taken, b)
      else let a : BankAccount = record {
        id = W.uuid b.inserted;
        user_id = u;
        name = name;
        account_type = t;
        balance = 0;
        iban = iban;
        account_number = number;
        interest_rate = rate;
      } in
        (ok a, record b { accounts = b.accounts ++ a ∷ []; inserted = suc b.inserted })

  -- `createBankAccount`: a number of attempts, with the last error.
  unfoldable pub create_bank_account :
      ℕ → Error → ℕ → Text → AccountType → Text → Option ℕ → Exec Bank BankAccount
  create_bank_account zero last u name t number rate b = (err last, b)
  create_bank_account (suc n) last u name t number rate b =
      let (iban, b') = generate_iban b in
      let (r, b'') = create_account u name t number rate iban b' in
      elim r [ ok a ↦ (ok a, b'') | err e ↦ create_bank_account n e u name t number rate b'' ]

  -- The account of one kind, opened if it is missing, and whether it was.
  unfoldable pub open_account :
      ℕ → Text → AccountType → Option ℕ → Option BankAccount → Exec Bank (BankAccount × Bool)
  open_account u name t rate (some a) b = (ok (a, false), b)
  open_account u name t rate none b =
      let (digits, b') = random_digits 4 b in
      let (r, b'') = create_bank_account 3 iban_taken u name t (text "****" ++ digits) rate b' in
      elim r [ ok a ↦ (ok (a, true), b'') | err e ↦ (err e, b'') ]

  unfoldable pub open_investment : ℕ → Exec Bank Bool
  open_investment u b = if has_investment u b.investments then (ok false, b) else (
    ok true,
    record b {
      investments =
          b.investments
          ++ record { id = W.uuid b.inserted; user_id = u; name = text "Compte Investissement" }
            ∷ [];
      inserted = suc b.inserted;
    },
  )

  unfoldable pub card_number : BankAccount → Bank → Text × Bank
  card_number a b =
      let digits = last_four_of (keep is_digit a.account_number) in
      if is_empty digits then random_digits 4 b else (digits, b)

  unfoldable pub issue_card : BankAccount → Exec Bank Bool
  issue_card a b =
      if has_card a.id b.cards
      then (ok false, b)
      else let (number, b') = card_number a b in
        (
          ok true,
          record b' {
            cards =
                b'.cards
                ++ record {
                  id = W.uuid b'.inserted;
                  account_id = a.id;
                  last_four = number;
                  expiry_date = W.expiry;
                }
                  ∷ [];
            inserted = suc b'.inserted;
          },
        )

  -- `AdvisorClientRepository.link`
  unfoldable pub link : ℕ → ℕ → Exec Bank (Unit {0})
  link advisor_id client_id b =
      if advisor_id == client_id
        || not (is_some (W.find_user advisor_id))
        || not (is_some (W.find_user client_id))
        || is_some (find_advisor_of client_id b.links)
      then (err link_refused, b)
      else (
        ok tt,
        record b {
          links =
              b.links
              ++ record { id = W.uuid b.inserted; advisor_id = advisor_id; client_id = client_id }
                ∷ [];
          inserted = suc b.inserted;
        },
      )

  unfoldable pub active_advisors : List ℕ
  active_advisors =
      map (λ u. u.id) (keep (λ u. has_role u.roles advisor && not u.is_banned) W.list_users)

  unfoldable pub link_chosen : ℕ → Option ℕ → Exec Bank (Option ℕ × Bool)
  link_chosen u none b = (ok (none, false), b)
  link_chosen u (some a) b =
      let (r, b') = link a u b in
      elim r [
        | ok _ ↦ (ok (some a, true), b')
        | err e ↦ (ok (advisor_id_of (find_advisor_of u b'.links), false), b')
      ]

  unfoldable pub assign_advisor : ℕ → Exec Bank (Option ℕ × Bool)
  assign_advisor u b = elim (find_advisor_of u b.links) [
    | some l ↦ (ok (some l.advisor_id, false), b)
    | none ↦ elim active_advisors [
      | [] ↦ (ok (none, false), b)
      | a ∷ as' ↦
          link_chosen u
            (pick_least_loaded_id (W.random b.drawn) (count_by_advisor_ids (a ∷ as') b.links))
            (record b { drawn = suc b.drawn })
    ]
  ]

  unfoldable pub open_all : ℕ → Exec Bank InitializeResult
  open_all u = do
    existing ← gets (λ b. b.accounts)
    (current, c) ←
        open_account u (text "Compte Courant") checking none (find_account u checking existing)
    (deposit, s) ←
        open_account u (text "Compte Épargne") savings (some 250) (find_account u savings existing)
    i ← open_investment u
    card ← issue_card current
    (chosen, assigned) ← assign_advisor u
    pure (record {
      initialized = true;
      created_accounts =
          flag c checking_created (flag s savings_created (flag i investment_created []));
      card_created = card;
      advisor_id = chosen;
      advisor_assigned = assigned;
    })

  -- `execute`
  unfoldable pub initialize : ℕ → Exec Bank InitializeResult
  initialize u b = elim (W.find_user u) [
    | none ↦ (err user_not_found, b)
    | some user ↦ if has_role user.roles client then open_all u b else (
      ok (record {
        initialized = false;
        created_accounts = [];
        card_created = false;
        advisor_id = none;
        advisor_assigned = false;
      }),
      b,
    )
  ]
