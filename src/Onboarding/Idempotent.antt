-- ===== src/Onboarding/Idempotent.antt =====
-- An initialisation completes what is missing, and a second one changes nothing.
use for_real_bank.Prelude.{
  ℕ, ◌≡◌, refl, sym, ap, ◌∙◌, inl, inr, Bool, true, false, Option, none, some, List, [], ◌∷◌, ◌++◌,
  arith, Bool-cases, Option-cases, is_some,
}
use for_real_bank.Prelude.Text.{Text, text}
use for_real_bank.Effect.{ok}
use for_real_bank.User.{User, has_role, client}
use for_real_bank.InitiateTransfer.{AccountType, checking, savings}
use for_real_bank.Advisors.{advisor_id_of, find_advisor_of}
use for_real_bank.Onboarding.{
  BankAccount, Bank, World, InitializeResult, type_eq, find_account, has_investment, has_card,
  open_account, open_investment, issue_card, open_all, initialize,
}
use for_real_bank.Onboarding.Tables.{
  open_account-lem, issue_card-lem, open_investment-lem, find_account-append,
}
use for_real_bank.Onboarding.Steps.{
  opened_checking, opened_savings, opened_investment, issued, assigned, assigned_before,
  assign_advisor-IsAssigned, open_all_done, open_all-steps,
}

-- The accounts and the card of a client are there.
abbrev pub IsReady : ℕ → Bank → Type 0
IsReady u b =
    (a : BankAccount) × (find_account u checking b.accounts ≡ some a)
    × (is_some (find_account u savings b.accounts) ≡ true)
    × (has_investment u b.investments ≡ true)
    × (has_card a.id b.cards ≡ true)

type_eq_self : (t : AccountType) → type_eq t t ≡ true
type_eq_self checking = refl
type_eq_self savings = refl

found_other :
    (u : ℕ) (t t' : AccountType) (as' : List BankAccount) (a : BankAccount)
    → a.account_type ≡ t
    → type_eq t t' ≡ false
    → find_account u t' (as' ++ a ∷ []) ≡ find_account u t' as'
found_other u t t' as' a kind ne = elim (Option-cases (find_account u t' as')) [
  | inl out ↦ find_account-append u t' as' a ∙ ground arith
  | inr (c, at) ↦ find_account-append u t' as' a ∙ ground arith
]

open_account-finds :
    (W : World) (u : ℕ) (name : Text) (t : AccountType) (rate : Option ℕ) (o : Option BankAccount)
    (b : Bank) (a : BankAccount) (c : Bool)
    → find_account u t b.accounts ≡ o
    → (open_account W u name t rate o b).0 ≡ ok (a, c)
    → let b' = (open_account W u name t rate o b).1 in
      (find_account u t b'.accounts ≡ some a)
      × ((t' : AccountType)
          → type_eq t t' ≡ false
          → find_account u t' b'.accounts ≡ find_account u t' b.accounts)
open_account-finds W u name t rate o b a c was h =
    elim (open_account-lem W u name t rate o b a c h) [
      | inl (found, same) ↦ (ground arith, λ t' ne. ap (λ z. find_account u t' z.accounts) same)
      | inr (missing, (accounts, _, _, _), owner, kind) ↦ (
        ap (find_account u t) accounts
            ∙ ground (arith, find_account-append u t b.accounts a, type_eq_self t),
        λ t' ne. ap (find_account u t') accounts ∙ found_other u t t' b.accounts a kind ne,
      )
    ]

opened-finds :
    (W : World) (u : ℕ) (b : Bank) (a d : BankAccount) (c s : Bool)
    → (opened_checking W u b).0 ≡ ok (a, c)
    → (opened_savings W u b).0 ≡ ok (d, s)
    → (find_account u checking (opened_savings W u b).1.accounts ≡ some a)
      × (find_account u savings (opened_savings W u b).1.accounts ≡ some d)
opened-finds W u b a d c s made saved =
    let (first, kept) =
      open_account-finds W u (text "Compte Courant") checking none
        (find_account u checking b.accounts) b a c refl made in
    let (second, kept') =
      open_account-finds W u (text "Compte Épargne") savings (some 250)
        (find_account u savings b.accounts) (opened_checking W u b).1 d s (kept savings refl)
        saved in
    (kept' checking refl ∙ first, second)

open_all-IsReady :
    (W : World) (u : ℕ) (b : Bank) (r : InitializeResult)
    → (open_all W u b).0 ≡ ok r
    → IsReady u (open_all W u b).1
      × (r.advisor_id ≡ advisor_id_of (find_advisor_of u (open_all W u b).1.links))
open_all-IsReady W u b r h =
    let (a, c, d, s, x, made, saved, given, final, named, _) = open_all-steps W u b r h in
    let (has, deposit) = opened-finds W u b a d c s made saved in
    let (_, _, invested, accounts, _) = open_investment-lem W u (opened_savings W u b).1 in
    let (_, _, carded, accounts', investments, _) =
      issue_card-lem W a (opened_investment W u b).1 in
    let (y, given', linked', accounts'', investments', cards) =
      assign_advisor-IsAssigned W u (issued W u a b).1 in
    let rows : (open_all W u b).1.accounts ≡ (opened_savings W u b).1.accounts =
      ap (λ z. z.accounts) final ∙ accounts'' ∙ accounts' ∙ accounts in
    let one : x.0 ≡ y.0 = ground arith in
    (
      (
        a,
        ap (find_account u checking) rows ∙ has,
        ap (λ z. is_some (find_account u savings z)) rows ∙ ap is_some deposit,
        ap (λ z. has_investment u z.investments) final
            ∙ ap (has_investment u) (investments' ∙ investments)
            ∙ invested,
        ap (λ z. has_card a.id z.cards) final ∙ ap (has_card a.id) cards ∙ carded,
      ),
      named ∙ one ∙ linked' ∙ ap (λ z. advisor_id_of (find_advisor_of u z.links)) (sym final),
    )

open_all-again :
    (W : World) (u : ℕ) (b : Bank) (x : ℕ)
    → IsReady u b
    → advisor_id_of (find_advisor_of u b.links) ≡ some x
    → open_all W u b ≡ (
      ok (record {
        initialized = true;
        created_accounts = [];
        card_created = false;
        advisor_id = some x;
        advisor_assigned = false;
      }),
      b,
    )
unfolding open_account open_investment issue_card
open_all-again W u b x ready has =
    let (a, at, deposit, invested, carded) = ready in
    elim (Option-cases (find_account u savings b.accounts)) [
      | inl out ↦ absurd (ground arith)
      | inr (d, at') ↦ elim (Option-cases (find_advisor_of u b.links)) [
        | inl out ↦ absurd (ground arith)
        | inr (l, at'') ↦
            let p1 : opened_checking W u b ≡ (ok (a, false), b) = rw (at, open_account) refl in
            let p2 : opened_savings W u b ≡ (ok (d, false), b) =
              rw (at', open_account) (ap (λ z. (ok (d, false), z.1)) p1) in
            let p3 : opened_investment W u b ≡ (ok false, b) =
              rw (p2, invested, open_investment) refl in
            let p4 : issued W u a b ≡ (ok false, b) = rw (p3, carded, issue_card) refl in
            let p5 : assigned W u a b ≡ (ok (some l.advisor_id, false), b) =
              rw p4 (assigned_before W u b l at'') in
            let named : some l.advisor_id ≡ some x = ground arith in
            open_all_done W u b a false d false false false (some l.advisor_id, false)
              (ap (λ p. p.0) p1) (ap (λ p. p.0) p2) (ap (λ p. p.0) p3) (ap (λ p. p.0) p4)
              (ap (λ p. p.0) p5)
            ∙ rw (ap (λ p. p.1) p5) (rw named refl)
      ]
    ]

initialize_client :
    (W : World) (u : ℕ) (b : Bank) (user : User)
    → W.find_user u ≡ some user
    → has_role user.roles client ≡ true
    → initialize W u b ≡ open_all W u b
unfolding initialize
initialize_client W u b user at role = rw (at, role, initialize) refl

-- An initialisation that is done leaves the client with a checking account that has a card, a savings account, an
-- investment account, and the advisor that it reports, whatever was there before.
pub initialize-IsReady :
    (W : World) (u : ℕ) (b : Bank) (r : InitializeResult)
    → (initialize W u b).0 ≡ ok r
    → r.initialized ≡ true
    → IsReady u (initialize W u b).1
      × (r.advisor_id ≡ advisor_id_of (find_advisor_of u (initialize W u b).1.links))
unfolding initialize
initialize-IsReady W u b r h done = elim (Option-cases (W.find_user u)) [
  | inl out ↦ ground arith
  | inr (user, at) ↦ elim (Bool-cases (has_role user.roles client)) [
    | inl yes' ↦ rw (at, yes', initialize) (open_all-IsReady W u b r (ground arith))
    | inr no' ↦ ground arith
  ]
]

-- After an initialisation that is done and reports an advisor, a second one, whenever it runs and
-- whatever is drawn at random, while the user is the same, creates nothing, changes nothing and
-- reports the same advisor.
pub initialize_twice :
    (W W' : World) (u : ℕ) (b : Bank) (r : InitializeResult) (x : ℕ)
    → (initialize W u b).0 ≡ ok r
    → r.initialized ≡ true
    → r.advisor_id ≡ some x
    → W'.find_user u ≡ W.find_user u
    → initialize W' u (initialize W u b).1 ≡ (
      ok (record {
        initialized = true;
        created_accounts = [];
        card_created = false;
        advisor_id = some x;
        advisor_assigned = false;
      }),
      (initialize W u b).1,
    )
unfolding initialize
initialize_twice W W' u b r x h done named same =
    let (ready, linked') = initialize-IsReady W u b r h done in
    let b' = (initialize W u b).1 in
    let again = open_all-again W' u b' x ready (sym linked' ∙ named) in
    elim (Option-cases (W.find_user u)) [
      | inl out ↦ ground arith
      | inr (user, at) ↦ elim (Bool-cases (has_role user.roles client)) [
        | inl yes' ↦ initialize_client W' u b' user (same ∙ at) yes' ∙ again
        | inr no' ↦ ground arith
      ]
    ]
