-- ===== src/Onboarding/Steps.antt =====
-- The steps of an initialisation, and what the assignment of an advisor reports.
use for_real_bank.Prelude.{
  ℕ, suc, ◌≡◌, refl, sym, ap, ◌⊎◌, inl, inr, Bool, true, false, not, ◌||◌, Option, none, some, List,
  [], ◌∷◌, ◌++◌, arith, ◌==◌, Bool-cases, Option-cases, is_some,
}
use for_real_bank.Prelude.Text.{text}
use for_real_bank.Effect.{Result-cases, Exec, Result, ok, err, Error, ◌>>=◌, link_refused}
use for_real_bank.InitiateTransfer.{checking, savings}
use for_real_bank.Advisors.{advisor_id_of, AdvisorClient, find_advisor_of, count_by_advisor_ids}
use for_real_bank.Advisors.Replace.{find-append}
use for_real_bank.Onboarding.{
  BankAccount, Bank, World, InitializeResult, find_account, open_account, open_investment,
  issue_card, link, link_chosen, active_advisors, assign_advisor, open_all, pick_least_loaded_id,
  flag, checking_created, savings_created, investment_created,
}
use for_real_bank.Onboarding.Tables.{issue_card-lem, open_investment-lem}

module _ (W : World) (u : ℕ) where
  abbrev pub opened_checking : Bank → Result (BankAccount × Bool) × Bank
  opened_checking b =
      open_account W u (text "Compte Courant") checking none (find_account u checking b.accounts) b

  abbrev pub opened_savings : Bank → Result (BankAccount × Bool) × Bank
  opened_savings b =
      open_account W u (text "Compte Épargne") savings (some 250)
        (find_account u savings b.accounts) (opened_checking b).1

  abbrev pub opened_investment : Bank → Result Bool × Bank
  opened_investment b = open_investment W u (opened_savings b).1

  abbrev pub issued : BankAccount → Bank → Result Bool × Bank
  issued a b = issue_card W a (opened_investment b).1

  abbrev pub assigned : BankAccount → Bank → Result (Option ℕ × Bool) × Bank
  assigned a b = assign_advisor W u (issued a b).1

link-lem :
    (W : World) (a u : ℕ) (b : Bank)
    → find_advisor_of u b.links ≡ none
    → ((b' : Bank) × ((l : AdvisorClient) × (find_advisor_of u b'.links ≡ some l)
          × (l.advisor_id ≡ a))
        × (link W a u b ≡ (ok tt, b'))
        × (b'.accounts ≡ b.accounts)
        × (b'.investments ≡ b.investments)
        × (b'.cards ≡ b.cards))
      ⊎ ((e : Error) × (link W a u b ≡ (err e, b)))
unfolding link
link-lem W a u b free =
    elim (Bool-cases (
      a == u
      || not (is_some (W.find_user a))
      || not (is_some (W.find_user u))
      || is_some (find_advisor_of u b.links))) [
        | inl refused ↦ inr (link_refused, rw refused refl)
        | inr open' ↦
            let l : AdvisorClient = record {
              id = W.uuid b.inserted;
              advisor_id = a;
              client_id = u;
            } in
            inl (
              record b { links = b.links ++ l ∷ []; inserted = suc b.inserted },
              (l, ground (arith, find-append u b.links l), refl),
              rw open' refl,
              refl,
              refl,
              refl,
            )
      ]

-- The assignment reports what the table holds, and changes no other table.
abbrev IsAssigned : ℕ → Bank → Result (Option ℕ × Bool) × Bank → Type 0
IsAssigned u b p =
    (x : Option ℕ × Bool) × (p.0 ≡ ok x)
    × (x.0 ≡ advisor_id_of (find_advisor_of u p.1.links))
    × (p.1.accounts ≡ b.accounts)
    × (p.1.investments ≡ b.investments)
    × (p.1.cards ≡ b.cards)

pub linked :
    (W : World) (u a : ℕ) (b b' : Bank)
    → link W a u b ≡ (ok tt, b')
    → link_chosen W u (some a) b ≡ (ok (some a, true), b')
unfolding link_chosen
linked W u a b b' e = rw (e, link_chosen) (ap (λ p. (ok (some a, true), p.1)) e)

unlinked :
    (W : World) (u a : ℕ) (b : Bank) (e : Error)
    → link W a u b ≡ (err e, b)
    → link_chosen W u (some a) b ≡ (ok (advisor_id_of (find_advisor_of u b.links), false), b)
unfolding link_chosen
unlinked W u a b e h =
    rw (h, link_chosen) (ap (λ p. (ok (advisor_id_of (find_advisor_of u p.1.links), false), p.1)) h)

link_chosen-IsAssigned :
    (W : World) (u : ℕ) (o : Option ℕ) (b : Bank)
    → find_advisor_of u b.links ≡ none
    → IsAssigned u b (link_chosen W u o b)
unfolding link_chosen
link_chosen-IsAssigned W u none b free = ((none, false), refl, rw free refl, refl, refl, refl)
link_chosen-IsAssigned W u (some a) b free = elim (link-lem W a u b free) [
  | inl (b', (l, at, named), done, accounts, investments, cards) ↦
      rw (linked W u a b b' done)
        ((some a, true), refl, rw at (ap some (sym named)), accounts, investments, cards)
  | inr (e, failed) ↦
      rw (unlinked W u a b e failed) ((none, false), rw free refl, rw free refl, refl, refl, refl)
]

pub assigned_before :
    (W : World) (u : ℕ) (b : Bank) (l : AdvisorClient)
    → find_advisor_of u b.links ≡ some l
    → assign_advisor W u b ≡ (ok (some l.advisor_id, false), b)
unfolding assign_advisor
assigned_before W u b l at = rw (at, assign_advisor) refl

assign_free :
    (W : World) (u : ℕ) (b : Bank) (ids : List ℕ)
    → active_advisors W ≡ ids
    → find_advisor_of u b.links ≡ none
    → IsAssigned u b (assign_advisor W u b)
unfolding assign_advisor
assign_free W u b [] e free =
    rw (free, e, assign_advisor) ((none, false), refl, rw free refl, refl, refl, refl)
assign_free W u b (i ∷ is) e free =
    rw (free, e, assign_advisor)
      (link_chosen-IsAssigned W u
        (pick_least_loaded_id (W.random b.drawn) (count_by_advisor_ids (i ∷ is) b.links))
        (record b { drawn = suc b.drawn }) free)

pub assign_advisor-IsAssigned :
    (W : World) (u : ℕ) (b : Bank) → IsAssigned u b (assign_advisor W u b)
assign_advisor-IsAssigned W u b = elim (Option-cases (find_advisor_of u b.links)) [
  | inr (l, at) ↦
      rw (assigned_before W u b l at)
        ((some l.advisor_id, false), refl, rw at refl, refl, refl, refl)
  | inl free ↦ assign_free W u b (active_advisors W) refl free
]

>>=-ok :
    {S A B : Type 0} (m : Exec S A) (f : A → Exec S B) (s : S) (a : A)
    → (m s).0 ≡ ok a
    → (m >>= f) s ≡ f a (m s).1
>>=-ok m f s a e = rw (e, ◌>>=◌) refl

pub open_all_done :
    (W : World) (u : ℕ) (b : Bank) (a : BankAccount) (c : Bool) (d : BankAccount) (s i k : Bool)
    (x : Option ℕ × Bool)
    → (opened_checking W u b).0 ≡ ok (a, c)
    → (opened_savings W u b).0 ≡ ok (d, s)
    → (opened_investment W u b).0 ≡ ok i
    → (issued W u a b).0 ≡ ok k
    → (assigned W u a b).0 ≡ ok x
    → open_all W u b ≡ (
      ok (record {
        initialized = true;
        created_accounts =
            flag c checking_created (flag s savings_created (flag i investment_created []));
        card_created = k;
        advisor_id = x.0;
        advisor_assigned = x.1;
      }),
      (assigned W u a b).1,
    )
unfolding open_all
open_all_done W u b a c d s i k x e1 e2 e3 e4 e5 = rw (e1, e2, e3, e4, e5, open_all, ◌>>=◌) refl

pub open_all-steps :
    (W : World) (u : ℕ) (b : Bank) (r : InitializeResult)
    → (open_all W u b).0 ≡ ok r
    → (a : BankAccount) × (c : Bool) × (d : BankAccount) × (s : Bool) × (x : Option ℕ × Bool)
      × ((opened_checking W u b).0 ≡ ok (a, c))
      × ((opened_savings W u b).0 ≡ ok (d, s))
      × ((assigned W u a b).0 ≡ ok x)
      × ((open_all W u b).1 ≡ (assigned W u a b).1)
      × (r.advisor_id ≡ x.0)
      × (r.initialized ≡ true)
unfolding open_all
open_all-steps W u b r h = elim (Result-cases (opened_checking W u b).0) [
  | inr (e, failed) ↦ ground arith
  | inl ((a, c), made) ↦ elim (Result-cases (opened_savings W u b).0) [
    | inr (e, failed) ↦ ground arith
    | inl ((d, s), saved) ↦
        let (i, invested, _, _, _) = open_investment-lem W u (opened_savings W u b).1 in
        let (k, issued', _, _, _, _) = issue_card-lem W a (opened_investment W u b).1 in
        let (x, given, _, _, _, _) = assign_advisor-IsAssigned W u (issued W u a b).1 in
        let done = open_all_done W u b a c d s i k x made saved invested issued' given in
        (
          a,
          c,
          d,
          s,
          x,
          made,
          saved,
          given,
          ap (λ p. p.1) done,
          ground (arith, done),
          ground (arith, done),
        )
  ]
]
