-- ===== src/Effect.antt =====
-- The effects of the services: an asynchronous method is a state transformer that returns or throws.
-- What was written before a throw stays written, unless a transaction is rolled back.
use for_real_bank.Prelude.{
  ◌≡◌, refl, ◌⊎◌, inl, inr, Bool, true, false, Option, none, some, List, [], ◌∷◌,
}

-- The messages of the errors that the services throw.
pub data Error : Type 0 where
  invalid_credentials account_locked email_not_verified : Error
  two_factor_required two_factor_not_configured invalid_two_factor_code : Error
  invalid_reset_token weak_password invalid_email_verification_token : Error
  user_not_found forbidden_operation invalid_role : Error
  client_not_found target_not_advisor advisor_banned advisor_unchanged : Error
  ban_request_not_found already_processed not_assigned_director : Error
  iban_taken link_refused : Error
  invalid_group_name not_enough_participants too_many_participants : Error
  invalid_target contact_not_allowed : Error
  invalid_participant participant_not_allowed conversation_or_user_missing : Error
  insufficient_funds_signal transfer_destination_not_found numeric_overflow : Error
  asset_not_proposed asset_not_tradable price_required : Error
  investment_account_not_found account_not_active missing_relation : Error
  insufficient_cash insufficient_quantity : Error
  conversation_or_sender_missing not_your_notification : Error
  provider_error invalid_quote invalid_rate : Error
  invalid_iban beneficiary_already_exists beneficiary_not_found : Error

pub data Result {ℓ} (A : Type ℓ) : Type ℓ where
  ok : A → Result A
  err : Error → Result A

pub Result-cases :
    {A : Type 0} (r : Result A) → ((a : A) × (r ≡ ok a)) ⊎ ((e : Error) × (r ≡ err e))
Result-cases (ok a) = inl (a, refl)
Result-cases (err e) = inr (e, refl)

abbrev pub Exec : Type 0 → Type 0 → Type 0
Exec S A = S → Result A × S

module _ {S A : Type 0} where
  abbrev pub pure : A → Exec S A
  pure a s = (ok a, s)

  abbrev pub throw : Error → Exec S A
  throw e s = (err e, s)

  abbrev pub gets : (S → A) → Exec S A
  gets f s = (ok (f s), s)

  abbrev pub from_result : Result A → Exec S A
  from_result r s = (r, s)

  -- `if (x === null) throw e`
  abbrev pub or_throw : Option A → Error → Exec S A
  or_throw none e s = (err e, s)
  or_throw (some a) e s = (ok a, s)

module _ {S : Type 0} where
  abbrev pub modify : (S → S) → Exec S (Unit {0})
  modify f s = (ok tt, f s)

  -- `if (c) throw e`
  abbrev pub throw_if : Bool → Error → Exec S (Unit {0})
  throw_if true e s = (err e, s)
  throw_if false e s = (ok tt, s)

infixl 5 ◌>>=◌ ◌>>◌
abbrev pub ◌>>=◌ : {S A B : Type 0} → Exec S A → (A → Exec S B) → Exec S B
◌>>=◌ m f s = let (r, s') = m s in elim r [ ok a ↦ f a s' | err e ↦ (err e, s') ]

abbrev pub ◌>>◌ : {S B : Type 0} → Exec S (Unit {0}) → Exec S B → Exec S B
m >> k = m >>= λ _. k

-- `for (const x of xs) await f(x)`
unfoldable pub for_each : {S A : Type 0} → (A → Exec S (Unit {0})) → List A → Exec S (Unit {0})
for_each f [] s = (ok tt, s)
for_each f (x ∷ xs) s =
    let (r, s') = f x s in
    let rest = for_each f xs s' in elim r [ ok _ ↦ rest | err e ↦ (err e, s') ]
