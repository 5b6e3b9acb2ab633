-- ===== src/Beneficiaries/Rows.antt =====
-- What an insertion, a deletion and a new label leave of a clean table of beneficiaries.
use for_real_bank.Prelude.{
  All, any, find, keep, ℕ, ◌≡◌, refl, sym, ap, ◌∙◌, inl, inr, Bool, true, false, ◌&&◌, ◌||◌, some,
  List, [], ◌∷◌, ◌++◌, map, arith, ◌==◌, if◌then◌else◌, Bool-cases,
}
use for_real_bank.Prelude.Text.{Text, text_eq, text_eq_iff, text_eq_self}
use for_real_bank.Beneficiaries.Iban.{is_valid_iban}
use for_real_bank.Beneficiaries.{
  Beneficiary, has_iban, create_beneficiary, update_label, delete_beneficiary,
}

-- Every IBAN is valid, no user has one twice, and no identifier stands in two rows.
abbrev pub IsClean : List Beneficiary → Type 0
IsClean [] = Unit
IsClean (b ∷ bs) =
    (is_valid_iban b.iban ≡ true)
    × (has_iban b.user_id b.iban bs ≡ false)
    × (any (λ x. x.id == b.id) bs ≡ false)
    × IsClean bs

-- The requests of a user, on the table as it is when the request writes.
pub data Step (upper : Text → Text) (u : ℕ) (bs : List Beneficiary)
    : List Beneficiary → Type 0 where
  created :
      (new_id : ℕ) (label raw : Text) (seen : List Beneficiary)
      → any (λ b. b.id == new_id) bs ≡ false
      → Step upper u bs (create_beneficiary upper new_id u label raw seen bs).1
  relabelled : (id : ℕ) (label : Text) → Step upper u bs (update_label u id label bs).1
  deleted : (id : ℕ) → Step upper u bs (delete_beneficiary u id bs).1

pub data Reach (upper : Text → Text) : List Beneficiary → Type 0 where
  start : Reach upper []
  next :
      (u : ℕ) (bs bs' : List Beneficiary) → Reach upper bs → Step upper u bs bs' → Reach upper bs'

has_iban-snoc :
    (u : ℕ) (iban : Text) (bs : List Beneficiary) (b : Beneficiary)
    → has_iban u iban (bs ++ b ∷ []) ≡ has_iban u iban bs || (b.user_id == u && text_eq b.iban iban)
has_iban-snoc u iban [] b = ground arith
has_iban-snoc u iban (x ∷ bs) b = ground (arith, has_iban-snoc u iban bs b)

id-snoc :
    (i : ℕ) (bs : List Beneficiary) (b : Beneficiary)
    → any (λ x. x.id == i) (bs ++ b ∷ []) ≡ any (λ x. x.id == i) bs || b.id == i
id-snoc i [] b = ground arith
id-snoc i (x ∷ bs) b = ground (arith, id-snoc i bs b)

text_eq_comm : (s t : Text) → text_eq s t ≡ text_eq t s
text_eq_comm s t = elim (Bool-cases (text_eq s t)) [
  | inl same ↦ ground (arith, (text_eq_iff s t).0 same, text_eq_self t)
  | inr other ↦ elim (Bool-cases (text_eq t s)) [
    | inl same ↦ ground (arith, (text_eq_iff t s).0 same, text_eq_self s)
    | inr other' ↦ ground arith
  ]
]

pub snoc-IsClean :
    (bs : List Beneficiary) (b : Beneficiary)
    → IsClean bs
    → is_valid_iban b.iban ≡ true
    → has_iban b.user_id b.iban bs ≡ false
    → any (λ x. x.id == b.id) bs ≡ false
    → IsClean (bs ++ b ∷ [])
snoc-IsClean [] b h valid fresh new = ground arith
snoc-IsClean (x ∷ bs) b h valid fresh new = (
  h.0,
  ground (arith, has_iban-snoc x.user_id x.iban bs b, text_eq_comm b.iban x.iban),
  ground (arith, id-snoc x.id bs b),
  snoc-IsClean bs b h.3 valid (ground arith) (ground arith),
)

module _ (t : Beneficiary → Bool) where
  has_iban-keep :
      (u : ℕ) (iban : Text) (bs : List Beneficiary)
      → has_iban u iban bs ≡ false
      → has_iban u iban (keep t bs) ≡ false
  has_iban-keep u iban [] h = refl
  has_iban-keep u iban (x ∷ bs) h = ground (arith, has_iban-keep u iban bs)

  id-keep :
      (i : ℕ) (bs : List Beneficiary)
      → any (λ x. x.id == i) bs ≡ false
      → any (λ x. x.id == i) (keep t bs) ≡ false
  id-keep i [] h = refl
  id-keep i (x ∷ bs) h = ground (arith, id-keep i bs)

  pub keep-IsClean : (bs : List Beneficiary) → IsClean bs → IsClean (keep t bs)
  keep-IsClean [] h = tt
  keep-IsClean (b ∷ bs) h = elim (Bool-cases (t b)) [
    | inl kept ↦
        rw kept
          (h.0, has_iban-keep b.user_id b.iban bs h.1, id-keep b.id bs h.2, keep-IsClean bs h.3)
    | inr gone ↦ rw gone (keep-IsClean bs h.3)
  ]

-- The rows with the identifier of `b` are of its user and hold its IBAN.
abbrev pub IsRowOf : Beneficiary → Beneficiary → Type 0
IsRowOf b x = (x.id == b.id) ≡ true → (x.user_id ≡ b.user_id) × (x.iban ≡ b.iban)

no_rows :
    (b : Beneficiary) (bs : List Beneficiary)
    → any (λ x. x.id == b.id) bs ≡ false
    → All (IsRowOf b) bs
no_rows b [] h = tt
no_rows b (x ∷ bs) h = (λ e. ground arith, no_rows b bs (ground arith))

pub find-any :
    (t : Beneficiary → Bool) (bs : List Beneficiary) (b : Beneficiary)
    → find t bs ≡ some b
    → (any (λ x. x.id == b.id) bs ≡ true) × (t b ≡ true)
find-any t [] b h = ground arith
find-any t (x ∷ bs) b h = elim (Bool-cases (t x)) [
  | inl here ↦ ground arith
  | inr later ↦ let rest = find-any t bs b (ground arith) in ground (arith, rest)
]

same_any :
    (i j : ℕ) (bs : List Beneficiary)
    → (i == j) ≡ true
    → any (λ x. x.id == i) bs ≡ any (λ x. x.id == j) bs
same_any i j bs h = let e : i ≡ j = ground arith in ap (λ k. any (λ x. x.id == k) bs) e

pub found_rows :
    (t : Beneficiary → Bool) (bs : List Beneficiary) (b : Beneficiary)
    → IsClean bs
    → find t bs ≡ some b
    → All (IsRowOf b) bs
found_rows t [] b h e = tt
found_rows t (x ∷ bs) b h e = elim (Bool-cases (t x)) [
  | inl here ↦
      let same : x ≡ b = ground arith in
      let elsewhere = ap (λ y. any (λ z. z.id == y.id) bs) (sym same) ∙ h.2 in
      (λ _. (ap (λ y. y.user_id) same, ap (λ y. y.iban) same), no_rows b bs elsewhere)
  | inr later ↦
      let rest = find-any t bs b (ground arith) in
      (
        λ i. ground (arith, rest, h.2, same_any x.id b.id bs i),
        found_rows t bs b h.3 (ground arith),
      )
]

module _ (b : Beneficiary) (label : Text) where
  abbrev pub relabel : Beneficiary → Beneficiary
  relabel x = if x.id == b.id then record b { label = label } else x

  has_iban-relabel :
      (u : ℕ) (iban : Text) (bs : List Beneficiary)
      → All (IsRowOf b) bs
      → has_iban u iban (map relabel bs) ≡ has_iban u iban bs
  has_iban-relabel u iban [] h = refl
  has_iban-relabel u iban (x ∷ bs) h = elim (Bool-cases (x.id == b.id)) [
    | inl same ↦
        let row = h.0 same in
        rw (same, sym row.0, sym row.1)
          (ap (λ r. (x.user_id == u && text_eq x.iban iban) || r) (has_iban-relabel u iban bs h.1))
    | inr other ↦
        rw other
          (ap (λ r. (x.user_id == u && text_eq x.iban iban) || r) (has_iban-relabel u iban bs h.1))
  ]

  id-relabel :
      (i : ℕ) (bs : List Beneficiary)
      → any (λ x. x.id == i) (map relabel bs) ≡ any (λ x. x.id == i) bs
  id-relabel i [] = refl
  id-relabel i (x ∷ bs) = ground (arith, id-relabel i bs)

  relabel_row :
      (x : Beneficiary)
      → IsRowOf b x
      → ((relabel x).user_id ≡ x.user_id) × ((relabel x).iban ≡ x.iban)
  relabel_row x row = elim (Bool-cases (x.id == b.id)) [
    | inl same ↦ rw same (sym (row same).0, sym (row same).1)
    | inr other ↦ rw other (refl, refl)
  ]

  pub relabel-IsClean :
      (bs : List Beneficiary) → All (IsRowOf b) bs → IsClean bs → IsClean (map relabel bs)
  relabel-IsClean [] rows h = tt
  relabel-IsClean (x ∷ bs) rows h =
      let (user, iban) = relabel_row x rows.0 in
      let id : (relabel x).id ≡ x.id = ground arith in
      (
        rw iban h.0,
        rw (user, iban) (has_iban-relabel x.user_id x.iban bs rows.1 ∙ h.1),
        rw id (id-relabel x.id bs ∙ h.2),
        relabel-IsClean bs rows.1 h.3,
      )
