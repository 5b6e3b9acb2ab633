-- ===== src/Notifications/Marks.antt =====
-- What the read marks change, and the counts that they return.
use for_real_bank.Prelude.{
  keep, ℕ, ◌+◌, ◌≡◌, refl, Bool, true, false, Option, some, List, [], ◌∷◌, arith, ◌==◌, zero, suc,
  sym, ap, ◌∙◌, ◌↔◌, ◌⊎◌, inl, inr, not, ◌&&◌, none, ◌++◌, if◌then◌else◌, Bool-cases, get_elem?,
}
use for_real_bank.Prelude.Text.{Text, text_eq, text_eq_iff, text_eq_self, text}
use for_real_bank.Notifications.{
  Notification, TargetType, set_read, affected, count_unread, targets, mark_as_read_by_target,
  target_number, any, tokens, target_word, option_text_eq,
}

-- A mark does not decide on what it writes.
abbrev IsStable : (Notification → Bool) → Type 0
IsStable fits =
    (n : Notification) (now : ℕ)
    → fits (record n { is_read = true; read_at = some now; updated_at = now }) ≡ fits n

-- The notification is about the target, or one of the tokens of its group key names the target.
abbrev pub OnTarget : TargetType → Text → Notification → Type 0
OnTarget type id n =
    ((n.target_type ≡ some type) × (n.target_id ≡ some id))
    ⊎ ((k : ℕ) × (get_elem? (tokens n.group_key) k ≡ some (target_word type ++ text ":" ++ id)))

-- The row of a notification that is marked.
abbrev pub marked : ℕ → Notification → Notification
marked now n = record n { is_read = true; read_at = some now; updated_at = now }

module _ (fits : Notification → Bool) (u now : ℕ) where
  set_read-count :
      (ns : List Notification)
      → count_unread u (set_read fits u now ns) + affected fits u ns ≡ count_unread u ns
  set_read-count [] = refl
  set_read-count (n ∷ ns) = ground (arith, set_read-count ns)

  set_read-at :
      (ns : List Notification) (k : ℕ) (n : Notification)
      → get_elem? ns k ≡ some n
      → get_elem? (set_read fits u now ns) k
        ≡ some (if fits n && (n.user_id == u && not n.is_read) then marked now n else n)
  set_read-at [] k n h = ground arith
  set_read-at (m ∷ ns) zero n h = ground arith
  set_read-at (m ∷ ns) (suc k) n h = set_read-at ns k n h

  set_read-others :
      (v : ℕ) (ns : List Notification)
      → (v == u) ≡ false
      → keep (λ n. n.user_id == v) (set_read fits u now ns) ≡ keep (λ n. n.user_id == v) ns
  set_read-others v [] h = refl
  set_read-others v (n ∷ ns) h = ground (arith, set_read-others v ns h)

  set_read-twice :
      IsStable fits
      → (later : ℕ) (ns : List Notification)
      → (affected fits u (set_read fits u now ns) ≡ 0)
        × (set_read fits u later (set_read fits u now ns) ≡ set_read fits u now ns)
  set_read-twice stable later [] = (refl, refl)
  set_read-twice stable later (n ∷ ns) =
      ground (arith, set_read-twice stable later ns, stable n now)

target_number-eq : (a b : TargetType) → target_number a ≡ target_number b → a ≡ b
target_number-eq TargetType.conversation TargetType.conversation h = refl
target_number-eq TargetType.conversation TargetType.message h = ground arith
target_number-eq TargetType.conversation TargetType.account h = ground arith
target_number-eq TargetType.conversation TargetType.transaction h = ground arith
target_number-eq TargetType.conversation TargetType.payment h = ground arith
target_number-eq TargetType.conversation TargetType.news h = ground arith
target_number-eq TargetType.conversation TargetType.url h = ground arith
target_number-eq TargetType.message TargetType.conversation h = ground arith
target_number-eq TargetType.message TargetType.message h = refl
target_number-eq TargetType.message TargetType.account h = ground arith
target_number-eq TargetType.message TargetType.transaction h = ground arith
target_number-eq TargetType.message TargetType.payment h = ground arith
target_number-eq TargetType.message TargetType.news h = ground arith
target_number-eq TargetType.message TargetType.url h = ground arith
target_number-eq TargetType.account TargetType.conversation h = ground arith
target_number-eq TargetType.account TargetType.message h = ground arith
target_number-eq TargetType.account TargetType.account h = refl
target_number-eq TargetType.account TargetType.transaction h = ground arith
target_number-eq TargetType.account TargetType.payment h = ground arith
target_number-eq TargetType.account TargetType.news h = ground arith
target_number-eq TargetType.account TargetType.url h = ground arith
target_number-eq TargetType.transaction TargetType.conversation h = ground arith
target_number-eq TargetType.transaction TargetType.message h = ground arith
target_number-eq TargetType.transaction TargetType.account h = ground arith
target_number-eq TargetType.transaction TargetType.transaction h = refl
target_number-eq TargetType.transaction TargetType.payment h = ground arith
target_number-eq TargetType.transaction TargetType.news h = ground arith
target_number-eq TargetType.transaction TargetType.url h = ground arith
target_number-eq TargetType.payment TargetType.conversation h = ground arith
target_number-eq TargetType.payment TargetType.message h = ground arith
target_number-eq TargetType.payment TargetType.account h = ground arith
target_number-eq TargetType.payment TargetType.transaction h = ground arith
target_number-eq TargetType.payment TargetType.payment h = refl
target_number-eq TargetType.payment TargetType.news h = ground arith
target_number-eq TargetType.payment TargetType.url h = ground arith
target_number-eq TargetType.news TargetType.conversation h = ground arith
target_number-eq TargetType.news TargetType.message h = ground arith
target_number-eq TargetType.news TargetType.account h = ground arith
target_number-eq TargetType.news TargetType.transaction h = ground arith
target_number-eq TargetType.news TargetType.payment h = ground arith
target_number-eq TargetType.news TargetType.news h = refl
target_number-eq TargetType.news TargetType.url h = ground arith
target_number-eq TargetType.url TargetType.conversation h = ground arith
target_number-eq TargetType.url TargetType.message h = ground arith
target_number-eq TargetType.url TargetType.account h = ground arith
target_number-eq TargetType.url TargetType.transaction h = ground arith
target_number-eq TargetType.url TargetType.payment h = ground arith
target_number-eq TargetType.url TargetType.news h = ground arith
target_number-eq TargetType.url TargetType.url h = refl

any-at :
    (w : Text) (ts : List Text) → any (text_eq w) ts ≡ true → (k : ℕ) × (get_elem? ts k ≡ some w)
any-at w [] h = ground arith
any-at w (t ∷ ts) h = elim (Bool-cases (text_eq w t)) [
  | inl same ↦ (0, ap some (sym ((text_eq_iff w t).0 same)))
  | inr other ↦ let (k, at) = any-at w ts (ground arith) in (suc k, at)
]

at-any : (w : Text) (ts : List Text) (k : ℕ) → get_elem? ts k ≡ some w → any (text_eq w) ts ≡ true
at-any w [] k h = ground arith
at-any w (t ∷ ts) zero h = ground (arith, text_eq_self w)
at-any w (t ∷ ts) (suc k) h = ground (arith, at-any w ts k h)

direct_lem :
    (type : TargetType) (id : Text) (t : Option TargetType) (s : Option Text)
    → ((elim t [ none ↦ false | some t ↦ target_number t == target_number type ]
          && option_text_eq s id)
        ≡ true)
      ↔ ((t ≡ some type) × (s ≡ some id))
direct_lem type id none s = (λ h. ground arith, λ h. ground arith)
direct_lem type id (some t) none = (λ h. ground arith, λ h. ground arith)
direct_lem type id (some t) (some s) = (
  λ h. (
    ap some (target_number-eq t type (ground arith)),
    ap some ((text_eq_iff s id).0 (ground arith)),
  ),
  λ (e, e').
      let et : t ≡ type = ground arith in
      let es : s ≡ id = ground arith in rw (et, es) (ground (arith, text_eq_self id)),
)

targets-OnTarget :
    (type : TargetType) (id : Text) (n : Notification)
    → (targets type id n ≡ true) ↔ OnTarget type id n
targets-OnTarget type id n =
    let word = target_word type ++ text ":" ++ id in
    let own = direct_lem type id n.target_type n.target_id in
    (
      λ h. elim (Bool-cases (any (text_eq word) (tokens n.group_key))) [
        | inl grouped ↦ inr (any-at word (tokens n.group_key) grouped)
        | inr alone ↦ inl (own.0 (ground arith))
      ],
      λ on. elim on [
        | inl about ↦ ground (arith, own.1 about)
        | inr (k, at) ↦ ground (arith, at-any word (tokens n.group_key) k at)
      ],
    )

-- Marking the notifications on a target as read marks exactly the unread ones of the user that are
-- about the target or whose group key names it. It lowers the number of unread ones of the user by
-- the number that is returned, leaves the notifications of every other user as they were, and done
-- again, at any time, finds nothing and changes nothing.
pub mark_by_target_exact :
    (u : ℕ) (type : TargetType) (id : Text) (now later : ℕ) (ns : List Notification)
    → let (n, ns') = mark_as_read_by_target u type id now ns in
      ((k : ℕ) (m : Notification)
        → get_elem? ns k ≡ some m
        → (m.user_id ≡ u
            → m.is_read ≡ false
            → OnTarget type id m
            → get_elem? ns' k ≡ some (marked now m))
          × (¬ (OnTarget type id m) → get_elem? ns' k ≡ some m))
      × (count_unread u ns' + n ≡ count_unread u ns)
      × ((v : ℕ)
          → (v == u) ≡ false
          → keep (λ m. m.user_id == v) ns' ≡ keep (λ m. m.user_id == v) ns)
      × (mark_as_read_by_target u type id later ns' ≡ (0, ns'))
unfolding mark_as_read_by_target
mark_by_target_exact u type id now later ns =
    let fits = targets type id in
    let (none_left, same) = set_read-twice fits u now (λ n at. refl) later ns in
    (
      λ k m at. (
        λ mine unread on.
            let fit = (targets-OnTarget type id m).1 on in
            let whole : (fits m && (m.user_id == u && not m.is_read)) ≡ true = ground arith in
            set_read-at fits u now ns k m at ∙ ap (λ b. some (if b then marked now m else m)) whole,
        λ off. elim (Bool-cases (fits m)) [
          | inl fit ↦ absurd (off ((targets-OnTarget type id m).0 fit))
          | inr free ↦
              let whole : (fits m && (m.user_id == u && not m.is_read)) ≡ false = rw free refl in
              set_read-at fits u now ns k m at
              ∙ ap (λ b. some (if b then marked now m else m)) whole
        ],
      ),
      set_read-count fits u now ns,
      λ v h. set_read-others fits u now v ns h,
      λ k. (none_left k, same k),
    )
