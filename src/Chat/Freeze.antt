-- ===== src/Chat/Freeze.antt =====
-- A conversation of an advisor and a client after the client has another advisor.
use for_real_bank.Effect.{ok}
use for_real_bank.User.{User}
use for_real_bank.Advisors.{AdvisorClient, Advisors, find_advisor_of, reassign}
use for_real_bank.Advisors.Replace.{IsUnique, reassign_exact}
use for_real_bank.Prelude.{
  find, ℕ, ◌≡◌, refl, sym, ap, ◌∙◌, ◌≢◌, inl, inr, true, Option, some, List, arith, ◌==◌,
  if◌then◌else◌, length, Bool-cases,
}
use for_real_bank.Chat.{
  Chat, find_conversation, list_by_conversation, find_by_ids, is_plain_advisor, is_plain_client,
  is_private, serves, is_writable,
}

-- The conversation is a private one of this advisor and this client.
abbrev pub IsPair : List User → ℕ → Chat → User → User → Type 0
IsPair users i chat a c =
    (is_private (find_conversation i chat.conversations) ≡ true)
    × (length (list_by_conversation i chat.participants) ≡ 2)
    × (length (find_by_ids (list_by_conversation i chat.participants) users) ≡ 2)
    × (find is_plain_advisor (find_by_ids (list_by_conversation i chat.participants) users)
        ≡ some a)
    × (find is_plain_client (find_by_ids (list_by_conversation i chat.participants) users) ≡ some c)

pair-writable :
    (users : List User) (links : List AdvisorClient) (i : ℕ) (chat : Chat) (a c : User)
    → IsPair users i chat a c
    → is_writable users links i chat ≡ serves (find_advisor_of c.id links) a.id
unfolding is_writable
pair-writable users links i chat a c (p, two, two', fa, fc) =
    rw (p, two, two', fa, fc, is_writable) refl

-- Where no client has two advisors, after a client is given another advisor, a private
-- conversation of an advisor with that client takes messages exactly if the advisor is the new
-- one; the conversations of every other advisor and client are as they were.
pub reassign_freezes :
    (find_user : ℕ → Option User) (new_id actor_id client_id new_advisor_id : ℕ) (old : Option ℕ)
    (db : Advisors) (users : List User) (i : ℕ) (chat : Chat) (a c : User)
    → IsUnique db.links
    → (reassign find_user new_id actor_id client_id new_advisor_id db).0 ≡ ok old
    → IsPair users i chat a c
    → is_writable users
        (reassign find_user new_id actor_id client_id new_advisor_id db).1.links
        i
        chat
      ≡ (if c.id == client_id then new_advisor_id == a.id else is_writable users db.links i chat)
reassign_freezes find_user new_id actor_id client_id new_advisor_id old db users i chat a c unique h
      pair =
    let (_, _, _, (l, at, named), others, _, _) =
      reassign_exact find_user new_id actor_id client_id new_advisor_id old db unique h in
    let links' = (reassign find_user new_id actor_id client_id new_advisor_id db).1.links in
    pair-writable users links' i chat a c pair ∙ elim (Bool-cases (c.id == client_id)) [
      | inl same ↦
          let same' : c.id ≡ client_id = ground arith in
          rw same (
            ap (λ z. serves (find_advisor_of z links') a.id) same'
            ∙ ap (λ o. serves o a.id) at
            ∙ ap (λ z. z == a.id) named)
      | inr other ↦
          let other' : c.id ≢ client_id = ground arith in
          rw other (
            ap (λ o. serves o a.id) (others c.id other')
            ∙ sym (pair-writable users db.links i chat a c pair))
    ]
