-- ===== src/Client/Batch/Keys.antt =====
-- `BatchClient` of src/client.rs has one waiting message for an address at most, so that sending
-- all that waits sends each address what waits for it.
use ruzor.Prelude.{
  ℕ, ◌≡◌, refl, ap, ◌∙◌, none, List, [], ◌∷◌, ◌++◌, append-nil, inl, inr, Bool-cases,
}
use mathlib.Core.Path.{subst}
use ruzor.Prelude.Assoc.{lookup, Once, Once-insert, Once-remove}
use ruzor.Text.{Text}
use ruzor.Error.{Result}
use ruzor.Message.{Message}
use ruzor.Server.Operations.{Address}
use ruzor.Client.{address_eq, same_address_iff}
use ruzor.Client.Batch.{
  Requests, Batches, add_digest, add_all, digests_of, same, sent_to, sent_to-append, waiting,
  waiting_for, total, is_full, full, open_still, add_all_eq,
}

pub sent_to-Once :
    (a : Address) (requests : Requests)
    → Once requests
    → sent_to a requests ≡ waiting_for a requests
unfolding lookup
sent_to-Once a [] h = refl
sent_to-Once a ((b, m) ∷ rest) (fresh, h) = elim (Bool-cases (same b a)) [
  | inl e ↦ rw e (
      ap (λ (x : List Text). digests_of m ++ x)
        (sent_to-Once a rest h
          ∙ ap waiting
              (subst (λ (x : Address). lookup x rest ≡ none) ((same_address_iff b a).0 e) fresh))
      ∙ append-nil (digests_of m))
  | inr e ↦ rw e (sent_to-Once a rest h)
]

module _ (send : Message → Address → Result (Unit {0})) (batch_size : ℕ) (spec : List (ℕ × ℕ))
    (op : Text) where
  add_digest-Once :
      (digest : Text) (address : Address) (b : Batches)
      → Once b.requests
      → Once (add_digest send batch_size spec op digest address b).1.requests
  add_digest-Once digest address b h =
      elim (Bool-cases (is_full send batch_size spec op digest address b)) [
        | inl f ↦
            rw (full send batch_size spec op digest address b f) (Once-remove address b.requests h)
        | inr f ↦
            rw (open_still send batch_size spec op digest address b f)
              (Once-insert address _ b.requests h)
      ]

  pub add_all-Once :
      (rest : List (Text × Address)) (b : Batches)
      → Once b.requests
      → Once (add_all send batch_size spec op rest b).requests
  add_all-Once [] b h = unfold add_all in h
  add_all-Once ((digest, address) ∷ rest) b h =
      rw (add_all_eq send batch_size spec op digest address rest b) (
        add_all-Once rest (add_digest send batch_size spec op digest address b).1
          (add_digest-Once digest address b h))

  -- once all that waits is sent too, an address was sent its total
  pub sent_to-total :
      (a : Address) (b : Batches)
      → Once b.requests
      → sent_to a (b.sent ++ b.requests) ≡ total send batch_size spec op a b
  sent_to-total a b h =
      sent_to-append a b.sent b.requests
      ∙ ap (λ (x : List Text). sent_to a b.sent ++ x) (sent_to-Once a b.requests h)
