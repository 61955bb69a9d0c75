-- ===== src/Client/Batch.antt =====
-- src/client.rs: `BatchClient`. `sent` is the log of the messages that were handed to `send_only`,
-- and `send` its result. `force` sends in the order of the list; the order of a `HashMap` is not
-- determined, and no theorem depends on it.
pub mod Keys
use ruzor.Prelude.{
  ℕ, ◌<◌, ◌≡◌, refl, sym, ap, ◌∙◌, Bool, true, false, Option, none, some, List, [], ◌∷◌, ◌++◌,
  append_assoc, append-nil, inl, inr, Bool-cases, arith, leb, if◌then◌else◌, length,
}
use ruzor.Prelude.Assoc.{lookup, insert, remove, lookup-insert, lookup-remove}
use ruzor.Text.{Text, codes, eq_ignore_ascii_case}
use ruzor.Error.{Result, ok}
use ruzor.Message.{Message, get_all, add_header, request, spec_text, or_default}
use ruzor.Message.Headers.{get_all-add_header}
use ruzor.Server.Operations.{Address}
use ruzor.Client.{address_eq, same_address_iff}

abbrev pub Requests : Type 0
Requests = List (Address × Message)

pub record Batches : Type 0 where
  pub requests : Requests
  pub sent : Requests

-- the message that `or_insert_with` makes
unfoldable pub fresh : Text → List (ℕ × ℕ) → Message
unfolding request
fresh op spec = add_header (request op) (codes "Op-Spec") (spec_text spec)

abbrev pub digests_of : Message → List Text
digests_of m = get_all m (codes "Op-Digest")

module _ (send : Message → Address → Result (Unit {0})) (batch_size : ℕ) (spec : List (ℕ × ℕ))
    (op : Text) where
  -- the message of the address once the digest is in it
  unfoldable pub grown : Text → Address → Batches → Message
  grown digest address b =
      add_header (or_default (fresh op spec) (lookup address b.requests)) (codes "Op-Digest") digest

  -- `add_digest`: the message is taken out before it is sent, whatever comes of that
  unfoldable pub add_digest : Text → Address → Batches → Result (Unit {0}) × Batches
  add_digest digest address b =
      let m = grown digest address b in
      if leb batch_size (length (digests_of m))
      then (
        send m address,
        record { requests = remove address b.requests; sent = b.sent ++ (address, m) ∷ [] },
      )
      else (ok tt, record b { requests = insert address m b.requests })

  -- digests that are added one after the other, whatever the results
  unfoldable pub add_all : List (Text × Address) → Batches → Batches
  add_all [] b = b
  add_all ((digest, address) ∷ rest) b = add_all rest (add_digest digest address b).1

-- what was sent to an address, and what waits for it
abbrev same : Address → Address → Bool
same a b = address_eq.beq a b

abbrev pub sent_to : Address → Requests → List Text
sent_to a [] = []
sent_to a ((b, m) ∷ log) = (if same b a then digests_of m else []) ++ sent_to a log

abbrev pub waiting : Option Message → List Text
waiting none = []
waiting (some m) = digests_of m

abbrev pub waiting_for : Address → Requests → List Text
waiting_for a requests = waiting (lookup a requests)

abbrev pub asked_for : Address → List (Text × Address) → List Text
asked_for a [] = []
asked_for a ((d, b) ∷ rest) = (if same b a then d ∷ [] else []) ++ asked_for a rest

sent_to-append :
    (a : Address) (log more : Requests) → sent_to a (log ++ more) ≡ sent_to a log ++ sent_to a more
sent_to-append a [] more = refl
sent_to-append a ((b, m) ∷ log) more =
    ap (λ (x : List Text). (if same b a then digests_of m else []) ++ x) (sent_to-append a log more)
    ∙ sym (append_assoc (if same b a then digests_of m else []) (sent_to a log) (sent_to a more))

digests_of-fresh : (op : Text) (spec : List (ℕ × ℕ)) → digests_of (fresh op spec) ≡ []
unfolding fresh get_all eq_ignore_ascii_case
digests_of-fresh op spec = refl

digests_of-or_default :
    (op : Text) (spec : List (ℕ × ℕ)) (o : Option Message)
    → digests_of (or_default (fresh op spec) o) ≡ waiting o
digests_of-or_default op spec none = digests_of-fresh op spec
digests_of-or_default op spec (some m) = refl

module _ (send : Message → Address → Result (Unit {0})) (batch_size : ℕ) (spec : List (ℕ × ℕ))
    (op : Text) where
  -- all that an address was sent or waits for, in the order of the sending
  abbrev pub total : Address → Batches → List Text
  total a b = sent_to a b.sent ++ waiting_for a b.requests

  digests_of-grown :
      (digest : Text) (address : Address) (b : Batches)
      → digests_of (grown send batch_size spec op digest address b)
        ≡ waiting_for address b.requests ++ digest ∷ []
  unfolding grown eq_ignore_ascii_case
  digests_of-grown digest address b =
      get_all-add_header (or_default (fresh op spec) (lookup address b.requests))
        (codes "Op-Digest") (codes "Op-Digest") digest
      ∙ ap (λ (x : List Text). x ++ digest ∷ [])
          (digests_of-or_default op spec (lookup address b.requests))

  module _ (digest : Text) (address : Address) (b : Batches) where
    abbrev m : Message
    m = grown send batch_size spec op digest address b

    abbrev is_full : Bool
    is_full = leb batch_size (length (digests_of m))

    abbrev after : Batches
    after = (add_digest send batch_size spec op digest address b).1

    full :
        is_full ≡ true
        → after
          ≡ record { requests = remove address b.requests; sent = b.sent ++ (address, m) ∷ [] }
    full h = unfold add_digest in rw (h, after)

    open_still : is_full ≡ false → after ≡ record b { requests = insert address m b.requests }
    open_still h = unfold add_digest in rw (h, after)

    -- the digests that a batch has for an address, by whether it is that address
    grown_for :
        (a : Address)
        → same address a ≡ true
        → digests_of m ≡ waiting_for a b.requests ++ digest ∷ []
    grown_for a h =
        digests_of-grown digest address b
        ∙ ap (λ (x : Address). waiting_for x b.requests ++ digest ∷ [])
            ((same_address_iff address a).0 h)

    -- what is added goes behind what was there
    add_digest-total :
        (a : Address) → total a after ≡ total a b ++ (if same address a then digest ∷ [] else [])
    add_digest-total a = elim (Bool-cases is_full) [
      | inl f ↦ rw (full f) (elim (Bool-cases (same address a)) [
        | inl e ↦ simp (sent_to-append, lookup-remove, e, append-nil, grown_for a e, append_assoc)
        | inr e ↦ simp (sent_to-append, lookup-remove, e, append-nil)
      ])
      | inr f ↦ rw (open_still f) (elim (Bool-cases (same address a)) [
        | inl e ↦ simp (lookup-insert, e, grown_for a e, append_assoc)
        | inr e ↦ simp (lookup-insert, e, append-nil)
      ])
    ]

  add_all_eq :
      (digest : Text) (address : Address) (rest : List (Text × Address)) (b : Batches)
      → add_all send batch_size spec op ((digest, address) ∷ rest) b
        ≡ add_all send batch_size spec op rest (after digest address b)
  unfolding add_all
  add_all_eq digest address rest b = refl

  -- However digests are added, and whatever the sending says: each address was sent, or still
  -- waits for, exactly the digests that were added for it, in their order and as often.
  pub add_all-total :
      (rest : List (Text × Address)) (a : Address) (b : Batches)
      → total a (add_all send batch_size spec op rest b) ≡ total a b ++ asked_for a rest
  add_all-total [] a b = unfold add_all in sym (append-nil (total a b))
  add_all-total ((digest, address) ∷ rest) a b =
      ap (total a) (add_all_eq digest address rest b)
      ∙ add_all-total rest a (add_digest send batch_size spec op digest address b).1
      ∙ ap (λ (x : List Text). x ++ asked_for a rest) (add_digest-total digest address b a)
      ∙ append_assoc (total a b) (if same address a then digest ∷ [] else []) (asked_for a rest)

  -- No batch that waits is full, if a batch holds at least one digest.
  IsOpen : Batches → Type 0
  IsOpen b = (a : Address) → length (waiting_for a b.requests) < batch_size

  add_digest-IsOpen :
      (digest : Text) (address : Address) (b : Batches)
      → 0 < batch_size
      → IsOpen b
      → IsOpen (after digest address b)
  unfolding IsOpen
  add_digest-IsOpen digest address b h v a = elim (Bool-cases (is_full digest address b)) [
    | inl f ↦ rw (full digest address b f) (elim (Bool-cases (same address a)) [
      | inl e ↦ simp (lookup-remove, e) h
      | inr e ↦ simp (lookup-remove, e) (v a)
    ])
    | inr f ↦ rw (open_still digest address b f) (elim (Bool-cases (same address a)) [
      | inl e ↦ simp (lookup-insert, e) (not_full _ f)
      | inr e ↦ simp (lookup-insert, e) (v a)
    ])
  ]
    where
      not_full : (n : ℕ) → leb batch_size n ≡ false → n < batch_size
      not_full n e = ground arith

  -- For a positive batch size: where no waiting batch has reached it, none has after any digests
  -- were added, whatever the sending says.
  pub add_all-IsOpen :
      (rest : List (Text × Address)) (b : Batches)
      → 0 < batch_size
      → ((a : Address) → length (waiting_for a b.requests) < batch_size)
      → (a : Address)
      → length (waiting_for a (add_all send batch_size spec op rest b).requests) < batch_size
  unfolding IsOpen
  add_all-IsOpen [] b h v a = unfold add_all in v a
  add_all-IsOpen ((digest, address) ∷ rest) b h v a =
      rw (add_all_eq digest address rest b)
        (add_all-IsOpen rest (after digest address b) h (add_digest-IsOpen digest address b h v) a)
