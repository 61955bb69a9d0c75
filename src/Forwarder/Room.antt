-- ===== src/Forwarder/Room.antt =====
-- What the queue of src/forwarder.rs takes of the digests that are queued: as many of the first
-- as there is room for. The others are dropped, since the failure of `try_send` is ignored.
use ruzor.Prelude.{
  ℕ, zero, suc, ◌+◌, ◌-◌, ◌≡◌, refl, ◌∙◌, Bool, true, false, List, [], ◌∷◌, ◌++◌, append_assoc,
  append-nil, ltb, arith, inl, inr, Bool-cases, length, length-append, take,
}
use ruzor.Text.{Text}
use ruzor.Forwarder.{ForwardRequest, Forwarder, queue_forward_request, queue_all}

abbrev pub requests_for : Bool → List Text → List ForwardRequest
requests_for whitelist [] = []
requests_for whitelist (d ∷ ds) =
    (record { digest = d; whitelist = whitelist }) ∷ requests_for whitelist ds

abbrev pub room : Forwarder → ℕ
room f = f.capacity - length f.queue

-- The queue with the first of the requests behind what it has, up to its capacity.
abbrev pub with_room : List ForwardRequest → Forwarder → Forwarder
with_room rs f = record f { queue = f.queue ++ take (room f) rs }

abbrev queued_one : Text → Bool → Forwarder → Forwarder
queued_one d whitelist f = record f {
  queue = f.queue ++ (record { digest = d; whitelist = whitelist }) ∷ [];
}

ltb-true : (m n : ℕ) → ltb m n ≡ true → n - m ≡ suc (n - (m + 1))
ltb-true m n h = ground arith

ltb-false : (m n : ℕ) → ltb m n ≡ false → n - m ≡ 0
ltb-false m n h = ground arith

with_room-queued_one :
    (d : Text) (whitelist : Bool) (rs : List ForwardRequest) (f : Forwarder)
    → ltb (length f.queue) f.capacity ≡ true
    → with_room rs (queued_one d whitelist f)
      ≡ with_room ((record { digest = d; whitelist = whitelist }) ∷ rs) f
with_room-queued_one d whitelist rs f h =
    let r : ForwardRequest = record { digest = d; whitelist = whitelist } in
    rw (length-append f.queue (r ∷ [])) (
      rw (ltb-true (length f.queue) f.capacity h)
        (rw (append_assoc f.queue (r ∷ []) (take (f.capacity - (length f.queue + 1)) rs))))

take_nil : (n : ℕ) → take {A = ForwardRequest} n [] ≡ []
take_nil zero = refl
take_nil (suc n) = refl

queue_forward_request-room :
    (d : Text) (whitelist : Bool) (rs : List ForwardRequest) (f : Forwarder)
    → with_room rs (queue_forward_request d whitelist f)
      ≡ with_room ((record { digest = d; whitelist = whitelist }) ∷ rs) f
unfolding queue_forward_request
queue_forward_request-room d whitelist rs f = elim (Bool-cases (ltb (length f.queue) f.capacity)) [
  | inl h ↦ rw h (with_room-queued_one d whitelist rs f h)
  | inr h ↦ rw h (rw (ltb-false (length f.queue) f.capacity h))
]

-- Queueing texts one after the other fills the room there is.
pub queue_all-with_room :
    (ds : List Text) (whitelist : Bool) (f : Forwarder)
    → queue_all ds whitelist f ≡ with_room (requests_for whitelist ds) f
unfolding queue_all
queue_all-with_room [] whitelist f = rw (take_nil (room f)) (rw (append-nil f.queue))
queue_all-with_room (d ∷ ds) whitelist f =
    queue_all-with_room ds whitelist (queue_forward_request d whitelist f)
    ∙ queue_forward_request-room d whitelist (requests_for whitelist ds) f
