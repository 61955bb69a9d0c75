-- ===== src/Forwarder.antt =====
-- src/forwarder.rs: the bounded queue between the server and the forwarding thread. A rendezvous
-- channel (a queue size of 0) hands a request over only while the thread waits for one; here it
-- takes none.
pub mod Room
use ruzor.Prelude.{ℕ, Bool, List, [], ◌∷◌, ◌++◌, ltb, if◌then◌else◌, length}
use ruzor.Text.{Text}

pub record ForwardRequest : Type 0 where
  pub digest : Text
  pub whitelist : Bool

-- the sender's side of `sync_channel(max_queue_size)`
pub record Forwarder : Type 0 where
  pub capacity : ℕ
  pub queue : List ForwardRequest

-- `queue_forward_request`: `try_send`, whose failure is ignored
unfoldable pub queue_forward_request : Text → Bool → Forwarder → Forwarder
queue_forward_request digest whitelist f =
    if ltb (length f.queue) f.capacity
    then record f { queue = f.queue ++ (record { digest = digest; whitelist = whitelist }) ∷ [] }
    else f

-- `for digest in &digests { forwarder.queue_forward_request(digest, whitelist) }`
unfoldable pub queue_all : List Text → Bool → Forwarder → Forwarder
unfolding queue_forward_request
queue_all [] whitelist f = f
queue_all (digest ∷ digests) whitelist f =
    queue_all digests whitelist (queue_forward_request digest whitelist f)
