-- ===== src/Client/Threads.antt =====
-- Thread ids in src/client.rs and src/message.rs: the one that a request is sent under, and the
-- ones that a response may bear.
use ruzor.Prelude.{
  ℕ, ◌≤◌, ◌<◌, ◌≡◌, sym, ap, ◌∙◌, none, some, ◌⊎◌, inl, inr, Bool-cases, arith, ◌==◌, ==_iff, leb,
}
use ruzor.Text.{Text, Bytes, codes, eq_ignore_ascii_case}
use ruzor.Text.Decimal.{nat_to_string, parse_nat-nat_to_string}
use ruzor.Error.{ok, >>=-eq-ok}
use ruzor.Message.{
  Message, get, contains, thread, ensure_response, generate, in_ok_range, init_for_sending, parse,
  u16_max, ok_min,
}
use ruzor.Message.Headers.{get-set_header, get-add_header}
use ruzor.Account.{sign_for_account}
use ruzor.Server.Operations.{Address}
use ruzor.Client.{Client, Now, check_thread, read_response, sign, address_eq}

-- A generated id is in the range of a request's ids and fits in 16 bits.
pub generate_range : (nanos : ℕ) → (ok_min ≤ generate nanos) × (generate nanos ≤ u16_max)
unfolding generate
generate_range nanos = omega arith

module _ (lower : Text → Text) (c : Client) (now : Now) where
  -- the header is there before the signature, which leaves it alone
  get_thread-init :
      (m : Message)
      → get m (codes "Thread") ≡ none
      → get (init_for_sending now.nanos m) (codes "Thread")
        ≡ some (nat_to_string (generate now.nanos))
  unfolding init_for_sending contains eq_ignore_ascii_case
  get_thread-init m h = simp (get-set_header, h, get-add_header)

  get_thread-sign :
      (m : Message) (address : Address)
      → get m (codes "Thread") ≡ none
      → get (sign lower c now m address) (codes "Thread")
        ≡ some (nat_to_string (generate now.nanos))
  get_thread-sign m address h =
      unfold sign sign_for_account eq_ignore_ascii_case in simp get-set_header (get_thread-init m h)

  -- A message without a `Thread` is signed under the id that is generated for it.
  pub thread-sign :
      (m : Message) (address : Address)
      → get m (codes "Thread") ≡ none
      → thread (sign lower c now m address) ≡ ok (generate now.nanos)
  thread-sign m address h =
      unfold thread in
      rw (get_thread-sign m address h)
        (rw (parse_nat-nat_to_string u16_max (generate now.nanos) (generate_range now.nanos).1))

-- What `read_response` may return.
pub record IsAnswer (expected_id : ℕ) (bytes : Bytes) (m : Message) : Type 0 where
  pub id : ℕ
  pub message_is : m ≡ parse bytes
  pub complete : ensure_response m ≡ ok tt
  pub id_is : thread m ≡ ok id
  pub id_fits : (id ≡ expected_id) ⊎ (id < ok_min)

check_thread-eq-ok :
    (expected_id id : ℕ) (m : Message) {r : Message}
    → check_thread expected_id id m ≡ ok r
    → (m ≡ r) × ((id ≡ expected_id) ⊎ (id < ok_min))
unfolding check_thread in_ok_range
check_thread-eq-ok expected_id id m h = elim (Bool-cases (id == expected_id)) [
  | inl same ↦ (cc (rw same at h), inl ((==_iff id expected_id).0 same))
  | inr other ↦ elim (Bool-cases (leb ok_min id)) [
    | inl high ↦ cc (rw (other, high) at h)
    | inr low ↦ (cc (rw (other, low) at h), inr (ground arith))
  ]
]

-- A response is only accepted if it has all the fields of one, and the expected thread id or an
-- error id below 1024.
pub read_response_sound :
    (expected_id : ℕ) (bytes : Bytes) (m : Message)
    → read_response expected_id bytes ≡ ok m
    → IsAnswer expected_id bytes m
unfolding read_response
read_response_sound expected_id bytes m h =
    let p = parse bytes in
    let (u, h1, e1) = >>=-eq-ok (ensure_response p) _ h in
    let (id, h2, e2) = >>=-eq-ok (thread p) _ h1 in
    let (same, fits) = check_thread-eq-ok expected_id id p h2 in
    record {
      id = id;
      message_is = sym same;
      complete = ap ensure_response (sym same) ∙ e1;
      id_is = ap thread (sym same) ∙ e2;
      id_fits = fits;
    }
