-- ===== src/Message/Headers.antt =====
-- Laws of the header operations of src/message.rs. Header names are compared without case, so a
-- law holds for every spelling of a name.
use ruzor.Prelude.{
  ◌≡◌, refl, ap, false, Option, none, some, List, [], ◌∷◌, ◌++◌, inl, inr, Bool-cases, arith,
  if◌then◌else◌,
}
use ruzor.Text.{Text, eq_ignore_ascii_case}
use ruzor.Text.Laws.{eq_ignore_congr, eq_ignore_congr_right, eq_ignore_refl}
use ruzor.Message.{
  Message, Header, find, get, find_all, get_all, add_header, set_in, set_header, retain, remove_all,
}

abbrev pub or_else {ℓ} : {A : Type ℓ} → Option A → Option A → Option A
or_else none b = b
or_else (some a) b = some a

find-set_in :
    (n k v : Text) (hs : List Header)
    → find k (set_in n v hs) ≡ (if eq_ignore_ascii_case n k then some v else find k hs)
unfolding find set_in
find-set_in n k v [] = refl
find-set_in n k v ((key, old) ∷ hs) =
    ground (arith, eq_ignore_congr key n k, eq_ignore_congr_right n k key, find-set_in n k v hs)

find-retain :
    (n k : Text) (hs : List Header)
    → find k (retain n hs) ≡ (if eq_ignore_ascii_case n k then none else find k hs)
unfolding find retain
find-retain n k [] = ground arith
find-retain n k ((key, old) ∷ hs) =
    ground (arith, eq_ignore_congr key n k, eq_ignore_congr_right n k key, find-retain n k hs)

find-append : (k : Text) (hs gs : List Header) → find k (hs ++ gs) ≡ or_else (find k hs) (find k gs)
unfolding find
find-append k [] gs = refl
find-append k ((key, v) ∷ hs) gs = ground (arith, find-append k hs gs)

-- After `set_header` a lookup under any spelling of the name finds the value, and a lookup of any
-- other name finds what it found before.
pub get-set_header :
    (m : Message) (n k v : Text)
    → get (set_header m n v) k ≡ (if eq_ignore_ascii_case n k then some v else get m k)
unfolding get set_header
get-set_header m n k v = find-set_in n k v m.headers

-- After `remove_all` no spelling of the name is found, and the other names are as before.
pub get-remove_all :
    (m : Message) (n k : Text)
    → get (remove_all m n) k ≡ (if eq_ignore_ascii_case n k then none else get m k)
unfolding get remove_all
get-remove_all m n k = find-retain n k m.headers

-- A header that is added is found where none of its name stood before.
pub get-add_header :
    (m : Message) (n k v : Text)
    → get (add_header m n v) k
      ≡ or_else (get m k) (if eq_ignore_ascii_case n k then some v else none)
unfolding get add_header find
get-add_header m n k v = find-append k m.headers ((n, v) ∷ [])

find_all-append :
    (k : Text) (hs gs : List Header) → find_all k (hs ++ gs) ≡ find_all k hs ++ find_all k gs
unfolding find_all
find_all-append k [] gs = refl
find_all-append k ((key, v) ∷ hs) gs = ground (arith, find_all-append k hs gs)

-- `get_all` has the values of the headers of that name in their order, the added one last.
pub get_all-add_header :
    (m : Message) (n k v : Text)
    → get_all (add_header m n v) k
      ≡ get_all m k ++ (if eq_ignore_ascii_case n k then v ∷ [] else [])
unfolding get_all add_header find_all
get_all-add_header m n k v = find_all-append k m.headers ((n, v) ∷ [])

abbrev head? {ℓ} : {A : Type ℓ} → List A → Option A
head? [] = none
head? (x ∷ xs) = some x

find-head : (k : Text) (hs : List Header) → find k hs ≡ head? (find_all k hs)
unfolding find find_all
find-head k [] = refl
find-head k ((key, v) ∷ hs) = ground (arith, find-head k hs)

-- `get` is the first of `get_all`.
pub get-head : (m : Message) (k : Text) → get m k ≡ head? (get_all m k)
unfolding get get_all
get-head m k = find-head k m.headers

retain-absent : (n : Text) (hs : List Header) → find n hs ≡ none → retain n hs ≡ hs
unfolding retain find
retain-absent n [] h = refl
retain-absent n ((key, old) ∷ hs) h = elim (Bool-cases (eq_ignore_ascii_case key n)) [
  | inl same ↦ cc (rw same at h)
  | inr other ↦ rw other (ap (◌∷◌ (key, old)) (retain-absent n hs (rw other at h)))
]

retain-set_in : (n v : Text) (hs : List Header) → find n hs ≡ none → retain n (set_in n v hs) ≡ hs
unfolding retain set_in find
retain-set_in n v [] h = rw (eq_ignore_refl n)
retain-set_in n v ((key, old) ∷ hs) h = elim (Bool-cases (eq_ignore_ascii_case key n)) [
  | inl same ↦ cc (rw same at h)
  | inr other ↦ rw other (rw other (ap (◌∷◌ (key, old)) (retain-set_in n v hs (rw other at h))))
]

-- Taking out a header that was set last gives back a message that had none of that name.
pub remove_all-set_header :
    (m : Message) (n v : Text) → get m n ≡ none → remove_all (set_header m n v) n ≡ m
unfolding get remove_all set_header
remove_all-set_header m n v h = ap (λ hs. record { headers = hs }) (retain-set_in n v m.headers h)

or_else-none {ℓ} : {A : Type ℓ} (o : Option A) → or_else o none ≡ o
or_else-none none = refl
or_else-none (some a) = refl

-- A lookup of another name does not see an added header.
pub get-add_header_ne :
    (m : Message) (n k v : Text)
    → eq_ignore_ascii_case n k ≡ false
    → get (add_header m n v) k ≡ get m k
get-add_header_ne m n k v h = rw (get-add_header m n k v) (rw h (or_else-none (get m k)))
