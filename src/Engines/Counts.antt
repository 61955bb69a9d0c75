-- ===== src/Engines/Counts.antt =====
-- What a list of reports or of whitelistings makes of the record of one digest, for the records
-- of src/engines.rs.
use ruzor.Prelude.{
  ℕ, suc, ◌+◌, ◌≡◌, refl, sym, ◌∙◌, Option, none, some, List, [], ◌∷◌, ◌++◌, arith, inl, inr,
  Bool-cases, if◌then◌else◌, length,
}
use ruzor.Prelude.Int.{ℤ, pos, ◌+ℤ◌, ◌≤ℤ◌, ltb_ℤ, i64_max}
use ruzor.Text.{Text, eq_text}
use ruzor.Engines.{Record, bump, or_now, r_increment, wl_increment}
use ruzor.Engines.Lawful.{changed_each}

-- the readings of the clock at which the digests that are `k` are counted
abbrev pub times_of : Text → ℕ → (ℕ → ℤ) → List Text → List ℤ
times_of k i now [] = []
times_of k i now (digest ∷ digests) =
    (if eq_text digest k then now i ∷ [] else []) ++ times_of k (i + 1) now digests

-- `count + n`, that stops at i64::MAX
abbrev pub saturated : ℤ → ℕ → ℤ
saturated count n = if ltb_ℤ (count +ℤ pos n) (pos i64_max) then count +ℤ pos n else pos i64_max

-- a time that stays once it is set
abbrev pub first_of : Option ℤ → List ℤ → Option ℤ
first_of (some t) times = some t
first_of none [] = none
first_of none (t ∷ times) = some t

-- a time that is always the last
abbrev pub last_of : Option ℤ → List ℤ → Option ℤ
last_of old [] = old
last_of old (t ∷ []) = some t
last_of old (t ∷ u ∷ times) = last_of old (u ∷ times)

-- The record was reported at these times, and nothing else was done to it.
pub record Reported (times : List ℤ) (r r' : Record) : Type 0 where
  pub r_count_is : r'.r_count ≡ saturated r.r_count (length times)
  pub r_entered_is : r'.r_entered ≡ first_of r.r_entered times
  pub r_updated_is : r'.r_updated ≡ last_of r.r_updated times
  pub wl_count_is : r'.wl_count ≡ r.wl_count
  pub wl_entered_is : r'.wl_entered ≡ r.wl_entered
  pub wl_updated_is : r'.wl_updated ≡ r.wl_updated

-- The record was whitelisted at these times, and nothing else was done to it.
pub record Whitelisted (times : List ℤ) (r r' : Record) : Type 0 where
  pub wl_count_is : r'.wl_count ≡ saturated r.wl_count (length times)
  pub wl_entered_is : r'.wl_entered ≡ first_of r.wl_entered times
  pub wl_updated_is : r'.wl_updated ≡ last_of r.wl_updated times
  pub r_count_is : r'.r_count ≡ r.r_count
  pub r_entered_is : r'.r_entered ≡ r.r_entered
  pub r_updated_is : r'.r_updated ≡ r.r_updated

abbrev changed_at : (ℤ → Record → Record) → List ℤ → Record → Record
changed_at change [] r = r
changed_at change (t ∷ times) r = changed_at change times (change t r)

changed_each-changed_at :
    (change : ℤ → Record → Record) (k : Text) (i : ℕ) (now : ℕ → ℤ) (ds : List Text) (r : Record)
    → changed_each change k i now ds r ≡ changed_at change (times_of k i now ds) r
changed_each-changed_at change k i now [] r = refl
changed_each-changed_at change k i now (d ∷ ds) r = elim (Bool-cases (eq_text d k)) [
  | inl h ↦ rw h (changed_each-changed_at change k (i + 1) now ds (change (now i) r))
  | inr h ↦ rw h (changed_each-changed_at change k (i + 1) now ds r)
]

saturated_zero : (c : ℤ) → c ≤ℤ pos i64_max → saturated c 0 ≡ c
unfolding ◌+ℤ◌
saturated_zero c h = ground arith

saturated-bump : (c : ℤ) (n : ℕ) → c ≤ℤ pos i64_max → saturated (bump c) n ≡ saturated c (suc n)
unfolding ◌+ℤ◌ bump
saturated-bump c n h = ground arith

bump-le : (c : ℤ) → c ≤ℤ pos i64_max → bump c ≤ℤ pos i64_max
unfolding ◌+ℤ◌ bump
bump-le c h = ground arith

first_of-nil : (o : Option ℤ) → first_of o [] ≡ o
first_of-nil none = refl
first_of-nil (some t) = refl

first_of-or_now :
    (o : Option ℤ) (t : ℤ) (times : List ℤ) → first_of (or_now o t) times ≡ first_of o (t ∷ times)
first_of-or_now none t times = refl
first_of-or_now (some e) t times = refl

last_of_cons_any :
    (old other : Option ℤ) (t : ℤ) (times : List ℤ)
    → last_of old (t ∷ times) ≡ last_of other (t ∷ times)
last_of_cons_any old other t [] = refl
last_of_cons_any old other t (u ∷ times) = last_of_cons_any old other u times

last_of-cons :
    (old : Option ℤ) (t : ℤ) (times : List ℤ) → last_of (some t) times ≡ last_of old (t ∷ times)
last_of-cons old t [] = refl
last_of-cons old t (u ∷ times) = last_of_cons_any (some t) old u times

changed_at-Reported :
    (times : List ℤ) (r : Record)
    → r.r_count ≤ℤ pos i64_max
    → Reported times r (changed_at r_increment times r)
unfolding r_increment
changed_at-Reported [] r h = record {
  r_count_is = sym (saturated_zero r.r_count h);
  r_entered_is = sym (first_of-nil r.r_entered);
  r_updated_is = refl;
  wl_count_is = refl;
  wl_entered_is = refl;
  wl_updated_is = refl;
}
changed_at-Reported (t ∷ times) r h =
    let rest = changed_at-Reported times (r_increment t r) (bump-le r.r_count h) in
    record {
      r_count_is = rest.r_count_is ∙ saturated-bump r.r_count (length times) h;
      r_entered_is = rest.r_entered_is ∙ first_of-or_now r.r_entered t times;
      r_updated_is = rest.r_updated_is ∙ last_of-cons r.r_updated t times;
      wl_count_is = rest.wl_count_is;
      wl_entered_is = rest.wl_entered_is;
      wl_updated_is = rest.wl_updated_is;
    }

changed_at-Whitelisted :
    (times : List ℤ) (r : Record)
    → r.wl_count ≤ℤ pos i64_max
    → Whitelisted times r (changed_at wl_increment times r)
unfolding wl_increment
changed_at-Whitelisted [] r h = record {
  wl_count_is = sym (saturated_zero r.wl_count h);
  wl_entered_is = sym (first_of-nil r.wl_entered);
  wl_updated_is = refl;
  r_count_is = refl;
  r_entered_is = refl;
  r_updated_is = refl;
}
changed_at-Whitelisted (t ∷ times) r h =
    let rest = changed_at-Whitelisted times (wl_increment t r) (bump-le r.wl_count h) in
    record {
      wl_count_is = rest.wl_count_is ∙ saturated-bump r.wl_count (length times) h;
      wl_entered_is = rest.wl_entered_is ∙ first_of-or_now r.wl_entered t times;
      wl_updated_is = rest.wl_updated_is ∙ last_of-cons r.wl_updated t times;
      r_count_is = rest.r_count_is;
      r_entered_is = rest.r_entered_is;
      r_updated_is = rest.r_updated_is;
    }

module _ (k : Text) (now : ℕ → ℤ) (ds : List Text) (r : Record) where
  pub changed_each-Reported :
      r.r_count ≤ℤ pos i64_max
      → Reported (times_of k 0 now ds) r (changed_each r_increment k 0 now ds r)
  changed_each-Reported h =
      rw (changed_each-changed_at r_increment k 0 now ds r)
        (changed_at-Reported (times_of k 0 now ds) r h)

  pub changed_each-Whitelisted :
      r.wl_count ≤ℤ pos i64_max
      → Whitelisted (times_of k 0 now ds) r (changed_each wl_increment k 0 now ds r)
  changed_each-Whitelisted h =
      rw (changed_each-changed_at wl_increment k 0 now ds r)
        (changed_at-Whitelisted (times_of k 0 now ds) r h)
