-- ===== src/Steps.antt =====
-- Methods that can fail and that change a state: each gives its result and the state that it leaves,
-- as the `?` of the source and the shared state want it.
use ruzor.Prelude.{◌≡◌, refl}
use ruzor.Error.{Result, ok, err}

-- what follows an error is skipped
abbrev pub follow : {A B C : Type 0} → Result A × C → (A → C → Result B × C) → Result B × C
follow (err e, c) next = (err e, c)
follow (ok a, c) next = next a c

infixl 5 ◌>>=◌
abbrev pub ◌>>=◌ : {A B C : Type 0} → (C → Result A × C) → (A → C → Result B × C) → C → Result B × C
(first >>= next) c = follow (first c) next

abbrev pub give : {A C : Type 0} → Result A → C → Result A × C
give result c = (result, c)

pub follow_assoc :
    {X Y Z D : Type 0} (x : Result X × D) (f : X → D → Result Y × D) (g : Y → D → Result Z × D)
    → follow (follow x f) g ≡ follow x (λ a c. follow (f a c) g)
follow_assoc (ok a, c) f g = refl
follow_assoc (err e, c) f g = refl

pub follow_done : {D : Type 0} (x : Result (Unit {0}) × D) → follow x (λ done. give (ok tt)) ≡ x
follow_done (ok u, c) = refl
follow_done (err e, c) = refl
