-- ===== src/Base/Getline.antt =====
-- std::getline with a delimiter, called until the end of a text.
use candy.Base.{ℕ, ◌≡◌, ◌≢◌, refl, List, [], ◌∷◌, ◌++◌, arith, if◌then◌else◌, ◌==◌}
use candy.Base.Chars.{Lacks}

abbrev add_front : ℕ → List (List ℕ) → List (List ℕ)
add_front x [] = (x ∷ []) ∷ []
add_front x (p ∷ ps) = (x ∷ p) ∷ ps

-- What std::getline gives for a text, one call after the other: nothing at the end of the text.
unfoldable pub pieces : ℕ → List ℕ → List (List ℕ)
pieces c [] = []
pieces c (x ∷ s) = let rest = pieces c s in if x == c then [] ∷ rest else add_front x rest

pub pieces-append : (c : ℕ) (xs s : List ℕ) → Lacks c xs → pieces c (xs ++ c ∷ s) ≡ xs ∷ pieces c s
unfolding pieces
pieces-append c [] s h = ground arith
pieces-append c (x ∷ xs) s h = ground (arith, h.0, pieces-append c xs s h.1)

pieces-Lacks : (c x : ℕ) (xs : List ℕ) → Lacks c (x ∷ xs) → pieces c (x ∷ xs) ≡ (x ∷ xs) ∷ []
unfolding pieces
pieces-Lacks c x [] h = ground (arith, h.0)
pieces-Lacks c x (y ∷ xs) h = ground (arith, h.0, pieces-Lacks c y xs h.1)

pub pieces-whole : (c : ℕ) (xs : List ℕ) → xs ≢ [] → Lacks c xs → pieces c xs ≡ xs ∷ []
pieces-whole c [] ne h = absurd (ne refl)
pieces-whole c (x ∷ xs) ne h = pieces-Lacks c x xs h
