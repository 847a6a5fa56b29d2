-- ===== src/Manager/StunLaws.antt =====
-- The answer of a STUN server: the search ends, and finds the address in a well-formed answer.
use candy.Base.{
  ℕ, zero, suc, ◌+◌, ◌*◌, ◌≤◌, ◌<◌, ◌≡◌, ◌≢◌, refl, ◌∙◌, Bool, true, false, List, [], ◌∷◌, Option,
  none, some, inl, inr, arith, Bool-cases, if◌then◌else◌, ltb, length, ◌==◌,
}
use candy.Base.Buffer.{slice}
use candy.Net.Order.{Endian, load, ntoh}
use candy.Net.RoundTrip.{IsBytes, ntoh-load}
use candy.Manager.Stun.{
  no_fuel, mapped_at, skip, Visit, ends, continues, read_mapped, attribute, visit, find_mapped,
  stun_fuel, response_size, found,
}

-- A round ends in one of the proper ways, or it goes on behind where it was.
IsProgress : ℕ → ℕ → Visit → Type 0
IsProgress pos limit (ends found) = found ≢ no_fuel
IsProgress pos limit (continues next) = (pos < limit) × (pos < next)

if-IsProgress :
    (pos limit : ℕ) (b : Bool) (u v : Visit)
    → IsProgress pos limit u
    → IsProgress pos limit v
    → IsProgress pos limit (if b then u else v)
if-IsProgress pos limit true u v h k = h
if-IsProgress pos limit false u v h k = k

mapped_at_lem : (e : Endian) (p i : ℕ) (o o' : Option ℕ) → mapped_at e p i o o' ≢ no_fuel
mapped_at_lem e p i none o' = λ h. cc
mapped_at_lem e p i (some port) none = λ h. cc
mapped_at_lem e p i (some port) (some ip) = λ h. cc

skip-IsProgress : (pos limit : ℕ) (o : Option ℕ) → pos < limit → IsProgress pos limit (skip pos o)
unfolding IsProgress
skip-IsProgress pos limit none h = λ e. cc
skip-IsProgress pos limit (some size) h = (h, omega arith)

attribute-IsProgress :
    (e : Endian) (pos limit : ℕ) (b : List ℕ) (o : Option ℕ)
    → pos < limit
    → IsProgress pos limit (attribute e pos b o)
unfolding attribute IsProgress read_mapped
attribute-IsProgress e pos limit b none h = λ k. cc
attribute-IsProgress e pos limit b (some kind) h =
    if-IsProgress pos limit (kind == 1) _ _ (mapped_at_lem e _ _ _ _) (
      if-IsProgress pos limit (kind == 0x20) _ _ (mapped_at_lem e _ _ _ _)
        (skip-IsProgress pos limit _ h))

visit-IsProgress :
    (e : Endian) (pos limit : ℕ) (b : List ℕ) → IsProgress pos limit (visit e pos limit b)
unfolding visit
visit-IsProgress e pos limit b = elim (Bool-cases (ltb pos limit)) [
  | inl more ↦ rw more (attribute-IsProgress e pos limit b _ (ground (arith, more)))
  | inr done ↦ rw done (unfold IsProgress in λ k. cc)
]

-- One round more, when the rounds behind it end.
ends_by :
    (fuel : ℕ) (e : Endian) (pos limit : ℕ) (b : List ℕ)
    → ((next : ℕ) → pos < limit → pos < next → find_mapped fuel e next limit b ≢ no_fuel)
    → (v : Visit) → IsProgress pos limit v
    → visit e pos limit b ≡ v
    → find_mapped (suc fuel) e pos limit b ≢ no_fuel
unfolding find_mapped IsProgress
ends_by fuel e pos limit b rest (ends result) good is = rw (is, find_mapped) good
ends_by fuel e pos limit b rest (continues next) good is =
    rw (is, find_mapped) (rest next good.0 good.1)

-- With as much fuel as there are places left, the search ends.
find_mapped_ends :
    (fuel : ℕ) (e : Endian) (pos limit : ℕ) (b : List ℕ)
    → limit < pos + fuel
    → 0 < fuel
    → find_mapped fuel e pos limit b ≢ no_fuel
find_mapped_ends zero e pos limit b h k = absurd (omega arith)
find_mapped_ends (suc fuel) e pos limit b h k =
    ends_by fuel e pos limit b
      (λ next below onward. find_mapped_ends fuel e next limit b (omega arith) (omega arith))
      (visit e pos limit b) (visit-IsProgress e pos limit b) refl

pub two_bytes :
    (e : Endian) (x y : ℕ) → x < 256 → y < 256 → ntoh e 2 (load e (x ∷ y ∷ [])) ≡ x * 256 + y
two_bytes e x y h k = ntoh-load e (x ∷ y ∷ []) (h, (k, tt)) ∙ omega arith

slice_two :
    (i : ℕ) (b : List ℕ)
    → IsBytes b
    → i + 2 ≤ length b
    → (x : ℕ) × (y : ℕ) × (slice i 2 b ≡ x ∷ y ∷ []) × (x < 256) × (y < 256)
slice_two i [] h k = absurd (omega arith)
slice_two zero (x ∷ []) h k = absurd (omega arith)
slice_two zero (x ∷ (y ∷ b)) h k = (x, y, refl, h.0, h.1.0)
slice_two (suc i) (x ∷ b) h k = slice_two i b h.1 (omega arith)

-- The search through the attributes of an answer of bytes that has the header ends before its fuel,
-- whatever lengths the answer states.
pub stun_search_ends :
    (e : Endian) (b : List ℕ)
    → IsBytes b
    → response_size ≤ length b
    → find_mapped stun_fuel e 0 (ntoh e 2 (load e (slice 2 2 b))) b ≢ no_fuel
stun_search_ends e b bytes long =
    let (x, y, is, hx, hy) = slice_two 2 b bytes (omega arith) in
    rw is (find_mapped_ends stun_fuel e 0 _ b (omega (arith, two_bytes e x y hx hy)) (omega arith))
