-- ===== src/Net/RoundTrip.antt =====
-- Network byte order, on either kind of host.
use mathlib.Core.List.{reverse-cons, reverse-reverse}
use native.Mathlib.Nat.{pow-suc}
use candy.Base.{
  ℕ, zero, suc, ◌/◌, ◌^◌, ◌<◌, ◌≡◌, refl, sym, ap, ap₂, ◌∙◌, List, [], ◌∷◌, ◌++◌, reverse, All,
  length, length-append, get_or, arith,
}
use candy.Net.Order.{
  Endian, little, big, le_value, le_bytes, be_value, be_bytes, load, store, swap_bytes, byteswap,
  ntoh, hton,
}

abbrev pub IsBytes : List ℕ → Type 0
IsBytes = All (λ b. b < 256)

pub length-reverse {ℓ} : {A : Type ℓ} (xs : List A) → length (reverse xs) ≡ length xs
length-reverse [] = refl
length-reverse (x ∷ xs) =
    omega
      (arith, ap length (reverse-cons x xs), length-append (reverse xs) (x ∷ []), length-reverse xs)

IsBytes-append : (xs ys : List ℕ) → IsBytes xs → IsBytes ys → IsBytes (xs ++ ys)
IsBytes-append [] ys h k = k
IsBytes-append (x ∷ xs) ys h k = (h.0, IsBytes-append xs ys h.1 k)

IsBytes-reverse : (xs : List ℕ) → IsBytes xs → IsBytes (reverse xs)
IsBytes-reverse [] h = tt
IsBytes-reverse (x ∷ xs) h =
    rw (reverse-cons x xs) (IsBytes-append (reverse xs) (x ∷ []) (IsBytes-reverse xs h.1) (h.0, tt))

IsBytes-le_bytes : (w v : ℕ) → IsBytes (le_bytes w v)
IsBytes-le_bytes zero v = tt
IsBytes-le_bytes (suc w) v = (omega arith, IsBytes-le_bytes w (v / 256))

pub length-le_bytes : (w v : ℕ) → length (le_bytes w v) ≡ w
length-le_bytes zero v = refl
length-le_bytes (suc w) v = ap suc (length-le_bytes w (v / 256))

le_value-le_bytes : (w v : ℕ) → v < 256 ^ w → le_value (le_bytes w v) ≡ v
le_value-le_bytes zero v h = omega arith
le_value-le_bytes (suc w) v h =
    omega (arith, le_value-le_bytes w (v / 256) (omega (arith, pow-suc 256 w)))

pub le_bytes-le_value : (bs : List ℕ) → IsBytes bs → le_bytes (length bs) (le_value bs) ≡ bs
le_bytes-le_value [] h = refl
le_bytes-le_value (b ∷ bs) h =
    ap₂ ◌∷◌ (omega arith) (ap (le_bytes (length bs)) (omega arith) ∙ le_bytes-le_value bs h.1)

swap_bytes-cons :
    (x : ℕ) (xs : List ℕ) (n : ℕ) → swap_bytes (x ∷ xs) (suc n) ≡ swap_bytes xs n ++ x ∷ []
unfolding swap_bytes
swap_bytes-cons x xs zero = refl
swap_bytes-cons x xs (suc n) = ap (◌∷◌ (get_or xs n 0)) (swap_bytes-cons x xs n)

swap_bytes-reverse : (xs : List ℕ) → swap_bytes xs (length xs) ≡ reverse xs
swap_bytes-reverse [] = unfold swap_bytes in refl
swap_bytes-reverse (x ∷ xs) =
    swap_bytes-cons x xs (length xs)
    ∙ ap (λ l. l ++ x ∷ []) (swap_bytes-reverse xs)
    ∙ sym (reverse-cons x xs)

-- An integer read from the wire with ntoh is the big-endian value of its bytes, whichever byte
-- order the host has, at every width.
pub ntoh-load :
    (e : Endian) (bs : List ℕ) → IsBytes bs → ntoh e (length bs) (load e bs) ≡ be_value bs
unfolding ntoh load store byteswap
ntoh-load little bs h =
    ap (λ l. le_value (swap_bytes l (length bs))) (le_bytes-le_value bs h)
    ∙ ap le_value (swap_bytes-reverse bs)
ntoh-load big bs h = refl

pub be_bytes-be_value : (bs : List ℕ) → IsBytes bs → be_bytes (length bs) (be_value bs) ≡ bs
be_bytes-be_value bs h =
    ap (λ n. reverse (le_bytes n (be_value bs))) (sym (length-reverse bs))
    ∙ ap reverse (le_bytes-le_value (reverse bs) (IsBytes-reverse bs h))
    ∙ reverse-reverse bs

swap_le_bytes : (w v : ℕ) → swap_bytes (le_bytes w v) w ≡ reverse (le_bytes w v)
swap_le_bytes w v =
    ap (swap_bytes (le_bytes w v)) (sym (length-le_bytes w v)) ∙ swap_bytes-reverse (le_bytes w v)

-- An integer written with hton is its big-endian bytes, whichever byte order the host has.
pub store-hton : (e : Endian) (w v : ℕ) → v < 256 ^ w → store e w (hton e w v) ≡ be_bytes w v
unfolding hton ntoh load store byteswap
store-hton little w v h =
    ap (λ l. le_bytes w (le_value l)) (swap_le_bytes w v)
    ∙ ap (λ n. le_bytes n (le_value (be_bytes w v)))
        (sym (length-reverse (le_bytes w v) ∙ length-le_bytes w v))
    ∙ le_bytes-le_value (be_bytes w v) (IsBytes-reverse (le_bytes w v) (IsBytes-le_bytes w v))
store-hton big w v h = refl

-- What hton writes, ntoh reads back: the two sides may have different byte orders.
pub hton-ntoh :
    (sender receiver : Endian) (w v : ℕ)
    → v < 256 ^ w
    → ntoh receiver w (load receiver (store sender w (hton sender w v))) ≡ v
hton-ntoh sender receiver w v h =
    ap (λ l. ntoh receiver w (load receiver l)) (store-hton sender w v h)
    ∙ ap (λ n. ntoh receiver n (load receiver (be_bytes w v)))
        (sym (length-reverse (le_bytes w v) ∙ length-le_bytes w v))
    ∙ ntoh-load receiver (be_bytes w v) (IsBytes-reverse (le_bytes w v) (IsBytes-le_bytes w v))
    ∙ ap le_value (reverse-reverse (le_bytes w v))
    ∙ le_value-le_bytes w v h
