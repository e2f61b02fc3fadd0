-- ===== src/Bench/Swap.antt =====
-- What `reflect_swap` does to the bytes of a packet.
use af_xdp_reimpl.Prelude.{
  ℕ, ◌+◌, ◌-◌, ◌≤◌, ◌<◌, ◌≡◌, refl, ap, ◌∙◌, arith, ◌&&◌, ltb, leb, if◌then◌else◌,
}
use af_xdp_reimpl.Bench.{swap_fields, swap_endpoints}

-- Where the byte that ends up at offset `i` of a reflected packet comes from.
abbrev pub origin : ℕ → ℕ
origin i =
    if ltb i 6
    then i + 6
    else if ltb i 12
    then i - 6
    else if ltb i 26
    then i
    else if ltb i 30
    then i + 4
    else if ltb i 34
    then i - 4
    else if ltb i 36
    then i + 2
    else if ltb i 38
    then i - 2
    else i

pub origin_involutive : (i : ℕ) → origin (origin i) ≡ i
origin_involutive i = ground arith

-- The same for one exchange of fields of `n` bytes at offsets `a` and `b`.
abbrev exchange : ℕ → ℕ → ℕ → ℕ → ℕ
exchange a b n i =
    if leb a i && ltb i (a + n)
    then i + (b - a)
    else if leb b i && ltb i (b + n)
    then i - (b - a)
    else i

swap_fields-exchange :
    (mem : ℕ → ℕ) (f p q a b n i : ℕ)
    → p ≡ f + a
    → q ≡ f + b
    → a + n ≤ b
    → swap_fields mem p q n (f + i) ≡ mem (f + exchange a b n i)
swap_fields-exchange mem f p q a b n i hp hq h = ground arith

exchanges : (i : ℕ) → exchange 0 6 6 (exchange 26 30 4 (exchange 34 36 2 i)) ≡ origin i
exchanges i = ground arith

pub swap_endpoints_inside :
    (mem : ℕ → ℕ) (f i : ℕ) → swap_endpoints mem f (f + i) ≡ mem (f + origin i)
swap_endpoints_inside mem f i =
    let mem1 = swap_fields mem f (f + 6) 6 in
    let mem2 = swap_fields mem1 (f + 26) (f + 30) 4 in
    swap_fields-exchange mem2 f (f + 34) (f + 36) 34 36 2 i refl refl (omega arith)
    ∙ swap_fields-exchange mem1 f (f + 26) (f + 30) 26 30 4 (exchange 34 36 2 i) refl refl
        (omega arith)
    ∙ swap_fields-exchange mem f f (f + 6) 0 6 6 (exchange 26 30 4 (exchange 34 36 2 i))
        (omega arith) refl (omega arith)
    ∙ ap (λ (t : ℕ). mem (f + t)) (exchanges i)

swap_fields_outside : (mem : ℕ → ℕ) (p q n j : ℕ) → j < p → p ≤ q → swap_fields mem p q n j ≡ mem j
swap_fields_outside mem p q n j h h' = ground arith

pub swap_endpoints_outside : (mem : ℕ → ℕ) (f j : ℕ) → j < f → swap_endpoints mem f j ≡ mem j
swap_endpoints_outside mem f j h =
    let mem1 = swap_fields mem f (f + 6) 6 in
    let mem2 = swap_fields mem1 (f + 26) (f + 30) 4 in
    swap_fields_outside mem2 (f + 34) (f + 36) 2 j (omega arith) (omega arith)
    ∙ swap_fields_outside mem1 (f + 26) (f + 30) 4 j (omega arith) (omega arith)
    ∙ swap_fields_outside mem f (f + 6) 6 j h (omega arith)
