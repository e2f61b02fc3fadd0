-- ===== src/Bench/Checksum.antt =====
-- A reflected packet keeps its checksums, and reflecting it again gives the packet back.
use af_xdp_reimpl.Prelude.{
  ℕ, zero, suc, ◌+◌, ◌-◌, ◌*◌, ◌^◌, ◌≤◌, ◌<◌, ◌≡◌, refl, ap, sym, ◌∙◌, subst, arith, Bool, true,
  inl, inr, ◌⊎◌, dec_lt,
}
use af_xdp_reimpl.Bench.{read_be16, reflect_swap}
use af_xdp_reimpl.Bench.Swap.{origin, origin_involutive}
use af_xdp_reimpl.Bench.Accept.{IsReflectable, Reflected, reflect_swap_lem}

-- The 16-bit word in network order at offset `i` of the packet, and the sum of `n` words from
-- there on, whose ones' complement is an Internet checksum.
abbrev pub word_at : (ℕ → ℕ) → ℕ → ℕ → ℕ
word_at mem f i = mem (f + i) * 256 + mem (f + (i + 1))

abbrev pub sum_words : (ℕ → ℕ) → ℕ → ℕ → ℕ → ℕ
sum_words mem f i zero = 0
sum_words mem f i (suc n) = word_at mem f i + sum_words mem f (i + 2) n

sum_words_add :
    (mem : ℕ → ℕ) (f n m i : ℕ)
    → sum_words mem f i (n + m) ≡ sum_words mem f i n + sum_words mem f (i + 2 * n) m
sum_words_add mem f zero m i =
    let same : 0 + m ≡ m = omega arith in
    let at : i + 2 * 0 ≡ i = omega arith in
    omega (arith, ap (sum_words mem f i) same, ap (λ (t : ℕ). sum_words mem f t m) at)
sum_words_add mem f (suc n) m i =
    let longer : suc n + m ≡ suc (n + m) = omega arith in
    let at : i + 2 + 2 * n ≡ i + 2 * suc n = omega arith in
    omega (
      arith,
      ap (sum_words mem f i) longer,
      sum_words_add mem f n m (i + 2),
      ap (λ (t : ℕ). sum_words mem f t m) at,
    )

Reflected-ok :
    (mem : ℕ → ℕ) (f size : ℕ)
    → ((a : ℕ) → mem a < 256)
    → (reflect_swap mem f size).0 ≡ true
    → Reflected mem f size (reflect_swap mem f size)
Reflected-ok mem f size bytes h = elim (reflect_swap_lem mem f size bytes) [
  | inl r ↦ r
  | inr u ↦ cc
]

origin_past : (i : ℕ) → 38 ≤ i → origin i ≡ i
origin_past i h = ground arith

module _ (mem mem' : ℕ → ℕ) (f : ℕ) (inside : (i : ℕ) → mem' (f + i) ≡ mem (f + origin i)) where
  kept_past : (i : ℕ) → 38 ≤ i → mem' (f + i) ≡ mem (f + i)
  kept_past i h = inside i ∙ ap (λ (t : ℕ). mem (f + t)) (origin_past i h)

  sum_words_past : (n i : ℕ) → 38 ≤ i → sum_words mem' f i n ≡ sum_words mem f i n
  sum_words_past zero i h = refl
  sum_words_past (suc n) i h = omega (
    arith,
    kept_past i h,
    kept_past (i + 1) (omega arith),
    sum_words_past n (i + 2) (omega arith),
  )

  -- The IP header of ten words.
  ip_words : sum_words mem' f 14 10 ≡ sum_words mem f 14 10
  ip_words = omega (
    arith,
    inside 14,
    inside 15,
    inside 16,
    inside 17,
    inside 18,
    inside 19,
    inside 20,
    inside 21,
    inside 22,
    inside 23,
    inside 24,
    inside 25,
    inside 26,
    inside 27,
    inside 28,
    inside 29,
    inside 30,
    inside 31,
    inside 32,
    inside 33,
  )

  -- The addresses of the UDP pseudo-header and the ports.
  endpoint_words : sum_words mem' f 26 6 ≡ sum_words mem f 26 6
  endpoint_words = omega (
    arith,
    inside 26,
    inside 27,
    inside 28,
    inside 29,
    inside 30,
    inside 31,
    inside 32,
    inside 33,
    inside 34,
    inside 35,
    inside 36,
    inside 37,
  )

  -- Those, and the rest of the UDP packet behind them.
  udp_words : (n : ℕ) → sum_words mem' f 26 (6 + n) ≡ sum_words mem f 26 (6 + n)
  udp_words n = omega (
    arith,
    sum_words_add mem' f 6 n 26,
    sum_words_add mem f 6 n 26,
    endpoint_words,
    sum_words_past n 38 (omega arith),
  )

-- A packet that is turned round keeps the sum of the words of its IP header, and that of the
-- addresses and the UDP packet behind them, of any length; so both checksums stay right.
pub reflect_swap-sum_words :
    (mem : ℕ → ℕ) (f size n : ℕ)
    → ((a : ℕ) → mem a < 256)
    → (reflect_swap mem f size).0 ≡ true
    → let mem' = (reflect_swap mem f size).1 in
      (sum_words mem' f 14 10 ≡ sum_words mem f 14 10)
      × (sum_words mem' f 26 (6 + n) ≡ sum_words mem f 26 (6 + n))
reflect_swap-sum_words mem f size n bytes h =
    let r = Reflected-ok mem f size bytes h in
    let mem' = (reflect_swap mem f size).1 in
    (ip_words mem mem' f r.inside, udp_words mem mem' f r.inside n)

-- Every address is before the packet or at an offset of it.
locate : (f j : ℕ) → (j < f) ⊎ ((i : ℕ) × (j ≡ f + i))
locate f j = elim (dec_lt j f) [ yes l ↦ inl l | no l ↦ inr (j - f, omega arith) ]

module _ (mem : ℕ → ℕ) (f size : ℕ) (bytes : (a : ℕ) → mem a < 256) (out : Bool × (ℕ → ℕ))
    (r : Reflected mem f size out) where
  still_bytes : (a : ℕ) → out.1 a < 256
  still_bytes a = elim (locate f a) [
    | inl l ↦ omega (arith, r.outside a l, bytes a)
    | inr (i, e) ↦ omega (arith, ap out.1 e, r.inside i, bytes (f + origin i))
  ]

  same_word :
      (i : ℕ)
      → origin i ≡ i
      → origin (i + 1) ≡ i + 1
      → read_be16 out.1 (f + i) ≡ read_be16 mem (f + i)
  same_word i h h' =
      let next : f + i + 1 ≡ f + (i + 1) = omega arith in
      omega (
        arith,
        r.inside i,
        r.inside (i + 1),
        ap (λ (t : ℕ). mem (f + t)) h,
        ap (λ (t : ℕ). mem (f + t)) h',
        ap out.1 next,
        ap mem next,
      )

  still-IsReflectable : IsReflectable out.1 f size
  still-IsReflectable =
      let s = r.shape in
      record {
        headers_fit = s.headers_fit;
        link_fits = s.link_fits;
        ether_type = omega (arith, s.ether_type, same_word 12 refl refl);
        version = omega (arith, s.version, r.inside 14);
        header_words = omega (arith, s.header_words, r.inside 14);
        protocol = omega (arith, s.protocol, r.inside 23);
        whole = subst (λ (t : ℕ). (t ≡ 0) ⊎ (t ≡ 2 ^ 14)) (sym (same_word 20 refl refl)) s.whole;
        ip_header = omega (arith, s.ip_header, same_word 16 refl refl);
        ip_length = omega (arith, s.ip_length, same_word 16 refl refl);
        udp_length = omega (arith, s.udp_length, same_word 16 refl refl, same_word 38 refl refl);
      }

-- Reflecting a reflected packet is possible, and gives the bytes back as they came.
pub reflect_swap-reflect_swap :
    (mem : ℕ → ℕ) (f size : ℕ)
    → ((a : ℕ) → mem a < 256)
    → (reflect_swap mem f size).0 ≡ true
    → let back = reflect_swap (reflect_swap mem f size).1 f size in
      (back.0 ≡ true) × ((a : ℕ) → back.1 a ≡ mem a)
reflect_swap-reflect_swap mem f size bytes h =
    let out = reflect_swap mem f size in
    let r = Reflected-ok mem f size bytes h in
    elim (reflect_swap_lem out.1 f size (still_bytes mem f size bytes out r)) [
      | inr u ↦ absurd (u.shape (still-IsReflectable mem f size bytes out r))
      | inl back ↦ (
        back.ok,
        λ a. elim (locate f a) [
          | inl l ↦ back.outside a l ∙ r.outside a l
          | inr (i, e) ↦
              ap (reflect_swap out.1 f size).1 e
              ∙ back.inside i
              ∙ r.inside (origin i)
              ∙ ap (λ (t : ℕ). mem (f + t)) (origin_involutive i)
              ∙ ap mem (sym e)
        ],
      )
    ]
