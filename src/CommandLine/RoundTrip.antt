-- ===== src/CommandLine/RoundTrip.antt =====
-- A command line that is written from arguments is parsed back to them.
use af_xdp_reimpl.Prelude.{
  decimal, ℕ, ◌^◌, ◌<◌, ◌%◌, ◌≡◌, refl, arith, List, [], ◌∷◌, Bool, true, false, not, ℤ, some, ap,
  ◌∙◌, Text, codes,
}
use af_xdp_reimpl.CommandLine.{
  Args, Parsing, parsed, parse_one, parse_loop, parse_args, returns, stoul, stoi, set_queue, two,
  set_args, set_cpu,
}
use af_xdp_reimpl.CommandLine.Decimal.{signed_decimal, FitsInt, stoul-decimal, stoi-signed_decimal}

abbrev switch : Bool → Text → List Text → List Text
switch true option rest = option ∷ rest
switch false option rest = rest

-- The command line of a program that asks for these arguments, each spelled out.
abbrev pub render : Args → List Text
render a =
    codes "-i"
    ∷ a.iface
    ∷ codes "-f"
    ∷ a.filter_ip
    ∷ codes "-q"
    ∷ decimal a.queue
    ∷ codes "-c"
    ∷ signed_decimal a.cpu_pin
    ∷ switch a.realtime (codes "-r") (
        switch (not a.huge_pages) (codes "--no-hugepages")
          (switch (not a.zerocopy) (codes "--no-zerocopy") []))

pub record IsArgs (a : Args) : Type 0 where
  pub queue : a.queue < 2 ^ 32
  pub cpu_pin : FitsInt a.cpu_pin

-- The rounds of the loop that take two arguments.
module _ (rest : List Text) (p : Parsing) where
  loop-two :
      (arg v : Text) (p1 : Parsing)
      → parse_one arg (some v) p ≡ two p1
      → parse_loop (arg ∷ v ∷ rest) p ≡ parse_loop rest p1
  unfolding parse_loop
  loop-two arg v p1 e = rw e refl

  loop-iface :
      (v : Text)
      → parse_loop (codes "-i" ∷ v ∷ rest) p
        ≡ parse_loop rest (record p { a = record p.a { iface = v } })
  unfolding parse_loop parse_one
  loop-iface v = refl

  loop-filter_ip :
      (v : Text)
      → parse_loop (codes "-f" ∷ v ∷ rest) p
        ≡ parse_loop rest (record { a = record p.a { filter_ip = v }; got_filter = true })
  unfolding parse_loop parse_one
  loop-filter_ip v = refl

  loop-queue :
      (v : Text) (n : ℕ)
      → stoul v ≡ returns n
      → n < 2 ^ 32
      → parse_loop (codes "-q" ∷ v ∷ rest) p
        ≡ parse_loop rest (record p { a = record p.a { queue = n } })
  unfolding parse_one
  loop-queue v n e h =
      let word : n % 2 ^ 32 ≡ n = omega arith in
      loop-two (codes "-q") v _
        (ap (set_queue p) e ∙ ap (λ (m : ℕ). two (set_args p (record p.a { queue = m }))) word)

  loop-cpu_pin :
      (v : Text) (z : ℤ)
      → stoi v ≡ returns z
      → parse_loop (codes "-c" ∷ v ∷ rest) p
        ≡ parse_loop rest (record p { a = record p.a { cpu_pin = z } })
  unfolding parse_one
  loop-cpu_pin v z e = loop-two (codes "-c") v _ (ap (set_cpu p) e)

-- A switch that may be left out.
loop-realtime :
    (b : Bool) (rest : List Text) (p : Parsing)
    → p.a.realtime ≡ false
    → parse_loop (switch b (codes "-r") rest) p
      ≡ parse_loop rest (record p { a = record p.a { realtime = b } })
unfolding parse_loop parse_one
loop-realtime false rest p e = rw (← e) refl
loop-realtime true [] p e = refl
loop-realtime true (x ∷ rest) p e = refl

loop-huge_pages :
    (b : Bool) (rest : List Text) (p : Parsing)
    → p.a.huge_pages ≡ true
    → parse_loop (switch (not b) (codes "--no-hugepages") rest) p
      ≡ parse_loop rest (record p { a = record p.a { huge_pages = b } })
unfolding parse_loop parse_one
loop-huge_pages true rest p e = rw (← e) refl
loop-huge_pages false [] p e = refl
loop-huge_pages false (x ∷ rest) p e = refl

loop-zerocopy :
    (b : Bool) (rest : List Text) (p : Parsing)
    → p.a.zerocopy ≡ true
    → parse_loop (switch (not b) (codes "--no-zerocopy") rest) p
      ≡ parse_loop rest (record p { a = record p.a { zerocopy = b } })
unfolding parse_loop parse_one
loop-zerocopy true rest p e = rw (← e) refl
loop-zerocopy false [] p e = refl
loop-zerocopy false (x ∷ rest) p e = refl

-- `parse_args` reads back the arguments of a command line that spells them out, if the queue is a
-- 32-bit number and the CPU an `int`.
pub parse_args-render :
    (program : Text) (a : Args) → IsArgs a → parse_args (program ∷ render a) ≡ parsed a
unfolding parse_args
parse_args-render program a v =
    loop-iface _ _ a.iface
    ∙ loop-filter_ip _ _ a.filter_ip
    ∙ loop-queue _ _ (decimal a.queue) a.queue (stoul-decimal a.queue (omega (arith, v.queue)))
        v.queue
    ∙ loop-cpu_pin _ _ (signed_decimal a.cpu_pin) a.cpu_pin
        (stoi-signed_decimal a.cpu_pin v.cpu_pin)
    ∙ loop-realtime a.realtime _ _ refl
    ∙ loop-huge_pages a.huge_pages _ _ refl
    ∙ loop-zerocopy a.zerocopy [] _ refl
    ∙ (unfold parse_loop in refl)
