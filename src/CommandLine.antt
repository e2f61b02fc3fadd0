-- ===== src/CommandLine.antt =====
-- main.cpp: `Args` and `parse_args`. `std::stoul` and `std::stoi` are those of the C++ library: white
-- space, a sign, decimal digits, and nothing said of what follows them.
pub mod Decimal
pub mod RoundTrip
pub mod Filter
use af_xdp_reimpl.Prelude.{
  ℕ, zero, suc, ◌+◌, ◌-◌, ◌*◌, ◌%◌, ◌^◌, List, [], ◌∷◌, Bool, true, false, not, ◌&&◌, ◌||◌, Option,
  none, some, ltb, leb, ◌==◌, if◌then◌else◌, Text, codes, text_eq, ℤ, pos, negsuc, neg_of,
}

pub record Args : Type 0 where
  pub iface : Text
  pub filter_ip : Text
  pub queue : ℕ
  pub cpu_pin : ℤ
  pub realtime : Bool
  pub huge_pages : Bool
  pub zerocopy : Bool

abbrev pub default_args : Args
default_args = record {
  iface = codes "eth0";
  filter_ip = codes "0.0.0.0";
  queue = 0;
  cpu_pin = negsuc 0;
  realtime = false;
  huge_pages = true;
  zerocopy = true;
}

-- `std::invalid_argument` and `std::out_of_range`
pub data Exception : Type 0 where
  invalid_argument out_of_range : Exception

pub data Outcome (A : Type 0) : Type 0 where
  throws : (e : Exception) → Outcome A
  returns : (a : A) → Outcome A

abbrev pub is_space : ℕ → Bool
is_space c = c == b' ' || leb 9 c && leb c 13

abbrev pub is_digit : ℕ → Bool
is_digit c = leb b'0' c && leb c b'9'

unfoldable pub skip_space : Text → Text
skip_space [] = []
skip_space (c ∷ s) = if is_space c then skip_space s else c ∷ s

-- The value of the digits in front, behind digits whose value is `acc`.
unfoldable pub read_digits : ℕ → Text → ℕ
read_digits acc [] = acc
read_digits acc (c ∷ s) = if is_digit c then read_digits (acc * 10 + (c - b'0')) s else acc

abbrev pub magnitude : Text → Option ℕ
magnitude [] = none
magnitude (c ∷ s) = if is_digit c then some (read_digits 0 (c ∷ s)) else none

-- A sign, and whether it was a minus.
abbrev pub signed_part : Text → Bool × Text
signed_part [] = (false, [])
signed_part (c ∷ s) =
    if c == b'-' then (true, s) else if c == b'+' then (false, s) else (false, c ∷ s)

-- The exact number in front of a text.
abbrev pub number : Text → Bool × Option ℕ
number s = let (negative, t) = signed_part (skip_space s) in (negative, magnitude t)

abbrev pub stoul_of : Bool × Option ℕ → Outcome ℕ
stoul_of (negative, none) = throws invalid_argument
stoul_of (negative, some m) =
    if leb (2 ^ 64) m
    then throws out_of_range
    else returns (if negative then (2 ^ 64 - m) % 2 ^ 64 else m)

abbrev pub stoi_of : Bool × Option ℕ → Outcome ℤ
stoi_of (negative, none) = throws invalid_argument
stoi_of (negative, some m) =
    if ltb (if negative then 2 ^ 31 else 2 ^ 31 - 1) m
    then throws out_of_range
    else returns (if negative then neg_of m else pos m)

unfoldable pub stoul : Text → Outcome ℕ
unfolding skip_space read_digits
stoul s = stoul_of (number s)

unfoldable pub stoi : Text → Outcome ℤ
unfolding skip_space read_digits
stoi s = stoi_of (number s)

-- The locals of the loop.
pub record Parsing : Type 0 where
  pub a : Args
  pub got_filter : Bool

-- What a round of the loop does: it takes one argument, or two, or stops.
pub data Round : Type 0 where
  one : (p : Parsing) → Round
  two : (p : Parsing) → Round
  refused : Round
  thrown : (e : Exception) → Round

abbrev pub is_some : Option Text → Bool
is_some none = false
is_some (some v) = true

abbrev pub value_of : Option Text → Text
value_of none = []
value_of (some v) = v

abbrev pub set_args : Parsing → Args → Parsing
set_args p a = record p { a = a }

abbrev pub set_queue : Parsing → Outcome ℕ → Round
set_queue p (throws e) = thrown e
set_queue p (returns x) = two (set_args p (record p.a { queue = x % 2 ^ 32 }))

abbrev pub set_cpu : Parsing → Outcome ℤ → Round
set_cpu p (throws e) = thrown e
set_cpu p (returns x) = two (set_args p (record p.a { cpu_pin = x }))

-- A round, at an argument and the one behind it, if there is one.
unfoldable pub parse_one : Text → Option Text → Parsing → Round
parse_one arg next p =
    if text_eq arg (codes "-i") && is_some next
    then two (set_args p (record p.a { iface = value_of next }))
    else if text_eq arg (codes "-f") && is_some next
    then two (record { a = record p.a { filter_ip = value_of next }; got_filter = true })
    else if text_eq arg (codes "-q") && is_some next
    then set_queue p (stoul (value_of next))
    else if text_eq arg (codes "-c") && is_some next
    then set_cpu p (stoi (value_of next))
    else if text_eq arg (codes "-r")
    then one (set_args p (record p.a { realtime = true }))
    else if text_eq arg (codes "--no-hugepages")
    then one (set_args p (record p.a { huge_pages = false }))
    else if text_eq arg (codes "--no-zerocopy")
    then one (set_args p (record p.a { zerocopy = false }))
    else refused

-- The result: arguments, or none with the usage printed, or an exception, which nothing catches.
pub data Parsed : Type 0 where
  parsed : (a : Args) → Parsed
  usage : Parsed
  aborted : (e : Exception) → Parsed

abbrev pub finish : Parsing → Parsed
finish p = if not p.got_filter then usage else parsed p.a

-- What follows a round, by the number of arguments that it took.
abbrev pub proceed : (Parsing → Parsed) → (Parsing → Parsed) → Round → Parsed
proceed after_one after_two (one p) = after_one p
proceed after_one after_two (two p) = after_two p
proceed after_one after_two refused = usage
proceed after_one after_two (thrown e) = aborted e

unfoldable pub parse_loop : List Text → Parsing → Parsed
parse_loop [] p = finish p
parse_loop (arg ∷ []) p = proceed finish finish (parse_one arg none p)
parse_loop (arg ∷ next ∷ rest) p =
    proceed (parse_loop (next ∷ rest)) (parse_loop rest) (parse_one arg (some next) p)

-- `parse_args` on `argv`, whose first text is the program's name.
unfoldable pub parse_args : List Text → Parsed
parse_args [] = parse_loop [] (record { a = default_args; got_filter = false })
parse_args (program ∷ arguments) =
    parse_loop arguments (record { a = default_args; got_filter = false })
