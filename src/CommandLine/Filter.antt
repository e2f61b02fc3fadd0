-- ===== src/CommandLine/Filter.antt =====
-- The filter address is required.
use af_xdp_reimpl.Prelude.{
  ◌≡◌, ◌≢◌, refl, arith, ap, List, [], ◌∷◌, ◌++◌, append_assoc, append-nil, ap₂, ◌∙◌, sym, subst,
  true, false, Option, none, some, inl, inr, ◌⊎◌, Text, codes, text_eq→eq,
}
use af_xdp_reimpl.CommandLine.{
  Args, Parsing, parsed, Round, one, two, refused, thrown, parse_one, parse_loop, parse_args,
  default_args, finish, proceed, is_some, value_of,
}

-- The address is the text behind some `-f`.
abbrev pub GivesFilter : List Text → Text → Type 0
GivesFilter args ip =
    (before : List Text) × (after : List Text) × (args ≡ before ++ codes "-f" ∷ ip ∷ after)

-- A round that does not take `-f` keeps the filter.
record Keeps (p p1 : Parsing) : Type 0 where
  got_filter : p1.got_filter ≡ p.got_filter
  filter_ip : p1.a.filter_ip ≡ p.a.filter_ip

parse_one_one :
    (arg : Text) (next : Option Text) (p p1 : Parsing) → parse_one arg next p ≡ one p1 → Keeps p p1
unfolding parse_one
parse_one_one arg next p p1 h = ground arith

parse_one_two :
    (arg : Text) (next : Option Text) (p p1 : Parsing)
    → parse_one arg next p ≡ two p1
    → Keeps p p1
      ⊎ ((arg ≡ codes "-f")
          × (p1.got_filter ≡ true)
          × (p1.a.filter_ip ≡ value_of next)
          × (is_some next ≡ true))
unfolding parse_one
parse_one_two arg next p p1 h = ground (arith, text_eq→eq arg (codes "-f"))

-- What the locals of the loop know of the arguments before.
abbrev Known : List Text → Parsing → Type 0
Known seen p = p.got_filter ≡ true → GivesFilter seen p.a.filter_ip

GivesFilter-append : (xs ys : List Text) (ip : Text) → GivesFilter xs ip → GivesFilter (xs ++ ys) ip
GivesFilter-append xs ys ip (before, after, e) =
    (before, after ++ ys, ap (λ t. t ++ ys) e ∙ append_assoc before (codes "-f" ∷ ip ∷ after) ys)

Known-Keeps :
    (seen ys : List Text) (p p1 : Parsing) → Keeps p p1 → Known seen p → Known (seen ++ ys) p1
Known-Keeps seen ys p p1 k known got =
    subst (GivesFilter (seen ++ ys)) (sym k.filter_ip)
      (GivesFilter-append seen ys p.a.filter_ip (known (sym k.got_filter ∙ got)))

-- After a round that took two arguments, known of both.
Known-take_two :
    (seen : List Text) (arg : Text) (next : Option Text) (p p1 : Parsing)
    → Known seen p
    → parse_one arg next p ≡ two p1
    → Known (seen ++ arg ∷ value_of next ∷ []) p1
Known-take_two seen arg next p p1 known e got = elim (parse_one_two arg next p p1 e) [
  | inl k ↦ Known-Keeps seen (arg ∷ value_of next ∷ []) p p1 k known got
  | inr taken ↦ (seen, [], ap₂ (λ x y. seen ++ x ∷ y ∷ []) taken.0 (sym taken.2))
]

-- A round without an argument behind it takes no second one.
one_only : (arg : Text) (p p1 : Parsing) → parse_one arg none p ≢ two p1
unfolding parse_one
one_only arg p p1 h = ground arith

finish_filter :
    (seen : List Text) (p : Parsing) (a : Args)
    → Known seen p
    → finish p ≡ parsed a
    → GivesFilter (seen ++ []) a.filter_ip
finish_filter seen p a known h =
    let got : p.got_filter ≡ true = ground arith in
    let same : p.a ≡ a = ground arith in
    subst (GivesFilter (seen ++ [])) (ap (λ (x : Args). x.filter_ip) same)
      (GivesFilter-append seen [] p.a.filter_ip (known got))

-- A round that took one argument.
Known-take_one :
    (seen : List Text) (arg : Text) (next : Option Text) (p p1 : Parsing)
    → Known seen p
    → parse_one arg next p ≡ one p1
    → Known (seen ++ arg ∷ []) p1
Known-take_one seen arg next p p1 known e =
    Known-Keeps seen (arg ∷ []) p p1 (parse_one_one arg next p p1 e) known

parse_loop_filter :
    (args seen : List Text) (p : Parsing) (a : Args)
    → Known seen p
    → parse_loop args p ≡ parsed a
    → GivesFilter (seen ++ args) a.filter_ip
unfolding parse_loop
parse_loop_filter [] seen p a known h = finish_filter seen p a known h
parse_loop_filter (arg ∷ []) seen p a known h = go (parse_one arg none p) refl h
  where
    go :
        (r : Round)
        → parse_one arg none p ≡ r
        → proceed finish finish r ≡ parsed a
        → GivesFilter (seen ++ arg ∷ []) a.filter_ip
    go (one p1) e h1 =
        subst (λ l. GivesFilter l a.filter_ip) (append-nil (seen ++ arg ∷ []))
          (finish_filter (seen ++ arg ∷ []) p1 a (Known-take_one seen arg none p p1 known e) h1)
    go (two p1) e h1 = absurd (one_only arg p p1 e)
    go refused e h1 = cc
    go (thrown x) e h1 = cc
parse_loop_filter (arg ∷ next ∷ rest) seen p a known h =
    go (parse_one arg (some next) p) refl h
      (λ p1 k. parse_loop_filter (next ∷ rest) (seen ++ arg ∷ []) p1 a k)
      (λ p1 k. parse_loop_filter rest (seen ++ arg ∷ next ∷ []) p1 a k)
  where
    go :
        (r : Round)
        → parse_one arg (some next) p ≡ r
        → proceed (parse_loop (next ∷ rest)) (parse_loop rest) r ≡ parsed a
        → ((p1 : Parsing)
            → Known (seen ++ arg ∷ []) p1
            → parse_loop (next ∷ rest) p1 ≡ parsed a
            → GivesFilter ((seen ++ arg ∷ []) ++ next ∷ rest) a.filter_ip)
        → ((p1 : Parsing)
            → Known (seen ++ arg ∷ next ∷ []) p1
            → parse_loop rest p1 ≡ parsed a
            → GivesFilter ((seen ++ arg ∷ next ∷ []) ++ rest) a.filter_ip)
        → GivesFilter (seen ++ arg ∷ next ∷ rest) a.filter_ip
    go (one p1) e h1 ih1 ih2 =
        subst (λ l. GivesFilter l a.filter_ip) (append_assoc seen (arg ∷ []) (next ∷ rest))
          (ih1 p1 (Known-take_one seen arg (some next) p p1 known e) h1)
    go (two p1) e h1 ih1 ih2 =
        subst (λ l. GivesFilter l a.filter_ip) (append_assoc seen (arg ∷ next ∷ []) rest)
          (ih2 p1 (Known-take_two seen arg (some next) p p1 known e) h1)
    go refused e h1 ih1 ih2 = cc
    go (thrown x) e h1 ih1 ih2 = cc

-- Arguments are only returned when some `-f` is followed by a text, and the filter address that is
-- returned is such a text.
pub parse_args_filter :
    (program : Text) (args : List Text) (a : Args)
    → parse_args (program ∷ args) ≡ parsed a
    → GivesFilter args a.filter_ip
unfolding parse_args
parse_args_filter program args a h =
    parse_loop_filter args [] (record { a = default_args; got_filter = false }) a (λ got. cc) h
