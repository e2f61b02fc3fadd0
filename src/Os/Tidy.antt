-- ===== src/Os/Tidy.antt =====
-- Resources: what a history has opened and closed, and programs that leave nothing behind but what
-- their result owns.
use af_xdp_reimpl.Prelude.{ℕ, Option, none, some, ◌+◌, ◌≡◌, refl, arith, [], ◌∷◌}
use af_xdp_reimpl.Os.{
  Os, Call, Answer, History, Expect, unexpected, value, failed, gave, attempt, coded_attempt,
  logic_attempt, coded_outcome, leave, and_then, acquire, map_value, Context, FileDesc, close_raw,
  reset, move_assign,
}

pub data Resource : Type 0 where
  descriptor : (fd : ℕ) → Resource
  mapping : (base size : ℕ) → Resource
  object : (obj : ℕ) → Resource
  redirect : (map_fd queue : ℕ) → Resource
  attachment : (ifindex : ℕ) → Resource
  file : (stream : ℕ) → Resource

-- What a call opens when it succeeds, and what it is made to close, weighed.
abbrev pub opens : (Resource → ℕ) → Call → Answer → ℕ
opens f c (failed e) = 0
opens f Call.socket (gave x) = f (descriptor x)
opens f (Call.mmap_anonymous huge size) (gave x) = f (mapping x size)
opens f (Call.mmap_ring fd pgoff size) (gave x) = f (mapping x size)
opens f (Call.bpf_open path) (gave x) = f (object x)
opens f (Call.redirect_update map_fd queue xsk_fd) (gave x) = f (redirect map_fd queue)
opens f (Call.xdp_attach ifindex prog_fd native) (gave x) = f (attachment ifindex)
opens f (Call.fopen path) (gave x) = f (file x)
opens f c (gave x) = 0

abbrev pub closes : (Resource → ℕ) → Call → ℕ
closes f (Call.close fd) = f (descriptor fd)
closes f (Call.munmap base size) = f (mapping base size)
closes f (Call.bpf_close obj) = f (object obj)
closes f (Call.redirect_delete map_fd queue) = f (redirect map_fd queue)
closes f (Call.xdp_detach ifindex native) = f (attachment ifindex)
closes f (Call.fclose stream) = f (file stream)
closes f c = 0

abbrev pub opened : (Resource → ℕ) → History → ℕ
opened f [] = 0
opened f ((c, a) ∷ h) = opens f c a + opened f h

abbrev pub closed : (Resource → ℕ) → History → ℕ
closed f [] = 0
closed f ((c, a) ∷ h) = closes f c + closed f h

module _ {A : Type 0} where
  -- What an outcome owns.
  abbrev pub owned : ((Resource → ℕ) → A → ℕ) → (Resource → ℕ) → Expect A → ℕ
  owned own f (unexpected e) = 0
  owned own f (value a) = own f a

  -- From one history to another, everything that was opened has been closed once, but for what the
  -- outcome owns.
  pub record Tidy (own : (Resource → ℕ) → A → ℕ) (h : History) (out : Expect A × History)
      : Type 0 where
    pub balance :
        (f : Resource → ℕ)
        → opened f out.1 + closed f h ≡ opened f h + closed f out.1 + owned own f out.0

-- A call that opens what `own` says of its value, and closes nothing.
pub coded_attempt-Tidy :
    (code : ℕ → ℕ) (own : (Resource → ℕ) → ℕ → ℕ) (os : Os) (c : Call) (context : Context)
    (h : History)
    → ((f : Resource → ℕ) (x : ℕ) → opens f c (gave x) ≡ own f x)
    → ((f : Resource → ℕ) → closes f c ≡ 0)
    → Tidy own h (coded_attempt code os c context h)
coded_attempt-Tidy code own os c context h opening closing = record {
  balance = λ f. go f (os.answer h c);
}
  where
    go :
        (f : Resource → ℕ) (a : Answer)
        → opens f c a + opened f h + closed f h
          ≡ opened f h + (closes f c + closed f h) + owned own f (coded_outcome code context a)
    go f (failed e) = omega (arith, closing f)
    go f (gave x) = omega (arith, closing f, opening f x)

pub attempt-Tidy :
    (own : (Resource → ℕ) → ℕ → ℕ) (os : Os) (c : Call) (context : Context) (h : History)
    → ((f : Resource → ℕ) (x : ℕ) → opens f c (gave x) ≡ own f x)
    → ((f : Resource → ℕ) → closes f c ≡ 0)
    → Tidy own h (attempt os c context h)
attempt-Tidy = coded_attempt-Tidy (λ e. e)

pub logic_attempt-Tidy :
    (own : (Resource → ℕ) → ℕ → ℕ) (os : Os) (c : Call) (context : Context) (h : History)
    → ((f : Resource → ℕ) (x : ℕ) → opens f c (gave x) ≡ own f x)
    → ((f : Resource → ℕ) → closes f c ≡ 0)
    → Tidy own h (logic_attempt os c context h)
logic_attempt-Tidy = coded_attempt-Tidy (λ e. 0)

-- A destructor that closes what its object owns.
abbrev pub Destroys : (Resource → ℕ) → ℕ → (History → History) → Type 0
Destroys f owning destructor =
    (h : History)
    → (opened f (destructor h) ≡ opened f h) × (closed f (destructor h) ≡ closed f h + owning)

module _ {A B : Type 0} (own : (Resource → ℕ) → B → ℕ) where
  pub and_then-Tidy :
      (h : History) (out : Expect A × History) (next : A → History → Expect B × History)
      → Tidy (λ f _. 0) h out
      → ((a : A) (h1 : History) → Tidy own h1 (next a h1))
      → Tidy own h (and_then out next)
  and_then-Tidy h (unexpected e, h1) next first rest = record { balance = λ f. first.balance f }
  and_then-Tidy h (value a, h1) next first rest = record {
    balance = λ f. omega (arith, first.balance f, (rest a h1).balance f);
  }

  -- A local and the rest of its scope own, together, what the result does.
  pub acquire-Tidy :
      (held : (Resource → ℕ) → A → ℕ) (destructor : A → History → History) (h : History)
      (out : Expect A × History) (rest : A → History → Expect B × History)
      → Tidy held h out
      → ((a : A) → out.0 ≡ value a → (f : Resource → ℕ) → Destroys f (held f a) (destructor a))
      → ((a : A) (h1 : History) → Tidy own h1 (rest a h1))
      → Tidy (λ f (x : A × B). held f x.0 + own f x.1) h (acquire destructor out rest)
  acquire-Tidy held destructor h (unexpected e, h1) rest first destroys inner = record {
    balance = λ f. first.balance f;
  }
  acquire-Tidy held destructor h (value a, h1) rest first destroys inner = record {
    balance = λ f. go f (rest a h1) ((inner a h1).balance f);
  }
    where
      go :
          (f : Resource → ℕ) (s : Expect B × History)
          → opened f s.1 + closed f h1 ≡ opened f h1 + closed f s.1 + owned own f s.0
          → let out = leave destructor a s in
            opened f out.1 + closed f h
            ≡ opened f h + closed f out.1 + owned (λ g (x : A × B). held g x.0 + own g x.1) f out.0
      go f (unexpected e, h2) t = omega (arith, first.balance f, t, destroys a refl f h2)
      go f (value b, h2) t = omega (arith, first.balance f, t)

module _ {A B : Type 0} (held : (Resource → ℕ) → A → ℕ) (own : (Resource → ℕ) → B → ℕ) where
  -- What was opened so far passes to the next step, which closes it or keeps it in its result.
  pub and_then-Tidy_owning :
      (h : History) (out : Expect A × History) (next : A → History → Expect B × History)
      → Tidy held h out
      → ((a : A) (h1 : History)
          → out.0 ≡ value a
          → (f : Resource → ℕ)
          → opened f (next a h1).1 + closed f h1 + held f a
            ≡ opened f h1 + closed f (next a h1).1 + owned own f (next a h1).0)
      → Tidy own h (and_then out next)
  and_then-Tidy_owning h (unexpected e, h1) next first rest = record {
    balance = λ f. first.balance f;
  }
  and_then-Tidy_owning h (value a, h1) next first rest = record {
    balance = λ f. omega (arith, first.balance f, rest a h1 refl f);
  }

pub map_value-Tidy :
    {A B : Type 0} (own : (Resource → ℕ) → A → ℕ) (own' : (Resource → ℕ) → B → ℕ) (g : A → B)
    (h : History) (out : Expect A × History)
    → Tidy own h out
    → ((f : Resource → ℕ) (a : A) → own' f (g a) ≡ own f a)
    → Tidy own' h (map_value g out)
map_value-Tidy own own' g h (unexpected e, h1) t same = record { balance = λ f. t.balance f }
map_value-Tidy own own' g h (value a, h1) t same = record {
  balance = λ f. omega (arith, t.balance f, same f a);
}

-- What a `FileDesc` owns.
abbrev pub raw_owns : (Resource → ℕ) → Option ℕ → ℕ
raw_owns f none = 0
raw_owns f (some raw) = f (descriptor raw)

abbrev pub descriptor_owns : (Resource → ℕ) → FileDesc → ℕ
descriptor_owns f d = raw_owns f d.fd

pub close_opens : (fd : ℕ) (f : Resource → ℕ) (a : Answer) → opens f (Call.close fd) a ≡ 0
close_opens fd f (failed e) = refl
close_opens fd f (gave x) = refl

close_raw-Destroys :
    (os : Os) (raw : Option ℕ) (f : Resource → ℕ) → Destroys f (raw_owns f raw) (close_raw os raw)
close_raw-Destroys os none f h = (refl, omega arith)
close_raw-Destroys os (some raw) f h =
    (omega (arith, close_opens raw f (os.answer h (Call.close raw))), omega arith)

-- After an assignment by move, the two destructors close the descriptors of both objects, each
-- once, and nothing is opened.
pub move_assign-reset :
    (os : Os) (d o : FileDesc) (h : History) (f : Resource → ℕ)
    → let (objects, h1) = move_assign os d o h in
      let h3 = (reset os objects.1 (reset os objects.0 h1).1).1 in
      (closed f h3 ≡ closed f h + descriptor_owns f d + descriptor_owns f o)
      × (opened f h3 ≡ opened f h)
unfolding move_assign reset
move_assign-reset os d o h f =
    let h1 = close_raw os d.fd h in
    let first = close_raw-Destroys os d.fd f h in
    let second = close_raw-Destroys os o.fd f h1 in
    (omega (arith, first.1, second.1), omega (arith, first.0, second.0))
