-- ===== src/Main/Run/Settles.antt =====
-- What it means that `run_receiver` leaves nothing open, step by step and scope by scope.
use af_xdp_reimpl.Prelude.{ℕ, ◌+◌, ◌≤◌, ◌≡◌, arith, Bool, true, false, if◌then◌else◌}
use af_xdp_reimpl.Os.{History, unexpected, value, AfxdpError}
use af_xdp_reimpl.Os.Tidy.{Resource, opened, closed, Tidy, Destroys}
use af_xdp_reimpl.Loader.Settled.{Ignores, Pays}
use af_xdp_reimpl.Main.Run.{Outcome, returned, running, ended, leave_scope}
use af_xdp_reimpl.Os.Quiet.{Quiet}

-- From a history `h` on, with `owing` still open: at least as much has been closed by `h1` as was
-- opened, and what is not a redirection or an attachment has been closed exactly once.
pub record Settles (f : Resource → ℕ) (owing : ℕ) (h h1 : History) : Type 0 where
  pub least : owing + opened f h1 + closed f h ≤ opened f h + closed f h1
  pub exact : Ignores f → owing + opened f h1 + closed f h ≡ opened f h + closed f h1

module _ (f : Resource → ℕ) where
  pub destroyed :
      (n : ℕ) (destructor : History → History) (h : History)
      → Destroys f n destructor
      → Settles f n h (destructor h)
  destroyed n destructor h d =
      let t = d h in
      record { least = omega (arith, t.0, t.1); exact = λ i. omega (arith, t.0, t.1) }

  pub Settles-destroyed :
      (n : ℕ) (destructor : History → History) (h h1 : History)
      → Destroys f n destructor
      → Settles f 0 h h1
      → Settles f n h (destructor h1)
  Settles-destroyed n destructor h h1 d s =
      let t = d h1 in
      record {
        least = omega (arith, t.0, t.1, s.least);
        exact = λ i. omega (arith, t.0, t.1, s.exact i);
      }

  -- Nothing was owed, and nothing happens.
  pub settled : (h : History) → Settles f 0 h h
  settled h = record { least = omega arith; exact = λ i. omega arith }

  -- A failed step that is tidy.
  pub Settles-Tidy :
      {A : Type 0} (own : (Resource → ℕ) → A → ℕ) (h h1 : History) (e : AfxdpError)
      → Tidy own h (unexpected e, h1)
      → Settles f 0 h h1
  Settles-Tidy own h h1 e t = record {
    least = omega (arith, t.balance f);
    exact = λ i. omega (arith, t.balance f);
  }

-- The same of a function that may have returned.
abbrev pub Leaves : {S : Type 0} → (Resource → ℕ) → ℕ → History → Outcome S × History → Type 0
Leaves f owing h (returned exit_code, h1) = Settles f owing h h1
Leaves f owing h (running, h1) = Unit {0}
Leaves f owing h (ended exit_code r worker, h1) = Settles f owing h h1

module _ {S : Type 0} (f : Resource → ℕ) where
  -- What happens between two histories, before the rest.
  Leaves-after :
      (owing left : ℕ) (h h1 : History) (out : Outcome S × History)
      → ((h2 : History) → Settles f left h1 h2 → Settles f owing h h2)
      → Leaves f left h1 out
      → Leaves f owing h out
  Leaves-after owing left h h1 (returned exit_code, h2) step s = step h2 s
  Leaves-after owing left h h1 (running, h2) step s = tt
  Leaves-after owing left h h1 (ended exit_code r worker, h2) step s = step h2 s

  pub Leaves-Quiet :
      (owing : ℕ) (h h1 : History) (out : Outcome S × History)
      → Quiet f h h1
      → Leaves f owing h1 out
      → Leaves f owing h out
  Leaves-Quiet owing h h1 out q = Leaves-after owing owing h h1 out (λ h2 s. record {
    least = omega (arith, q.same_opened, q.same_closed, s.least);
    exact = λ i. omega (arith, q.same_opened, q.same_closed, s.exact i);
  })

  pub Leaves-Pays :
      (owing left : ℕ) (h h1 : History) (out : Outcome S × History)
      → Pays f owing left h h1
      → Leaves f left h1 out
      → Leaves f owing h out
  Leaves-Pays owing left h h1 out p = Leaves-after owing left h h1 out (λ h2 s. record {
    least = omega (arith, p.same, p.least, s.least);
    exact = λ i. omega (arith, p.same, p.exact i, s.exact i);
  })

  pub leave_scope-Leaves :
      (n : ℕ) (destructor : History → History) (h : History) (out : Outcome S × History)
      → Destroys f n destructor
      → Leaves f 0 h out
      → Leaves f n h (leave_scope destructor out)
  leave_scope-Leaves n destructor h (returned exit_code, h1) d s =
      Settles-destroyed f n destructor h h1 d s
  leave_scope-Leaves n destructor h (running, h1) d s = tt
  leave_scope-Leaves n destructor h (ended exit_code r worker, h1) d s =
      Settles-destroyed f n destructor h h1 d s

  -- A step that has given an object to the scope that follows.
  pub Leaves-Tidy :
      {A : Type 0} (own : (Resource → ℕ) → A → ℕ) (h h1 : History) (a : A)
      (out : Outcome S × History)
      → Tidy own h (value a, h1)
      → Leaves f (own f a) h1 out
      → Leaves f 0 h out
  Leaves-Tidy own h h1 a out t = Leaves-after 0 (own f a) h h1 out (λ h2 s. record {
    least = omega (arith, t.balance f, s.least);
    exact = λ i. omega (arith, t.balance f, s.exact i);
  })

  pub either-Leaves :
      (b : Bool) (owing : ℕ) (h : History) (x y : Outcome S × History)
      → Leaves f owing h x
      → Leaves f owing h y
      → Leaves f owing h (if b then x else y)
  either-Leaves true owing h x y p q = p
  either-Leaves false owing h x y p q = q
