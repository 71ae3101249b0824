-- ===== src/Inotify/Watcher/Rules.antt =====
-- What a function returns, stated of its outcome: nothing undefined, and a postcondition if it comes
-- back to its caller. One rule for each way to build a function.
use the_linux_programming_in.Prelude.{◌≡◌, refl, Bool, true, false, if◌then◌else◌}
use the_linux_programming_in.Inotify.Watcher.{
  Watcher, Outcome, returned, exited, undefined, M, bind_outcome, pure, gets, modify, call, ◌>>=◌,
  ◌>>◌,
}

module _ {K : Type 0} where
  abbrev pub Returns : {A : Type 0} → (A → Watcher K → Type 0) → Outcome K A → Type 0
  Returns Q (returned a w) = Q a w
  Returns Q (exited c) = Unit
  Returns Q undefined = ⊥

  pub Returns-bind :
      {A B : Type 0} (Q : A → Watcher K → Type 0) (R : B → Watcher K → Type 0) (o : Outcome K A)
      (f : A → M K B)
      → Returns Q o
      → ((a : A) (w : Watcher K) → Q a w → Returns R (f a w))
      → Returns R (bind_outcome o f)
  Returns-bind Q R (returned a w) f h k = k a w h
  Returns-bind Q R (exited c) f h k = tt
  Returns-bind Q R undefined f h k = absurd h

  pub Returns-mono :
      {A : Type 0} (Q R : A → Watcher K → Type 0) (o : Outcome K A)
      → Returns Q o
      → ((a : A) (w : Watcher K) → Q a w → R a w)
      → Returns R o
  Returns-mono Q R (returned a w) h k = k a w h
  Returns-mono Q R (exited c) h k = tt
  Returns-mono Q R undefined h k = absurd h

-- `m` keeps `P`, and leaves nothing undefined where `P` holds.
pub record Keeps {K A : Type 0} (P : Watcher K → Type 0) (m : M K A) : Type 0 where
  pub at : (w : Watcher K) → P w → Returns (λ _ v. P v) (m w)

module _ {K : Type 0} {P : Watcher K → Type 0} where
  pub Keeps-pure : {A : Type 0} (a : A) → Keeps P (pure a)
  Keeps-pure a = record { at = λ w h. h }

  pub Keeps-gets : {A : Type 0} (f : Watcher K → A) → Keeps P (gets f)
  Keeps-gets f = record { at = λ w h. h }

  pub Keeps-modify :
      (f : Watcher K → Watcher K) → ((w : Watcher K) → P w → P (f w)) → Keeps P (modify f)
  Keeps-modify f k = record { at = k }

  pub Keeps-bind :
      {A B : Type 0} (m : M K A) (f : A → M K B)
      → Keeps P m
      → ((a : A) → Keeps P (f a))
      → Keeps P (m >>= f)
  Keeps-bind m f km kf = record {
    at = λ w h. Returns-bind (λ _ v. P v) (λ _ v. P v) (m w) f (km.at w h) (λ a v q. (kf a).at v q);
  }

  pub Keeps-then :
      {B : Type 0} (m : M K (Unit {0})) (n : M K B) → Keeps P m → Keeps P n → Keeps P (m >> n)
  Keeps-then m n km kn = Keeps-bind m (λ _. n) km (λ _. kn)

  pub Keeps-call :
      {A : Type 0} (f : K → A × K)
      → ((w : Watcher K) (s : K) → P w → P (record w { kernel = s }))
      → Keeps P (call f)
  Keeps-call f k = record { at = λ w h. k w (f w.kernel).1 h }

module _ {K : Type 0} where
  -- An `if` keeps what both its branches keep.
  pub Returns-if :
      {A : Type 0} (Q : A → Watcher K → Type 0) (b : Bool) (m n : Outcome K A)
      → (b ≡ true → Returns Q m)
      → (b ≡ false → Returns Q n)
      → Returns Q (if b then m else n)
  Returns-if Q true m n hm hn = hm refl
  Returns-if Q false m n hm hn = hn refl

module _ {K : Type 0} where
  -- A postcondition for what comes back, with nothing said of the rest
  abbrev pub Yields : {A : Type 0} → (A → Type 0) → Outcome K A → Type 0
  Yields Q (returned a w) = Q a
  Yields Q (exited c) = Unit
  Yields Q undefined = Unit

  pub Yields-bind :
      {A B : Type 0} (R : B → Type 0) (o : Outcome K A) (f : A → M K B)
      → ((a : A) (w : Watcher K) → Yields R (f a w))
      → Yields R (bind_outcome o f)
  Yields-bind R (returned a w) f k = k a w
  Yields-bind R (exited c) f k = tt
  Yields-bind R undefined f k = tt

  -- The same, with a postcondition of the first part
  pub Yields-bind_post :
      {A B : Type 0} (Q : A → Type 0) (R : B → Type 0) (o : Outcome K A) (f : A → M K B)
      → Yields Q o
      → ((a : A) (w : Watcher K) → Q a → Yields R (f a w))
      → Yields R (bind_outcome o f)
  Yields-bind_post Q R (returned a w) f h k = k a w h
  Yields-bind_post Q R (exited c) f h k = tt
  Yields-bind_post Q R undefined f h k = tt

  pub Yields-if :
      {A : Type 0} (Q : A → Type 0) (b : Bool) (m n : Outcome K A)
      → (b ≡ true → Yields Q m)
      → (b ≡ false → Yields Q n)
      → Yields Q (if b then m else n)
  Yields-if Q true m n hm hn = hm refl
  Yields-if Q false m n hm hn = hn refl

  pub Returns-Yields :
      {A : Type 0} (P : A → Watcher K → Type 0) (Q : A → Type 0) (o : Outcome K A)
      → Returns P o
      → Yields Q o
      → Returns (λ a w. P a w × Q a) o
  Returns-Yields P Q (returned a w) h q = (h, q)
  Returns-Yields P Q (exited c) h q = tt
  Returns-Yields P Q undefined h q = h

pub ruleset keeps_rules = (Keeps-pure, Keeps-gets, Keeps-then, Keeps-bind)
