-- ===== src/Trials/Calls/Contract.antt =====
-- Programs that keep to a contract: what a program may call in a state, and what it may be told.
use preemptive_multi_tasked.Prelude.{◌≡◌, refl, Bool, true, false, if◌then◌else◌}
use preemptive_multi_tasked.Trials.Calls.{Op, Reply, Calls, done, call, ◌>>=◌}

module _ {S : Type 0} (asks : S → Op → Type 0) (replies : S → (o : Op) → Reply o → S → Type 0) where
  -- Whatever it is told, the program makes calls that it may make, and ends as `Q` says.
  abbrev pub Keeps : {A : Type 0} → (S → A → Type 0) → S → Calls A → Type 0
  Keeps Q s (done a) = Q s a
  Keeps Q s (call o k) = asks s o × ((r : Reply o) (s' : S) → replies s o r s' → Keeps Q s' (k r))

  pub Keeps-bind :
      {A B : Type 0} (Q : S → A → Type 0) (R : S → B → Type 0) (s : S) (c : Calls A)
      (f : A → Calls B)
      → Keeps Q s c
      → ((s : S) (a : A) → Q s a → Keeps R s (f a))
      → Keeps R s (c >>= f)
  unfolding ◌>>=◌
  Keeps-bind Q R s (done a) f h next = next s a h
  Keeps-bind Q R s (call o k) f h next =
      (h.0, λ r s' told. Keeps-bind Q R s' (k r) f (h.1 r s' told) next)

  pub Keeps-if :
      {A : Type 0} (Q : S → A → Type 0) (s : S) (b : Bool) (c d : Calls A)
      → (b ≡ true → Keeps Q s c)
      → (b ≡ false → Keeps Q s d)
      → Keeps Q s (if b then c else d)
  Keeps-if Q s true c d h h1 = h refl
  Keeps-if Q s false c d h h1 = h1 refl

-- The program ends in a state with a result, where it is told what `replies` allows.
pub data Ends {S : Type 0} (replies : S → (o : Op) → Reply o → S → Type 0) {A : Type 0}
    : S → Calls A → S → A → Type 0 where
  ended : {s : S} {a : A} → Ends replies s (done a) s a
  told :
      {s s1 s2 : S} {o : Op} {k : Reply o → Calls A} {a : A} (r : Reply o)
      → replies s o r s1
      → Ends replies s1 (k r) s2 a
      → Ends replies s (call o k) s2 a

pub Keeps-Ends :
    {S A : Type 0} (asks : S → Op → Type 0) (replies : S → (o : Op) → Reply o → S → Type 0)
    (Q : S → A → Type 0) (s s' : S) (c : Calls A) (a : A)
    → Keeps asks replies Q s c
    → Ends replies s c s' a
    → Q s' a
Keeps-Ends asks replies Q s s' c a h ended = h
Keeps-Ends asks replies Q s s' c a h (told {s1} {k} r heard rest) =
    Keeps-Ends asks replies Q s1 s' (k r) a (h.1 r s1 heard) rest
