-- ===== src/Common/Calls.antt =====
-- Calls that change a state and return or raise. What a call did to the state stays when a later
-- one raises.
use mathlib.Core.Path.{◌≡◌, refl}
use mathlib.Core.Bool.{Bool, true, false}
use foundation_intelligence.Common.Raises.{Result, ok, err}

abbrev pub Call : Type 0 → Type 0 → Type 0 → Type 0
Call S E A = S → S × Result E A

abbrev pub resume_with : {S E A B : Type 0} → (A → Call S E B) → S × Result E A → S × Result E B
resume_with rest (s, ok a) = rest a s
resume_with rest (s, err e) = (s, err e)

infixl 5 ◌>>=◌ ◌>>◌
abbrev pub ◌>>=◌ : {S E A B : Type 0} → Call S E A → (A → Call S E B) → Call S E B
(call >>= rest) s = resume_with rest (call s)

abbrev pub ◌>>◌ : {S E B : Type 0} → Call S E (Unit {0}) → Call S E B → Call S E B
call >> rest = call >>= λ unused. rest

abbrev pub done : {S E A : Type 0} → A → Call S E A
done a s = (s, ok a)

-- A call that reads the state.
abbrev pub asks : {S E A : Type 0} → (S → Result E A) → Call S E A
asks read s = (s, read s)

abbrev pub fails : {S E A : Type 0} → E → Call S E A
fails e s = (s, err e)

-- `if test: body`
abbrev pub when : {S E : Type 0} → Bool → Call S E (Unit {0}) → Call S E (Unit {0})
when true body = body
when false body = done tt

-- What a call keeps true of the state, whether it returns or raises.
abbrev pub Keeps : {S E A : Type 0} → (S → Type 0) → Call S E A → Type 0
Keeps {S} P call = (s : S) → P s → P (call s).0

module _ {S E : Type 0} (P : S → Type 0) where
  resume_with-Keeps :
      {A B : Type 0} (rest : A → Call S E B) (r : S × Result E A)
      → ((a : A) → Keeps P (rest a))
      → P r.0
      → P (resume_with rest r).0
  resume_with-Keeps rest (s, ok a) h p = h a s p
  resume_with-Keeps rest (s, err e) h p = p

  pub >>=-Keeps :
      {A B : Type 0} (call : Call S E A) (rest : A → Call S E B)
      → Keeps P call
      → ((a : A) → Keeps P (rest a))
      → Keeps P (call >>= rest)
  >>=-Keeps call rest h k s p = resume_with-Keeps rest (call s) k (h s p)

-- A call that leaves the state alone.
abbrev pub Reads : {S E A : Type 0} → Call S E A → Type 0
Reads {S} call = (s : S) → (call s).0 ≡ s

module _ {S E A B : Type 0} (call : Call S E A) (rest : A → Call S E B) where
  -- After a read, the rest runs in the same state with what was read, or not at all.
  pub read_then :
      (P : S → Type 0) (s : S)
      → (call s).0 ≡ s
      → P s
      → ((a : A) → (call s).1 ≡ ok a → P (rest a s).0)
      → P ((call >>= rest) s).0
  read_then P s same p k = go (call s) same k
    where
      go :
          (r : S × Result E A)
          → r.0 ≡ s
          → ((a : A) → r.1 ≡ ok a → P (rest a s).0)
          → P (resume_with rest r).0
      go (t, ok a) e k = rw e (k a refl)
      go (t, err x) e k = rw e p

  pub >>=-Reads : Reads call → ((a : A) → Reads (rest a)) → Reads (call >>= rest)
  >>=-Reads h k s = read_then (λ t. t ≡ s) s (h s) refl (λ a e. k a s)

  -- What a read and its rest return, each has returned.
  pub read-ok :
      (s : S) {b : B}
      → (call s).0 ≡ s
      → ((call >>= rest) s).1 ≡ ok b
      → (a : A) × ((call s).1 ≡ ok a) × ((rest a s).1 ≡ ok b)
  read-ok s {b} same e = go (call s) same e
    where
      go :
          (r : S × Result E A)
          → r.0 ≡ s
          → (resume_with rest r).1 ≡ ok b
          → (a : A) × (r.1 ≡ ok a) × ((rest a s).1 ≡ ok b)
      go (t, ok a) here e = (a, refl, rw here at e)
      go (t, err x) here e = cc

pub when-Reads :
    {S E : Type 0} (test : Bool) (body : Call S E (Unit {0})) → Reads body → Reads (when test body)
when-Reads true body h s = h s
when-Reads false body h s = refl

pub when-Keeps :
    {S E : Type 0} (P : S → Type 0) (test : Bool) (body : Call S E (Unit {0}))
    → Keeps P body
    → Keeps P (when test body)
when-Keeps P true body h s p = h s p
when-Keeps P false body h s p = p
