-- ===== src/Kernel/Steps.antt =====
-- What methods one after the other do to a state: a reflexive and transitive relation that each of
-- them keeps to.
use myblog.Base.{inl, inr, ◌≡◌}
use myblog.Kernel.Exec.{Exec, ◌>>=◌, ◌>>◌}
use myblog.Kernel.Errors.{Result-cases, ok}

module _ {ℓ κ} {S : Type ℓ} (Q : S → S → Type κ) where
  -- Whether it answers or raises, the state after the method is in relation with the one before.
  pub record Keeps {A : Type 0} (m : Exec S A) : Type (ℓ ⊔ κ) where
    pub kept : (s : S) → Q s (m s).1

  module _ (trans : (s t u : S) → Q s t → Q t u → Q s u) {A B : Type 0} where
    pub Keeps-bind :
        {m : Exec S A} {f : A → Exec S B} → Keeps m → ((a : A) → Keeps (f a)) → Keeps (m >>= f)
    Keeps-bind {m} {f} first rest = record {
      kept = λ s. elim (Result-cases (m s).0) [
        | inl (a, fine) ↦
            rw fine (trans s (m s).1 (f a (m s).1).1 (first.kept s) ((rest a).kept (m s).1))
        | inr (e, raised) ↦ rw raised (first.kept s)
      ];
    }

    pub Keeps-then : {m : Exec S A} {n : Exec S B} → Keeps m → Keeps n → Keeps (m >> n)
    Keeps-then {m} {n} first rest = Keeps-bind {m = m} {f = λ a. n} first (λ a. rest)

-- From a state with `F` the method comes to a state with `G`, whether it answers or raises; and what
-- it answers has `Q`.
pub record Ensures {ℓ κ} {S : Type ℓ} {A : Type 0} (F : S → Type κ) (Q : A → Type 0)
    (G : S → Type κ) (m : Exec S A) : Type (ℓ ⊔ κ) where
  pub kept : (s : S) → F s → G (m s).1
  pub answers : (s : S) → F s → (a : A) → (m s).0 ≡ ok a → Q a

-- The state in between has `M`; it has `G` too, for the method that raises there.
pub Ensures-bind {ℓ κ} :
    {S : Type ℓ} {A B : Type 0} {F M G : S → Type κ} {Q : A → Type 0} {Q' : B → Type 0}
    {m : Exec S A} {f : A → Exec S B}
    → ((s : S) → M s → G s)
    → Ensures F Q M m
    → ((a : A) → Q a → Ensures M Q' G (f a))
    → Ensures F Q' G (m >>= f)
Ensures-bind {m = m} {f = f} weaker first rest = record {
  kept = λ s h. elim (Result-cases (m s).0) [
    | inl (a, fine) ↦ rw fine ((rest a (first.answers s h a fine)).kept (m s).1 (first.kept s h))
    | inr (e, raised) ↦ rw raised (weaker (m s).1 (first.kept s h))
  ];
  answers = λ s h b end. elim (Result-cases (m s).0) [
    | inl (a, fine) ↦
        (rest a (first.answers s h a fine)).answers (m s).1 (first.kept s h) b (rw fine at end)
    | inr (e, raised) ↦ let bad = rw raised at end in cc
  ];
}

pub Ensures-then {ℓ κ} :
    {S : Type ℓ} {A B : Type 0} {F M G : S → Type κ} {Q : A → Type 0} {Q' : B → Type 0}
    {m : Exec S A} {n : Exec S B}
    → ((s : S) → M s → G s)
    → Ensures F Q M m
    → Ensures M Q' G n
    → Ensures F Q' G (m >> n)
Ensures-then {m = m} {n = n} weaker first rest =
    Ensures-bind {m = m} {f = λ a. n} weaker first (λ a q. rest)
