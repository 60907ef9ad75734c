-- ===== src/Tools/Ensures.antt =====
-- Conditions before and after a program of tools: what holds of the calls made, and of its value.
use ldal.Base.{◌≡◌, refl, [], ◌∷◌, Bool, true, false, if◌then◌else◌}
use ldal.Kernel.{Call, Answer, Env, History, pure}
use ldal.Tools.{Stop, exited, lost, Result, value, stopped, Program, give, exit, sys, ◌>>=◌}

module _ (W : Stop → History → Type 0) where
  -- `Q` of a value and the calls up to it, and `W` of the calls up to where the program stopped.
  abbrev pub After : {A : Type 0} → (A → History → Type 0) → Result A × History → Type 0
  After Q (value a, h) = Q a h
  After Q (stopped s, h) = W s h

  pub record Ensures (e : Env) {A : Type 0} (P : History → Type 0) (m : Program A)
      (Q : A → History → Type 0) : Type 0 where
    pub ensured : (h : History) → P h → After Q (m e h)

After-weaken :
    {A : Type 0} (W : Stop → History → Type 0) {Q Q' : A → History → Type 0}
    (r : Result A × History)
    → ((a : A) (h : History) → Q' a h → Q a h)
    → After W Q' r
    → After W Q r
After-weaken W (value a, h) wider q = wider a h q
After-weaken W (stopped s, h) wider q = q

module _ {e : Env} {W : Stop → History → Type 0} where
  module _ {A B : Type 0} {Q : A → History → Type 0} {Q' : B → History → Type 0} where
    After-bind :
        (k : A → Program B) (r : Result A × History)
        → After W Q r
        → ((a : A) → Ensures W e (Q a) (k a) Q')
        → After W Q' (((λ _ _. r) >>= k) e [])
    unfolding ◌>>=◌
    After-bind k (value a, h) q next = (next a).ensured h q
    After-bind k (stopped s, h) q next = q

    pub bind-Ensures :
        {P : History → Type 0} {m : Program A} {k : A → Program B}
        → Ensures W e P m Q
        → ((a : A) → Ensures W e (Q a) (k a) Q')
        → Ensures W e P (m >>= k) Q'
    unfolding ◌>>=◌
    bind-Ensures {m = m} {k = k} first next = record {
      ensured = λ h p. After-bind k (m e h) (first.ensured h p) next;
    }

  module _ {A : Type 0} {P : History → Type 0} {Q : A → History → Type 0} where
    pub if-Ensures :
        (b : Bool) {m k : Program A}
        → (b ≡ true → Ensures W e P m Q)
        → (b ≡ false → Ensures W e P k Q)
        → Ensures W e P (if b then m else k) Q
    if-Ensures true one other = one refl
    if-Ensures false one other = other refl

    pub give-Ensures : (a : A) → ((h : History) → P h → Q a h) → Ensures W e P (give a) Q
    unfolding give
    give-Ensures a q = record { ensured = q }

    pub exit-Ensures : ((h : History) → P h → W exited h) → Ensures W e P exit Q
    unfolding exit
    exit-Ensures x = record { ensured = x }

    pub lost-Ensures : ((h : History) → P h → W lost h) → Ensures W e P (pure (stopped lost)) Q
    lost-Ensures r = record { ensured = r }

  pub sys-Ensures :
      {P : History → Type 0} {Q : Answer → History → Type 0} (c : Call)
      → ((h : History) → P h → Q (e h c) (c ∷ h))
      → Ensures W e P (sys c) Q
  unfolding sys
  sys-Ensures c q = record { ensured = q }

  pub weaken-Ensures :
      {A : Type 0} {P P' : History → Type 0} {Q Q' : A → History → Type 0} {m : Program A}
      → ((h : History) → P h → P' h)
      → ((a : A) (h : History) → Q' a h → Q a h)
      → Ensures W e P' m Q'
      → Ensures W e P m Q
  weaken-Ensures {m = m} before wider old = record {
    ensured = λ h p. After-weaken W (m e h) wider (old.ensured h (before h p));
  }

  -- A fact that does not depend on the calls.
  pub assume-Ensures :
      {A : Type 0} {P : History → Type 0} {F : Type 0} {m : Program A} {Q : A → History → Type 0}
      → (F → Ensures W e P m Q)
      → Ensures W e (λ h. P h × F) m Q
  assume-Ensures given = record { ensured = λ h p. (given p.1).ensured h p.0 }
